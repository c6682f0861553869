-- ===== src/Bvll.antt =====
-- bacpypes3/ipv4/bvll.py: class LPCI, the twelve message classes with `encode` and `decode`, and
-- BVLLCodec. The address of an IPv4Address is its four octets and its port; the netmask of its
-- prefix length, and the reading of a prefix length from a mask, are those of `ipaddress` and
-- `_count_set_bits`.
pub mod Entries
pub mod RoundTrip
mod Tests
use bacpypes.Prelude.{
  ℕ, zero, suc, ◌+◌, ◌-◌, ◌*◌, ◌^◌, bit_and, Bool, true, false, not, List, [], ◌∷◌, ◌++◌, length,
  ◌==◌, if◌then◌else◌,
}
use bacpypes.Pdu.{
  Bytes, Action, ok, err, pure, raise, raise_if, ◌>>=◌, ◌>>◌, get, get_data, get_short, get_long,
  put, put_data, put_short, pack_be, decoding_error, out_of_fuel,
}

-- An entry of a broadcast distribution table: `bdte.addrAddr`, of an address and a port, and the prefix
-- length of `bdte.netmask`.
pub record BdtEntry : Type 0 where
  pub bdt_addr : Bytes
  pub bdt_port : ℕ
  pub bdt_prefix : ℕ

-- FDTEntry, with the six octets of `fdAddress.addrAddr`
pub record FdtEntry : Type 0 where
  pub fd_address : Bytes
  pub fd_ttl : ℕ
  pub fd_remain : ℕ

pub data Lpdu : Type 0 where
  result_code : ℕ → Lpdu
  write_bdt : List BdtEntry → Lpdu
  read_bdt : Lpdu
  read_bdt_ack : List BdtEntry → Lpdu
  forwarded_npdu : Bytes → Bytes → Lpdu
  register_foreign_device : ℕ → Lpdu
  read_fdt : Lpdu
  read_fdt_ack : List FdtEntry → Lpdu
  delete_fdt_entry : Bytes → Lpdu
  distribute_broadcast original_unicast original_broadcast : Bytes → Lpdu

-- `pduType` of each class
abbrev pub bvlci_function : Lpdu → ℕ
bvlci_function (result_code code) = 0x00
bvlci_function (write_bdt bdt) = 0x01
bvlci_function read_bdt = 0x02
bvlci_function (read_bdt_ack bdt) = 0x03
bvlci_function (forwarded_npdu addr d) = 0x04
bvlci_function (register_foreign_device ttl) = 0x05
bvlci_function read_fdt = 0x06
bvlci_function (read_fdt_ack fdt) = 0x07
bvlci_function (delete_fdt_entry addr) = 0x08
bvlci_function (distribute_broadcast d) = 0x09
bvlci_function (original_unicast d) = 0x0a
bvlci_function (original_broadcast d) = 0x0b

-- `bvlciLength` of each class
abbrev pub bvlci_length : Lpdu → ℕ
bvlci_length (result_code code) = 6
bvlci_length (write_bdt bdt) = 4 + 10 * length bdt
bvlci_length read_bdt = 4
bvlci_length (read_bdt_ack bdt) = 4 + 10 * length bdt
bvlci_length (forwarded_npdu addr d) = 10 + length d
bvlci_length (register_foreign_device ttl) = 6
bvlci_length read_fdt = 4
bvlci_length (read_fdt_ack fdt) = 4 + 10 * length fdt
bvlci_length (delete_fdt_entry addr) = 10
bvlci_length (distribute_broadcast d) = 4 + length d
bvlci_length (original_unicast d) = 4 + length d
bvlci_length (original_broadcast d) = 4 + length d

-- `netmask.packed` of a prefix length, as a number
abbrev pub netmask : ℕ → ℕ
netmask prefix = (2 ^ prefix - 1) * 2 ^ (32 - prefix)

-- `_count_set_bits`. Each round clears a bit.
unfoldable pub count_set_bits : ℕ → ℕ → ℕ
count_set_bits zero n = 0
count_set_bits (suc fuel) n =
    let rest = count_set_bits fuel (bit_and n (n - 1)) in if n == 0 then 0 else suc rest

unfoldable pub put_bdt : List BdtEntry → Action (Unit {0})
put_bdt [] = pure tt
put_bdt (e ∷ bdt) = do
  put_data (e.bdt_addr ++ pack_be 2 e.bdt_port)
  put_data (pack_be 4 (netmask e.bdt_prefix))
  put_bdt bdt

unfoldable pub put_fdt : List FdtEntry → Action (Unit {0})
put_fdt [] = pure tt
put_fdt (e ∷ fdt) = do put_data e.fd_address; put_short e.fd_ttl; put_short e.fd_remain; put_fdt fdt

-- What `encode` of each class puts behind the header.
unfoldable pub put_lpdu_body : Lpdu → Action (Unit {0})
unfolding put_bdt put_fdt
put_lpdu_body (result_code code) = put_short code
put_lpdu_body (write_bdt bdt) = put_bdt bdt
put_lpdu_body read_bdt = pure tt
put_lpdu_body (read_bdt_ack bdt) = put_bdt bdt
put_lpdu_body (forwarded_npdu addr d) = do put_data addr; put_data d
put_lpdu_body (register_foreign_device ttl) = put_short ttl
put_lpdu_body read_fdt = pure tt
put_lpdu_body (read_fdt_ack fdt) = put_fdt fdt
put_lpdu_body (delete_fdt_entry addr) = put_data addr
put_lpdu_body (distribute_broadcast d) = put_data d
put_lpdu_body (original_unicast d) = put_data d
put_lpdu_body (original_broadcast d) = put_data d

-- `LPCI.encode`
unfoldable pub encode_lpci : ℕ → ℕ → Action (Unit {0})
encode_lpci function len = do put 0x81; put function; put_short len

-- `encode` of each class
unfoldable pub encode_lpdu : Lpdu → Action (Unit {0})
unfolding encode_lpci put_lpdu_body
encode_lpdu m = do encode_lpci (bvlci_function m) (bvlci_length m); put_lpdu_body m

-- `LPCI.decode`, and the function that it reads
unfoldable pub decode_lpci : Action ℕ
decode_lpci = do
  bvlci_type ← get
  raise_if (not (bvlci_type == 0x81)) decoding_error
  function ← get
  len ← get_short
  (λ b. raise_if (not (len == length b + 4)) decoding_error b)
  pure function

unfoldable pub get_bdt_entry : Action BdtEntry
unfolding count_set_bits
get_bdt_entry = do
  addr ← get_data 4
  port ← get_short
  mask ← get_long
  pure (record { bdt_addr = addr; bdt_port = port; bdt_prefix = count_set_bits 32 mask })

unfoldable pub get_fdt_entry : Action FdtEntry
get_fdt_entry = do
  addr ← get_data 6
  ttl ← get_short
  remain ← get_short
  pure (record { fd_address = addr; fd_ttl = ttl; fd_remain = remain })

-- `while pdu.pduData`. Each round takes an octet at least.
unfoldable pub get_entries : {E : Type 0} → Action E → ℕ → Action (List E)
get_entries entry fuel [] = ok ([], [])
get_entries entry zero (a ∷ b) = err out_of_fuel
get_entries entry (suc fuel) (a ∷ b) =
    let rest = get_entries entry fuel in (do e ← entry; table ← rest; pure (e ∷ table)) (a ∷ b)

abbrev pub get_table : {E : Type 0} → Action E → Action (List E)
get_table entry b = get_entries entry (length b) b

-- `pdu.get_data(len(pdu.pduData))`
abbrev pub get_rest : Action Bytes
get_rest b = get_data (length b) b

-- `decode` of each class
unfoldable pub decode_table : List (ℕ × Action Lpdu)
unfolding get_entries get_bdt_entry get_fdt_entry
decode_table =
    (0x00, do code ← get_short; pure (result_code code))
    ∷ (0x01, do bdt ← get_table get_bdt_entry; pure (write_bdt bdt))
    ∷ (0x02, pure read_bdt)
    ∷ (0x03, do bdt ← get_table get_bdt_entry; pure (read_bdt_ack bdt))
    ∷ (0x04, do addr ← get_data 6; d ← get_rest; pure (forwarded_npdu addr d))
    ∷ (0x05, do ttl ← get_short; pure (register_foreign_device ttl))
    ∷ (0x06, pure read_fdt)
    ∷ (0x07, do fdt ← get_table get_fdt_entry; pure (read_fdt_ack fdt))
    ∷ (0x08, do addr ← get_data 6; pure (delete_fdt_entry addr))
    ∷ (0x09, do d ← get_rest; pure (distribute_broadcast d))
    ∷ (0x0a, do d ← get_rest; pure (original_unicast d))
    ∷ (0x0b, do d ← get_rest; pure (original_broadcast d))
    ∷ []

-- `pdu_types[lpci.bvlciFunction]`, where a KeyError becomes a DecodingError
unfoldable pub find_decode : ℕ → List (ℕ × Action Lpdu) → Action Lpdu
find_decode function [] = raise decoding_error
find_decode function (e ∷ table) =
    let rest = find_decode function table in if function == e.0 then e.1 else rest

-- `BVLLCodec.confirmation`
unfoldable pub bvll_confirmation : Action Lpdu
unfolding decode_lpci find_decode decode_table
bvll_confirmation = do function ← decode_lpci; find_decode function decode_table
