-- ===== src/Npdu/Npci.antt =====
-- bacpypes3/npdu.py, class NPCI: the header's fields, `encode` and `decode`.
--
-- `encode` also assigns `self.npduControl`, so it returns the header as it is left. An attribute
-- that may be missing is an Option. `|` and `&` of the octets are `bit_or` and `bit_and`;
-- `pduNetworkPriority & 0x03` is `% 4`.
pub mod Wire
pub mod Control
pub mod RoundTrip
pub mod Sound
use bacpypes.Prelude.{
  ℕ, zero, suc, ◌%◌, ◌+◌, ◌≡◌, Bool, true, false, not, ◌&&◌, Option, none, some, List, [], ◌∷◌,
  length, ◌==◌, leb, has_bits, is_some, bit_and, bit_or, if◌then◌else◌, ltb,
}
use bacpypes.Pdu.{
  Bytes, Action, pure, raise, raise_if, when, ◌>>=◌, ◌>>◌, get, get_data, get_short, put, put_data,
  put_short, decoding_error, type_error, attribute_error,
}
use bacpypes.Address.{
  Address, null_address, local_broadcast, global_broadcast, local_station, remote_station,
  remote_broadcast, new_remote_station, new_remote_broadcast,
}

pub record Npci : Type 0 where
  pub version : ℕ
  pub control : Option ℕ
  pub expecting_reply : Bool
  pub network_priority : ℕ
  pub dadr : Option Address
  pub sadr : Option Address
  pub hop_count : Option ℕ
  pub net_message : Option ℕ
  pub vendor_id : Option ℕ

-- `NPCI()`
abbrev pub new_npci : Npci
new_npci = record {
  version = 1;
  control = none;
  expecting_reply = false;
  network_priority = 0;
  dadr = none;
  sadr = none;
  hop_count = none;
  net_message = none;
  vendor_id = none;
}

abbrev pub flag : Bool → ℕ → ℕ
flag true mask = mask
flag false mask = 0

-- The control octet of `encode`.
unfoldable pub control_octet : Bool → Bool → Bool → Bool → ℕ → ℕ
control_octet message dnet snet reply priority =
    bit_or
      (bit_or (bit_or (bit_or (flag message 0x80) (flag dnet 0x20)) (flag snet 0x08))
        (flag reply 0x04))
      (priority % 4)

-- The destination: the three kinds of remote address, and nothing for any other.
unfoldable pub encode_dadr : Option Address → Action (Unit {0})
encode_dadr none = pure tt
encode_dadr (some (remote_station net addr)) = do put_short net; put (length addr); put_data addr
encode_dadr (some (remote_broadcast net)) = do put_short net; put 0
encode_dadr (some global_broadcast) = do put_short 0xffff; put 0
encode_dadr (some null_address) = pure tt
encode_dadr (some local_broadcast) = pure tt
encode_dadr (some (local_station addr)) = pure tt

-- The source: whatever its kind, the network is masked and the length and octets are put, which
-- is a TypeError where they are None.
unfoldable pub encode_sadr : Option Address → Action (Unit {0})
encode_sadr none = pure tt
encode_sadr (some (remote_station net addr)) = do put_short net; put (length addr); put_data addr
encode_sadr (some (remote_broadcast net)) = do put_short net; raise type_error
encode_sadr (some global_broadcast) = raise type_error
encode_sadr (some null_address) = raise type_error
encode_sadr (some local_broadcast) = raise type_error
encode_sadr (some (local_station addr)) = raise type_error

abbrev pub is_proprietary : ℕ → Bool
is_proprietary message = leb 0x80 message && leb message 0xff

unfoldable pub put_attribute : Option ℕ → (ℕ → Action (Unit {0})) → Action (Unit {0})
put_attribute none m = raise attribute_error
put_attribute (some n) m = m n

unfoldable pub encode_message : Option ℕ → Option ℕ → Action (Unit {0})
unfolding put_attribute
encode_message none vendor = pure tt
encode_message (some message) vendor = do
  put message
  when (is_proprietary message) (put_attribute vendor put_short)

unfoldable pub encode_hop_count : Option Address → Option ℕ → Action (Unit {0})
unfolding put_attribute
encode_hop_count none hops = pure tt
encode_hop_count (some a) hops = put_attribute hops put

-- The control octet that `encode` computes from the fields.
unfoldable pub control_of : Npci → ℕ
control_of h =
    control_octet (is_some h.net_message) (is_some h.dadr) (is_some h.sadr) h.expecting_reply
      h.network_priority

unfoldable pub encode : Npci → Action Npci
encode h = do
  put h.version
  put (control_of h)
  encode_dadr h.dadr
  encode_sadr h.sadr
  encode_hop_count h.dadr h.hop_count
  encode_message h.net_message h.vendor_id
  pure (record h { control = some (control_of h) })

-- `dnet`, `dlen` and `dadr` as read, to an address.
unfoldable pub destination : ℕ → ℕ → Bytes → Action Address
destination dnet dlen addr =
    if dnet == 0xffff
    then pure global_broadcast
    else if dlen == 0
    then new_remote_broadcast dnet
    else new_remote_station dnet addr

unfoldable pub decode_dadr : Bool → Action (Option Address)
decode_dadr false = pure none
decode_dadr true = do
  dnet ← get_short
  dlen ← get
  addr ← get_data dlen
  a ← destination dnet dlen addr
  pure (some a)

unfoldable pub decode_sadr : Bool → Action (Option Address)
decode_sadr false = pure none
decode_sadr true = do
  snet ← get_short
  slen ← get
  addr ← get_data slen
  raise_if (snet == 0xffff) decoding_error
  raise_if (slen == 0) decoding_error
  a ← new_remote_station snet addr
  pure (some a)

unfoldable pub decode_hop_count : Bool → Action (Option ℕ)
decode_hop_count false = pure none
decode_hop_count true = do hops ← get; pure (some hops)

unfoldable pub decode_vendor : Bool → Action (Option ℕ)
decode_vendor false = pure none
decode_vendor true = do vendor ← get_short; pure (some vendor)

-- The network message type and the vendor ID.
unfoldable pub decode_message : Bool → Action (Option ℕ × Option ℕ)
decode_message false = pure (none, none)
decode_message true = do
  message ← get
  vendor ← decode_vendor (is_proprietary message)
  pure (some message, vendor)

unfoldable pub check_length : Action (Unit {0})
check_length b = if ltb (length b) 2 then raise decoding_error b else pure tt b

unfoldable pub decode : Action Npci
decode = do
  check_length
  version ← get
  raise_if (not (version == 1)) decoding_error
  control ← get
  dadr ← decode_dadr (has_bits control 0x20)
  sadr ← decode_sadr (has_bits control 0x08)
  hops ← decode_hop_count (has_bits control 0x20)
  message ← decode_message (has_bits control 0x80)
  pure (record {
    version = version;
    control = some control;
    expecting_reply = has_bits control 0x04;
    network_priority = bit_and control 0x03;
    dadr = dadr;
    sadr = sadr;
    hop_count = hops;
    net_message = message.0;
    vendor_id = message.1;
  })
