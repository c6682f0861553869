-- ===== src/Bvll/RoundTrip.antt =====
-- bacpypes3/ipv4/bvll.py: the octets of each message, and that they are read back.
use bacpypes.Prelude.{
  ℕ, ◌+◌, ◌*◌, ◌^◌, ◌<◌, ◌≡◌, refl, sym, ◌∙◌, ap, true, List, [], ◌∷◌, ◌++◌, append-nil, length,
  length-append, All, ◌==◌, ltb, arith,
}
use bacpypes.Pdu.{
  Bytes, ok, get, get_data, get_short, put, put_short, pack_be, get_data-append, get_short_masked,
}
use bacpypes.Bvll.{
  BdtEntry, FdtEntry, Lpdu, result_code, write_bdt, read_bdt, read_bdt_ack, forwarded_npdu,
  register_foreign_device, read_fdt, read_fdt_ack, delete_fdt_entry, distribute_broadcast,
  original_unicast, original_broadcast, bvlci_function, bvlci_length, netmask, encode_lpci,
  encode_lpdu, decode_lpci, get_bdt_entry, get_fdt_entry, get_table, get_rest, decode_table,
  find_decode, bvll_confirmation,
}
use bacpypes.Bvll.Entries.{
  BdtFits, FdtFits, BodyFits, short_wire, bdt_wire, fdt_wire, table_wire, body_wire,
  put_lpdu_body_lem, returned, get_data_exact, get_fdt_entry-Reads, get_bdt_entry-Reads,
  get_entries_lem,
}

length-bdt_wire : (e : BdtEntry) → BdtFits e → length (bdt_wire e) ≡ 10
length-bdt_wire e (four, port, prefix) =
    let outer =
      length-append (e.bdt_addr ++ pack_be 2 e.bdt_port) (pack_be 4 (netmask e.bdt_prefix)) in
    let inner = length-append e.bdt_addr (pack_be 2 e.bdt_port) in
    outer ∙ ap (λ k. k + 4) inner ∙ ap (λ k. k + 2 + 4) four

length-fdt_wire : (e : FdtEntry) → FdtFits e → length (fdt_wire e) ≡ 10
length-fdt_wire e (six, ttl, remain) =
    length-append e.fd_address (short_wire e.fd_ttl ++ short_wire e.fd_remain) ∙ ap (λ k. k + 4) six

module _ {E : Type 0} (wire : E → Bytes) (Fits : E → Type 0)
    (ten : (e : E) → Fits e → length (wire e) ≡ 10) where
  length-table_wire :
      (table : List E) → All Fits table → length (table_wire wire table) ≡ 10 * length table
  length-table_wire [] h = refl
  length-table_wire (e ∷ table) (first, h) =
      let both = length-append (wire e) (table_wire wire table) in
      let here = ten e first in let later = length-table_wire table h in omega arith

-- The length that the header tells is that of the message.
length-body_wire : (m : Lpdu) → BodyFits m → bvlci_length m ≡ length (body_wire m) + 4
length-body_wire (result_code code) h = refl
length-body_wire (write_bdt bdt) h =
    let k = length-table_wire bdt_wire BdtFits length-bdt_wire bdt h in omega arith
length-body_wire read_bdt h = refl
length-body_wire (read_bdt_ack bdt) h =
    let k = length-table_wire bdt_wire BdtFits length-bdt_wire bdt h in omega arith
length-body_wire (forwarded_npdu addr d) h = let k = length-append addr d in omega arith
length-body_wire (register_foreign_device ttl) h = refl
length-body_wire read_fdt h = refl
length-body_wire (read_fdt_ack fdt) h =
    let k = length-table_wire fdt_wire FdtFits length-fdt_wire fdt h in omega arith
length-body_wire (delete_fdt_entry addr) h = omega arith
length-body_wire (distribute_broadcast d) h = omega arith
length-body_wire (original_unicast d) h = omega arith
length-body_wire (original_broadcast d) h = omega arith

bdt_table :
    (bdt : List BdtEntry)
    → All BdtFits bdt
    → get_table get_bdt_entry (table_wire bdt_wire bdt) ≡ ok (bdt, [])
bdt_table bdt h =
    get_entries_lem get_bdt_entry bdt_wire BdtFits get_bdt_entry-Reads
      (λ e k. let n = length-bdt_wire e k in omega arith) (length (table_wire bdt_wire bdt)) bdt h
      (omega arith)

fdt_table :
    (fdt : List FdtEntry)
    → All FdtFits fdt
    → get_table get_fdt_entry (table_wire fdt_wire fdt) ≡ ok (fdt, [])
fdt_table fdt h =
    get_entries_lem get_fdt_entry fdt_wire FdtFits get_fdt_entry-Reads
      (λ e k. let n = length-fdt_wire e k in omega arith) (length (table_wire fdt_wire fdt)) fdt h
      (omega arith)

get_rest_lem : (d : Bytes) → get_rest d ≡ ok (d, [])
get_rest_lem d =
    let e : d ++ [] ≡ d = append-nil d in ap (get_data (length d)) (sym e) ∙ get_data-append d []

short_alone : (n : ℕ) → n < 2 ^ 16 → get_short (short_wire n) ≡ ok (n, [])
short_alone n h = get_short_masked n [] h

addr_alone : (addr : Bytes) → length addr ≡ 6 → get_data 6 addr ≡ ok (addr, [])
addr_alone addr h =
    let e : addr ++ [] ≡ addr = append-nil addr in
    ap (get_data 6) (sym e) ∙ get_data_exact 6 addr [] h

find_decode_lem :
    (m : Lpdu) → BodyFits m → find_decode (bvlci_function m) decode_table (body_wire m) ≡ ok (m, [])
unfolding find_decode decode_table
find_decode_lem (result_code code) h =
    returned (get_short (short_wire code)) code [] _ (short_alone code h)
find_decode_lem (write_bdt bdt) h =
    returned (get_table get_bdt_entry (table_wire bdt_wire bdt)) bdt [] _ (bdt_table bdt h)
find_decode_lem read_bdt h = refl
find_decode_lem (read_bdt_ack bdt) h =
    returned (get_table get_bdt_entry (table_wire bdt_wire bdt)) bdt [] _ (bdt_table bdt h)
find_decode_lem (forwarded_npdu addr d) h =
    returned (get_data 6 (addr ++ d)) addr d _ (get_data_exact 6 addr d h)
    ∙ returned (get_rest d) d [] _ (get_rest_lem d)
find_decode_lem (register_foreign_device ttl) h =
    returned (get_short (short_wire ttl)) ttl [] _ (short_alone ttl h)
find_decode_lem read_fdt h = refl
find_decode_lem (read_fdt_ack fdt) h =
    returned (get_table get_fdt_entry (table_wire fdt_wire fdt)) fdt [] _ (fdt_table fdt h)
find_decode_lem (delete_fdt_entry addr) h = returned (get_data 6 addr) addr [] _ (addr_alone addr h)
find_decode_lem (distribute_broadcast d) h = returned (get_rest d) d [] _ (get_rest_lem d)
find_decode_lem (original_unicast d) h = returned (get_rest d) d [] _ (get_rest_lem d)
find_decode_lem (original_broadcast d) h = returned (get_rest d) d [] _ (get_rest_lem d)

abbrev lpdu_wire : Lpdu → Bytes
lpdu_wire m = 0x81 ∷ bvlci_function m ∷ (short_wire (bvlci_length m) ++ body_wire m)

bvlci_function_fits : (m : Lpdu) → bvlci_function m < 256
bvlci_function_fits (result_code code) = omega arith
bvlci_function_fits (write_bdt bdt) = omega arith
bvlci_function_fits read_bdt = omega arith
bvlci_function_fits (read_bdt_ack bdt) = omega arith
bvlci_function_fits (forwarded_npdu addr d) = omega arith
bvlci_function_fits (register_foreign_device ttl) = omega arith
bvlci_function_fits read_fdt = omega arith
bvlci_function_fits (read_fdt_ack fdt) = omega arith
bvlci_function_fits (delete_fdt_entry addr) = omega arith
bvlci_function_fits (distribute_broadcast d) = omega arith
bvlci_function_fits (original_unicast d) = omega arith
bvlci_function_fits (original_broadcast d) = omega arith

encode_lpci_lem :
    (function len : ℕ)
    → function < 256
    → encode_lpci function len [] ≡ ok (tt, 0x81 ∷ function ∷ short_wire len)
unfolding encode_lpci put_short put
encode_lpci_lem function len h = let octet : ltb function 256 ≡ true = ground arith in rw octet refl

encode_lpdu_lem : (m : Lpdu) → encode_lpdu m [] ≡ ok (tt, lpdu_wire m)
unfolding encode_lpdu
encode_lpdu_lem m =
    returned (encode_lpci (bvlci_function m) (bvlci_length m) []) tt _ _
      (encode_lpci_lem (bvlci_function m) (bvlci_length m) (bvlci_function_fits m))
    ∙ put_lpdu_body_lem m (0x81 ∷ bvlci_function m ∷ short_wire (bvlci_length m))

decode_lpci_lem :
    (function len : ℕ) (body : Bytes)
    → len < 2 ^ 16
    → len ≡ length body + 4
    → decode_lpci (0x81 ∷ function ∷ (short_wire len ++ body)) ≡ ok (function, body)
unfolding decode_lpci get
decode_lpci_lem function len body fits told =
    let right : (len == length body + 4) ≡ true = ground arith in
    returned (get_short (short_wire len ++ body)) len body _ (get_short_masked len body fits)
    ∙ rw right refl

-- A BVLL message of any of the twelve classes, whose fields and length fit their octets, is encoded,
-- and BVLLCodec.confirmation gives it back and leaves nothing.
pub bvll_confirmation-encode_lpdu :
    (m : Lpdu)
    → BodyFits m
    → bvlci_length m < 2 ^ 16
    → (b : Bytes) × (encode_lpdu m [] ≡ ok (tt, b)) × (bvll_confirmation b ≡ ok (m, []))
unfolding bvll_confirmation
bvll_confirmation-encode_lpdu m h fits = (
  lpdu_wire m,
  encode_lpdu_lem m,
  returned (decode_lpci (lpdu_wire m)) (bvlci_function m) (body_wire m) _ (
        decode_lpci_lem (bvlci_function m) (bvlci_length m) (body_wire m) fits
          (length-body_wire m h))
      ∙ find_decode_lem m h,
)
