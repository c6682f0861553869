-- ===== src/Apdu/Apci/RoundTrip.antt =====
-- bacpypes3/apdu.py: `APCI.encode`, and `APCI.decode` on what it writes; and so for an APDU.
use bacpypes.Prelude.{
  ℕ, ◌+◌, ◌*◌, ◌/◌, ◌%◌, ◌≡◌, ◌<◌, refl, ap₂, Bool, false, Option, none, some, [], ◌∷◌, ◌++◌,
  append_assoc, append-nil, arith, is_some,
}
use bacpypes.Pdu.{Bytes, IsByte, ok, put, put_lem, put_data, get, ◌>>◌}
use bacpypes.Apdu.Apci.{
  Segment, Apci, confirmed_request, unconfirmed_request, simple_ack, complex_ack, segment_ack,
  error, reject, abort, first_octet, put_segment, encode, get_segment, get_two,
  decode_confirmed_request, decode_complex_ack, decode_segment_ack, decode, Apdu, encode_apdu,
  decode_apdu,
}
use bacpypes.Apdu.Apci.Octets.{first_octet-Fields}

abbrev pub SegmentFits : Option Segment → Type 0
SegmentFits none = Unit
SegmentFits (some s) = IsByte s.seq × IsByte s.win

-- Every field fits the bits that it has.
abbrev pub Fits : Apci → Type 0
Fits (confirmed_request seg mor sa max_segs max_resp invoke_id service) =
    SegmentFits seg × (max_segs < 8) × (max_resp < 16) × IsByte invoke_id × IsByte service
Fits (unconfirmed_request service) = IsByte service
Fits (simple_ack invoke_id service) = IsByte invoke_id × IsByte service
Fits (complex_ack seg mor invoke_id service) = SegmentFits seg × IsByte invoke_id × IsByte service
Fits (segment_ack nak srv invoke_id seq win) = IsByte invoke_id × IsByte seq × IsByte win
Fits (error invoke_id service) = IsByte invoke_id × IsByte service
Fits (reject invoke_id reason) = IsByte invoke_id × IsByte reason
Fits (abort srv invoke_id reason) = IsByte invoke_id × IsByte reason

abbrev pub segment_wire : Option Segment → Bytes
segment_wire none = []
segment_wire (some s) = s.seq ∷ s.win ∷ []

abbrev pub wire : Apci → Bytes
wire (confirmed_request seg mor sa max_segs max_resp invoke_id service) =
    first_octet 0 (is_some seg) mor sa false
    ∷ (max_segs * 16 + max_resp)
    ∷ invoke_id
    ∷ (segment_wire seg ++ (service ∷ []))
wire (unconfirmed_request service) = first_octet 1 false false false false ∷ service ∷ []
wire (simple_ack invoke_id service) =
    first_octet 2 false false false false ∷ invoke_id ∷ service ∷ []
wire (complex_ack seg mor invoke_id service) =
    first_octet 3 (is_some seg) mor false false ∷ invoke_id ∷ (segment_wire seg ++ (service ∷ []))
wire (segment_ack nak srv invoke_id seq win) =
    first_octet 4 false false nak srv ∷ invoke_id ∷ seq ∷ win ∷ []
wire (error invoke_id service) = first_octet 5 false false false false ∷ invoke_id ∷ service ∷ []
wire (reject invoke_id reason) = first_octet 6 false false false false ∷ invoke_id ∷ reason ∷ []
wire (abort srv invoke_id reason) = first_octet 7 false false false srv ∷ invoke_id ∷ reason ∷ []

put_segment_lem :
    (s : Option Segment) (b : Bytes)
    → SegmentFits s
    → put_segment s b ≡ ok (tt, b ++ segment_wire s)
unfolding put_segment
put_segment_lem none b h = rw append-nil
put_segment_lem (some s) b h = rw (put_lem s.seq b h.0, put_lem s.win _ h.1) (simp append_assoc)

-- Three octets in a row, the first of which is a header's.
put_three :
    (t : ℕ) (b3 b2 b1 b0 : Bool) (m n : ℕ) (b : Bytes)
    → t < 16
    → IsByte m
    → IsByte n
    → (put (first_octet t b3 b2 b1 b0) >> (put m >> put n)) b
      ≡ ok (tt, b ++ (first_octet t b3 b2 b1 b0 ∷ m ∷ n ∷ []))
put_three t b3 b2 b1 b0 m n b ht hm hn =
    rw (put_lem _ b (first_octet-Fields t b3 b2 b1 b0 ht).0, put_lem m _ hm, put_lem n _ hn)
      (simp append_assoc)

-- `encode` of a header whose fields fit puts its octets at the end of the PDU.
pub encode-wire : (a : Apci) (b : Bytes) → Fits a → encode a b ≡ ok (tt, b ++ wire a)
unfolding encode
encode-wire (confirmed_request seg mor sa max_segs max_resp invoke_id service) b
      (hs, hm, hr, hi, hv) =
    rw
      (
        put_lem _ b (first_octet-Fields 0 (is_some seg) mor sa false (omega arith)).0,
        put_lem (max_segs * 16 + max_resp) _ (omega arith),
        put_lem invoke_id _ hi,
        put_segment_lem seg _ hs,
        put_lem service _ hv,
      )
      (simp append_assoc)
encode-wire (unconfirmed_request service) b h =
    rw
      (
        put_lem _ b (first_octet-Fields 1 false false false false (omega arith)).0,
        put_lem service _ h,
      )
      (simp append_assoc)
encode-wire (simple_ack invoke_id service) b (hi, hv) =
    put_three 2 _ _ _ _ invoke_id service b (omega arith) hi hv
encode-wire (complex_ack seg mor invoke_id service) b (hs, hi, hv) =
    rw
      (
        put_lem _ b (first_octet-Fields 3 (is_some seg) mor false false (omega arith)).0,
        put_lem invoke_id _ hi,
        put_segment_lem seg _ hs,
        put_lem service _ hv,
      )
      (simp append_assoc)
encode-wire (segment_ack nak srv invoke_id seq win) b (hi, hs, hw) =
    rw
      (
        put_lem _ b (first_octet-Fields 4 false false nak srv (omega arith)).0,
        put_lem invoke_id _ hi,
        put_lem seq _ hs,
        put_lem win _ hw,
      )
      (simp append_assoc)
encode-wire (error invoke_id service) b (hi, hv) =
    put_three 5 _ _ _ _ invoke_id service b (omega arith) hi hv
encode-wire (reject invoke_id reason) b (hi, hv) =
    put_three 6 _ _ _ _ invoke_id reason b (omega arith) hi hv
encode-wire (abort srv invoke_id reason) b (hi, hv) =
    put_three 7 _ _ _ _ invoke_id reason b (omega arith) hi hv

get_segment_lem :
    (s : Option Segment) (rest : Bytes)
    → get_segment (is_some s) (segment_wire s ++ rest) ≡ ok (s, rest)
unfolding get_segment get
get_segment_lem none rest = refl
get_segment_lem (some s) rest = refl

plain_type : (t : ℕ) → t < 16 → first_octet t false false false false / 16 % 16 ≡ t
plain_type t h = (first_octet-Fields t false false false false h).1

-- `decode` of those octets, whatever follows, gives the header and what follows.
pub decode-wire : (a : Apci) (rest : Bytes) → Fits a → decode (wire a ++ rest) ≡ ok (a, rest)
unfolding decode get get_two decode_confirmed_request decode_complex_ack decode_segment_ack
decode-wire (confirmed_request seg mor sa max_segs max_resp invoke_id service) rest
      (hs, hm, hr, hi, hv) =
    let (_, t, b3, b2, b1, b0) = first_octet-Fields 0 (is_some seg) mor sa false (omega arith) in
    rw (append_assoc, t, b3, get_segment_lem seg (service ∷ rest), b2, b1)
      (ap₂ (λ (m r : ℕ). ok (confirmed_request seg mor sa m r invoke_id service, rest))
        {x = (max_segs * 16 + max_resp) / 16 % 8} (omega arith) (omega arith))
decode-wire (unconfirmed_request service) rest h = rw (plain_type 1 (omega arith))
decode-wire (simple_ack invoke_id service) rest h = rw (plain_type 2 (omega arith))
decode-wire (complex_ack seg mor invoke_id service) rest (hs, hi, hv) =
    let (_, t, b3, b2, b1, b0) = first_octet-Fields 3 (is_some seg) mor false false (omega arith) in
    rw (append_assoc, t, b3, get_segment_lem seg (service ∷ rest), b2)
decode-wire (segment_ack nak srv invoke_id seq win) rest (hi, hs, hw) =
    let (_, t, b3, b2, b1, b0) = first_octet-Fields 4 false false nak srv (omega arith) in
    rw (t, b1, b0)
decode-wire (error invoke_id service) rest (hi, hv) = rw (plain_type 5 (omega arith))
decode-wire (reject invoke_id reason) rest (hi, hv) = rw (plain_type 6 (omega arith))
decode-wire (abort srv invoke_id reason) rest (hi, hv) =
    let (_, t, b3, b2, b1, b0) = first_octet-Fields 7 false false false srv (omega arith) in
    rw (t, b0)

-- `encode` of an APDU whose header fields fit succeeds, and `decode` of the octets gives it back.
pub decode_apdu-encode_apdu :
    (a : Apdu)
    → Fits a.apci
    → (b : Bytes) × (encode_apdu a [] ≡ ok (tt, b)) × (decode_apdu b ≡ ok (a, a.pdu_data))
unfolding encode_apdu decode_apdu put_data
decode_apdu-encode_apdu a h = (
  wire a.apci ++ a.pdu_data,
  rw (encode-wire a.apci [] h),
  rw (decode-wire a.apci a.pdu_data h, decode_apdu),
)
