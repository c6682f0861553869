-- ===== src/Apdu/Apci/Sound.antt =====
-- bacpypes3/apdu.py: what `APCI.decode` accepts, and its encoding.
use bacpypes.Prelude.{
  ℕ, ◌/◌, ◌%◌, ◌≡◌, subst, Bool, true, false, none, some, [], ◌++◌, arith, has_bits, All, ◌==◌,
}
use bacpypes.Pdu.{Bytes, IsByte, ok, get, decoding_error}
use bacpypes.Pdu.Yields.{
  OnReturn, Yields, Yields-bind, Yields-pure, Yields-if, Yields-raise, get-Yields,
}
use bacpypes.Apdu.Apci.{
  Apci, confirmed_request, unconfirmed_request, simple_ack, complex_ack, segment_ack, error, reject,
  abort, encode, get_segment, get_two, decode_confirmed_request, decode_complex_ack,
  decode_segment_ack, decode_type, decode,
}
use bacpypes.Apdu.Apci.RoundTrip.{Fits, SegmentFits, wire, encode-wire, decode-wire}

get_segment-Yields : (c : Bool) → Yields SegmentFits (get_segment c)
unfolding get_segment
get_segment-Yields false = Yields-pure SegmentFits none tt
get_segment-Yields true = Yields-bind IsByte SegmentFits _ get get-Yields λ seq hs.
    Yields-bind IsByte SegmentFits _ get get-Yields
      λ win hw. Yields-pure SegmentFits (some (record { seq = seq; win = win })) (hs, hw)

get_two-Yields :
    (f : ℕ → ℕ → Apci) → ((a b : ℕ) → IsByte a → IsByte b → Fits (f a b)) → Yields Fits (get_two f)
unfolding get_two
get_two-Yields f h =
    Yields-bind IsByte Fits _ get get-Yields λ a ha.
      Yields-bind IsByte Fits _ get get-Yields λ b hb. Yields-pure Fits (f a b) (h a b ha hb)

decode_confirmed_request-Yields : (buff : ℕ) → Yields Fits (decode_confirmed_request buff)
unfolding decode_confirmed_request
decode_confirmed_request-Yields buff = Yields-bind IsByte Fits _ get get-Yields λ limits _.
    Yields-bind IsByte Fits _ get get-Yields λ invoke_id hi.
      Yields-bind SegmentFits Fits _ _ (get_segment-Yields (has_bits buff 0x08)) λ seg hs.
        Yields-bind IsByte Fits _ get get-Yields λ service hv.
          Yields-pure Fits
            (confirmed_request seg (has_bits buff 0x04) (has_bits buff 0x02) (limits / 16 % 8)
              (limits % 16) invoke_id service)
            (hs, omega arith, omega arith, hi, hv)

decode_complex_ack-Yields : (buff : ℕ) → Yields Fits (decode_complex_ack buff)
unfolding decode_complex_ack
decode_complex_ack-Yields buff = Yields-bind IsByte Fits _ get get-Yields λ invoke_id hi.
    Yields-bind SegmentFits Fits _ _ (get_segment-Yields (has_bits buff 0x08)) λ seg hs.
      Yields-bind IsByte Fits _ get get-Yields λ service hv.
        Yields-pure Fits (complex_ack seg (has_bits buff 0x04) invoke_id service) (hs, hi, hv)

decode_segment_ack-Yields : (buff : ℕ) → Yields Fits (decode_segment_ack buff)
unfolding decode_segment_ack
decode_segment_ack-Yields buff = Yields-bind IsByte Fits _ get get-Yields λ invoke_id hi.
    Yields-bind IsByte Fits _ get get-Yields λ seq hs.
      Yields-bind IsByte Fits _ get get-Yields λ win hw.
        Yields-pure Fits (segment_ack (has_bits buff 0x02) (has_bits buff 0x01) invoke_id seq win)
          (hi, hs, hw)

decode_type-Yields : (t buff : ℕ) → Yields Fits (decode_type t buff)
unfolding decode_type
decode_type-Yields t buff = Yields-if Fits (t == 0) _ _ (decode_confirmed_request-Yields buff) (
    Yields-if Fits (t == 1) _ _
      (Yields-bind IsByte Fits _ get get-Yields
        λ service hv. Yields-pure Fits (unconfirmed_request service) hv)
      (Yields-if Fits (t == 2) _ _ (get_two-Yields simple_ack λ a b ha hb. (ha, hb)) (
        Yields-if Fits (t == 3) _ _ (decode_complex_ack-Yields buff) (
          Yields-if Fits (t == 4) _ _ (decode_segment_ack-Yields buff) (
            Yields-if Fits (t == 5) _ _ (get_two-Yields error λ a b ha hb. (ha, hb)) (
              Yields-if Fits (t == 6) _ _ (get_two-Yields reject λ a b ha hb. (ha, hb)) (
                Yields-if Fits (t == 7) _ _
                  (get_two-Yields (abort (has_bits buff 0x01)) λ a b ha hb. (ha, hb))
                  (Yields-raise Fits decoding_error))))))))

decode-Yields : Yields Fits decode
unfolding decode
decode-Yields =
    Yields-bind IsByte Fits (λ buff. decode_type (buff / 16 % 16) buff) get get-Yields
      λ buff _. decode_type-Yields (buff / 16 % 16) buff

-- A header that was read from octets fits its fields, and what is left is octets; written again
-- and read again it is the same header.
pub decode_header_again :
    (b : Bytes) {a : Apci} {rest : Bytes}
    → All IsByte b
    → decode b ≡ ok (a, rest)
    → Fits a
      × All IsByte rest
      × ((c : Bytes) × (encode a [] ≡ ok (tt, c)) × (decode (c ++ rest) ≡ ok (a, rest)))
decode_header_again b {a} {rest} hb e =
    let (fits, octets) = subst (OnReturn Fits) e (decode-Yields b hb) in
    (fits, octets, (wire a, encode-wire a [] fits, decode-wire a rest fits))
