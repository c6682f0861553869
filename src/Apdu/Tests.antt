-- ===== src/Apdu/Tests.antt =====
-- Runs of the application layer's codec on concrete APDUs, and its theorems at concrete inputs.
use bacpypes.Prelude.{◌≡◌, refl, true, some, [], ◌∷◌, ◌++◌, All, arith}
use bacpypes.Pdu.{Bytes, IsByte, ok, err, decoding_error, get}
use bacpypes.Apdu.Limits.{encode_max_segments_accepted, encode_max_apdu_length_accepted}
use bacpypes.Apdu.Limits.Order.{
  IsCode, RoundsLength, encode_max_segments_accepted_lem, encode_max_apdu_length_accepted_lem,
}
use bacpypes.Apdu.Apci.{
  Apdu, confirmed_request, simple_ack, encode, decode, get_two, encode_apdu, decode_apdu,
}
use bacpypes.Apdu.Apci.RoundTrip.{Fits, decode_apdu-encode_apdu}
use bacpypes.Apdu.Apci.Sound.{decode_header_again}

encode_max_segments_accepted_example : IsCode 20 (encode_max_segments_accepted (some 20))
encode_max_segments_accepted_example = encode_max_segments_accepted_lem 20

encode_max_apdu_length_accepted_example : RoundsLength 1475 (encode_max_apdu_length_accepted 1475)
encode_max_apdu_length_accepted_example = encode_max_apdu_length_accepted_lem 1475

length_1475 : encode_max_apdu_length_accepted 1475 ≡ ok 4
unfolding encode_max_apdu_length_accepted
length_1475 = refl

-- The second segment of a ReadPropertyMultiple request.
abbrev request : Apdu
request = record {
  apci = confirmed_request (some (record { seq = 1; win = 4 })) true true 4 5 77 14;
  pdu_data = 0x0c ∷ 2 ∷ [];
}

decode_apdu-encode_apdu_example :
    (b : Bytes) × (encode_apdu request [] ≡ ok (tt, b))
    × (decode_apdu b ≡ ok (request, 0x0c ∷ 2 ∷ []))
decode_apdu-encode_apdu_example = decode_apdu-encode_apdu request (omega arith)

decode_simple_ack : decode (0x2f ∷ 9 ∷ 15 ∷ []) ≡ ok (simple_ack 9 15, [])
unfolding decode get_two get
decode_simple_ack = refl

decode_header_again_example :
    Fits (simple_ack 9 15)
    × All IsByte []
    × ((c : Bytes) × (encode (simple_ack 9 15) [] ≡ ok (tt, c))
        × (decode (c ++ []) ≡ ok (simple_ack 9 15, [])))
decode_header_again_example =
    decode_header_again (0x2f ∷ 9 ∷ 15 ∷ []) (omega arith) decode_simple_ack

decode_unknown : decode (0x80 ∷ []) ≡ err decoding_error
unfolding decode get
decode_unknown = refl
