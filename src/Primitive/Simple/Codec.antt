-- ===== src/Primitive/Simple/Codec.antt =====
-- bacpypes3/primitivedata.py, what is read back of a Null, Boolean, OctetString, Date, Time and
-- ObjectIdentifier.
use bacpypes.Prelude.{
  ℕ, ◌+◌, ◌*◌, ◌/◌, ◌%◌, ◌^◌, ◌<◌, ◌≡◌, refl, ◌∙◌, ap, Bool, true, false, Option, none, some, List,
  [], ◌∷◌, ltb, ◌==◌, arith,
}
use bacpypes.Pdu.{ok, Bytes, IsByte, pack_be}
use bacpypes.Primitive.Tag.{Tag}
use bacpypes.Primitive.Atomic.{check_tag, beside, decoded, decode_atomic-make_tag}
use bacpypes.Primitive.Unsigned.{Limits, cast}
use bacpypes.Primitive.Unsigned.Codec.{Admits, pack_long_lem, unpack_be-pack_be}
use bacpypes.Primitive.Simple.{
  null_number, octet_string_number, date_number, time_number, object_identifier_number, encode_null,
  read_null, decode_null, encode_boolean, read_boolean, decode_boolean, too_short, too_long,
  cast_octets, encode_octet_string, decode_octet_string, Four, pack_four, tag_data_of, cast_date,
  read_four, encode_date, decode_date, encode_time, decode_time, int_of_identifier, cast_identifier,
  encode_identifier, read_identifier, decode_identifier,
}

-- Null is read back.
pub decode_null-encode_null :
    (expected : Option ℕ) (tags : List Tag)
    → decode_null expected (encode_null expected ∷ tags) ≡ ok (tt, tags)
unfolding decode_null encode_null read_null
decode_null-encode_null expected tags =
    decode_atomic-make_tag null_number expected read_null [] tags

-- A Boolean, application or context tagged, is decoded to itself, and the tags behind it are left.
pub decode_boolean-encode_boolean :
    (expected : Option ℕ) (v : Bool) (tags : List Tag)
    → decode_boolean expected (encode_boolean expected v ∷ tags) ≡ ok (v, tags)
unfolding decode_boolean encode_boolean read_boolean check_tag
decode_boolean-encode_boolean none true tags = refl
decode_boolean-encode_boolean none false tags = refl
decode_boolean-encode_boolean (some c) true tags =
    let same_number : c == c ≡ true = ground arith in rw same_number refl
decode_boolean-encode_boolean (some c) false tags =
    let same_number : c == c ≡ true = ground arith in rw same_number refl

-- Octets are read back if the class admits their number.
pub decode_octet_string-encode_octet_string :
    (least most expected : Option ℕ) (d : Bytes) (tags : List Tag)
    → too_short least d ≡ false
    → too_long most d ≡ false
    → decode_octet_string least most expected (encode_octet_string expected d ∷ tags) ≡ ok (d, tags)
unfolding decode_octet_string encode_octet_string cast_octets
decode_octet_string-encode_octet_string least most expected d tags low high =
    decode_atomic-make_tag octet_string_number expected (cast_octets least most) d tags
    ∙ rw (low, high) refl

abbrev pub FourBytes : Four → Type 0
FourBytes (a, b, c, d) = IsByte a × IsByte b × IsByte c × IsByte d

pack_four_lem :
    (a b c d : ℕ) → FourBytes (a, b, c, d) → pack_four (a, b, c, d) ≡ ok (a ∷ b ∷ c ∷ d ∷ [])
pack_four_lem a b c d (ha, hb, hc, hd) = ground arith

-- A date of four octets is read back.
pub decode_date-encode_date :
    (expected : Option ℕ) (year month day dow : ℕ) (tags : List Tag)
    → FourBytes (year, month, day, dow)
    → decoded (decode_date expected) tags (encode_date expected (year, month, day, dow))
      ≡ ok ((year, month, day, dow), tags)
unfolding decode_date encode_date read_four
decode_date-encode_date expected year month day dow tags h =
    let past : ltb 1900 year ≡ false = (let y = h.0 in ground arith) in
    ap (λ r. decoded (decode_date expected) tags (tag_data_of date_number expected r))
      (pack_four_lem year month day dow h)
    ∙ decode_atomic-make_tag date_number expected (read_four cast_date)
        (year ∷ month ∷ day ∷ dow ∷ []) tags
    ∙ rw past refl

-- A time of four octets is read back.
pub decode_time-encode_time :
    (expected : Option ℕ) (hour minute second hundredth : ℕ) (tags : List Tag)
    → FourBytes (hour, minute, second, hundredth)
    → decoded (decode_time expected) tags (encode_time expected (hour, minute, second, hundredth))
      ≡ ok ((hour, minute, second, hundredth), tags)
unfolding decode_time encode_time read_four
decode_time-encode_time expected hour minute second hundredth tags h =
    ap (λ r. decoded (decode_time expected) tags (tag_data_of time_number expected r))
      (pack_four_lem hour minute second hundredth h)
    ∙ decode_atomic-make_tag time_number expected (read_four (λ v. v))
        (hour ∷ minute ∷ second ∷ hundredth ∷ []) tags

identifier_fits :
    (obj_type obj_instance : ℕ)
    → obj_type < 1024
    → obj_instance < 2 ^ 22
    → int_of_identifier (obj_type, obj_instance) < 2 ^ 32
unfolding int_of_identifier
identifier_fits obj_type obj_instance t i = omega arith

read_identifier_lem :
    (limits : Limits) (obj_type obj_instance : ℕ)
    → obj_type < 1024
    → obj_instance < 2 ^ 22
    → Admits limits obj_type
    → read_identifier limits (pack_be 4 (int_of_identifier (obj_type, obj_instance)))
      ≡ ok (obj_type, obj_instance)
unfolding read_identifier cast_identifier cast int_of_identifier
read_identifier_lem limits obj_type obj_instance t i (low, high) =
    let value = unpack_be-pack_be (obj_type * 2 ^ 22 + obj_instance) (omega arith) in
    let high_part : (obj_type * 2 ^ 22 + obj_instance) / 2 ^ 22 ≡ obj_type = omega arith in
    let low_part : (obj_type * 2 ^ 22 + obj_instance) % 2 ^ 22 ≡ obj_instance = omega arith in
    rw (value, high_part, low_part, low, high) refl

-- An object identifier with a type of 10 bits that its class admits and an instance of 22 bits,
-- application or context tagged, is decoded to itself, and the tags behind it are left.
pub decode_identifier-encode_identifier :
    (limits : Limits) (expected : Option ℕ) (obj_type obj_instance : ℕ) (tags : List Tag)
    → obj_type < 1024
    → obj_instance < 2 ^ 22
    → Admits limits obj_type
    → decoded
        (decode_identifier limits expected)
        tags
        (encode_identifier expected (obj_type, obj_instance))
      ≡ ok ((obj_type, obj_instance), tags)
unfolding decode_identifier encode_identifier
decode_identifier-encode_identifier limits expected obj_type obj_instance tags t i a =
    let fits : int_of_identifier (obj_type, obj_instance) < 2 ^ 32 =
      identifier_fits obj_type obj_instance t i in
    ap
      (λ r.
        decoded (decode_identifier limits expected) tags
          (tag_data_of object_identifier_number expected r))
      (pack_long_lem (int_of_identifier (obj_type, obj_instance)) fits)
    ∙ decode_atomic-make_tag object_identifier_number expected (read_identifier limits)
        (pack_be 4 (int_of_identifier (obj_type, obj_instance))) tags
    ∙ ap (λ r. beside r tags) (read_identifier_lem limits obj_type obj_instance t i a)
