-- ===== src/Primitive/Simple.antt =====
-- bacpypes3/primitivedata.py, the atomic classes with data of one form: Null, Boolean, OctetString,
-- Date, Time and ObjectIdentifier, each with `encode` and `decode`.
pub mod Codec
use bacpypes.Prelude.{
  ℕ, ◌+◌, ◌-◌, ◌*◌, ◌/◌, ◌%◌, ◌^◌, Bool, true, false, not, ◌&&◌, Option, none, some, List, [], ◌∷◌,
  length, ltb, ◌==◌, if◌then◌else◌,
}
use bacpypes.Pdu.{
  Result, ok, err, Bytes, pack_be, unpack_be, invalid_tag, value_error, struct_error,
}
use bacpypes.Primitive.Tag.{TagClass, application, context, opening, closing, Tag, boolean_number}
use bacpypes.Primitive.Atomic.{make_tag, check_tag, beside, after_check, decode_atomic}
use bacpypes.Primitive.Unsigned.{Limits, cast, pack_long}

-- The numbers of class TagNumber.
abbrev pub null_number : ℕ
null_number = 0

abbrev pub octet_string_number : ℕ
octet_string_number = 6

abbrev pub date_number : ℕ
date_number = 10

abbrev pub time_number : ℕ
time_number = 11

abbrev pub object_identifier_number : ℕ
object_identifier_number = 12

-- `Null.encode` and `Null.decode`
unfoldable pub encode_null : Option ℕ → Tag
encode_null expected = make_tag null_number expected []

unfoldable pub read_null : Bytes → Result (Unit {0})
read_null [] = ok tt
read_null (a ∷ d) = err invalid_tag

unfoldable pub decode_null : Option ℕ → List Tag → Result (Unit {0} × List Tag)
unfolding read_null
decode_null expected = decode_atomic null_number expected read_null

-- `int(self)` of a Boolean
abbrev pub int_of : Bool → ℕ
int_of true = 1
int_of false = 0

-- `Boolean.encode`: the value is the length of an application tag, and the data of a context tag.
unfoldable pub encode_boolean : Option ℕ → Bool → Tag
encode_boolean none v = record {
  tag_class = application;
  tag_number = boolean_number;
  tag_lvt = int_of v;
  tag_data = [];
}
encode_boolean (some c) v = make_tag boolean_number (some c) (int_of v ∷ [])

abbrev pub bool_of : ℕ → Bool
bool_of n = not (n == 0)

-- The value of a tag whose class and number have been checked.
unfoldable pub read_boolean : TagClass → ℕ → Bytes → Result Bool
read_boolean application lvt d = ok (bool_of lvt)
read_boolean context lvt [] = err invalid_tag
read_boolean context lvt (a ∷ []) = ok (bool_of a)
read_boolean context lvt (a ∷ b ∷ d) = err invalid_tag
read_boolean opening lvt d = err invalid_tag
read_boolean closing lvt d = err invalid_tag

-- `Boolean.decode`
unfoldable pub decode_boolean : Option ℕ → List Tag → Result (Bool × List Tag)
unfolding read_boolean check_tag
decode_boolean expected [] = err invalid_tag
decode_boolean expected (tag ∷ tags) =
    beside
      (after_check (check_tag boolean_number expected tag.tag_class tag.tag_number)
        (read_boolean tag.tag_class tag.tag_lvt tag.tag_data))
      tags

-- `_min_length` and `_max_length` of a class, and `OctetString.cast` of octets.
abbrev pub too_short : Option ℕ → Bytes → Bool
too_short none d = false
too_short (some l) d = ltb (length d) l

abbrev pub too_long : Option ℕ → Bytes → Bool
too_long none d = false
too_long (some h) d = ltb h (length d)

unfoldable pub cast_octets : Option ℕ → Option ℕ → Bytes → Result Bytes
cast_octets least most d =
    if too_short least d then err value_error else if too_long most d then err value_error else ok d

-- `OctetString.encode` and `OctetString.decode`
unfoldable pub encode_octet_string : Option ℕ → Bytes → Tag
encode_octet_string expected d = make_tag octet_string_number expected d

unfoldable pub decode_octet_string :
    Option ℕ → Option ℕ → Option ℕ → List Tag → Result (Bytes × List Tag)
unfolding cast_octets
decode_octet_string least most expected =
    decode_atomic octet_string_number expected (cast_octets least most)

-- A 4-tuple of ints: year, month, day and day of the week, or hour, minute, second and hundredth.
abbrev pub Four : Type 0
Four = ℕ × ℕ × ℕ × ℕ

-- `bytearray(self)`
abbrev pub pack_four : Four → Result Bytes
pack_four (a, b, c, d) =
    if ltb a 256 && ltb b 256 && ltb c 256 && ltb d 256
    then ok (a ∷ b ∷ c ∷ d ∷ [])
    else err value_error

abbrev pub tag_data_of : ℕ → Option ℕ → Result Bytes → Result Tag
tag_data_of number expected (ok d) = ok (make_tag number expected d)
tag_data_of number expected (err e) = err e

-- `Date.cast` of a 4-tuple
abbrev pub cast_date : Four → Four
cast_date (year, month, day, dow) =
    if ltb 1900 year then (year - 1900, month, day, dow) else (year, month, day, dow)

unfoldable pub read_four : (Four → Four) → Bytes → Result Four
read_four cast_four (a ∷ b ∷ c ∷ d ∷ []) = ok (cast_four (a, b, c, d))
read_four cast_four _ = err invalid_tag

-- `Date.encode` and `Date.decode`
unfoldable pub encode_date : Option ℕ → Four → Result Tag
encode_date expected v = tag_data_of date_number expected (pack_four v)

unfoldable pub decode_date : Option ℕ → List Tag → Result (Four × List Tag)
unfolding read_four
decode_date expected = decode_atomic date_number expected (read_four cast_date)

-- `Time.encode` and `Time.decode`; `Time.cast` leaves a 4-tuple as it is.
unfoldable pub encode_time : Option ℕ → Four → Result Tag
encode_time expected v = tag_data_of time_number expected (pack_four v)

unfoldable pub decode_time : Option ℕ → List Tag → Result (Four × List Tag)
unfolding read_four
decode_time expected = decode_atomic time_number expected (read_four (λ v. v))

-- `ObjectIdentifier.__int__`
unfoldable pub int_of_identifier : ℕ × ℕ → ℕ
int_of_identifier (obj_type, obj_instance) = obj_type * 2 ^ 22 + obj_instance

-- `ObjectIdentifier.cast` of an int, with the limits of `object_type_class`
abbrev pub with_instance : Result ℕ → ℕ → Result (ℕ × ℕ)
with_instance (ok obj_type) obj_instance = ok (obj_type, obj_instance)
with_instance (err e) obj_instance = err e

unfoldable pub cast_identifier : Limits → ℕ → Result (ℕ × ℕ)
unfolding cast
cast_identifier object_type_class arg =
    with_instance (cast object_type_class (arg / 2 ^ 22)) (arg % 2 ^ 22)

-- `ObjectIdentifier.encode` and `ObjectIdentifier.decode`
unfoldable pub encode_identifier : Option ℕ → ℕ × ℕ → Result Tag
unfolding int_of_identifier
encode_identifier expected v =
    tag_data_of object_identifier_number expected (pack_long (int_of_identifier v))

unfoldable pub read_identifier : Limits → Bytes → Result (ℕ × ℕ)
unfolding cast_identifier
read_identifier object_type_class d =
    if length d == 4 then cast_identifier object_type_class (unpack_be d) else err invalid_tag

unfoldable pub decode_identifier : Limits → Option ℕ → List Tag → Result ((ℕ × ℕ) × List Tag)
unfolding read_identifier
decode_identifier object_type_class expected =
    decode_atomic object_identifier_number expected (read_identifier object_type_class)
