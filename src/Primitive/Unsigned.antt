-- ===== src/Primitive/Unsigned.antt =====
-- bacpypes3/primitivedata.py, classes Unsigned and Enumerated: `cast` of a number, `encode` and
-- `decode`.
pub mod Codec
use bacpypes.Prelude.{
  ℕ, ◌^◌, Bool, true, false, Option, none, some, List, [], ◌∷◌, length, ltb, ◌==◌, if◌then◌else◌,
}
use bacpypes.Pdu.{
  Result, ok, err, Bytes, pack_be, unpack_be, invalid_tag, value_error, struct_error,
}
use bacpypes.Primitive.Tag.{Tag}
use bacpypes.Primitive.Atomic.{make_tag, decode_atomic}

-- `_low_limit` and `_high_limit` of a class.
pub record Limits : Type 0 where
  pub low_limit : Option ℕ
  pub high_limit : Option ℕ

abbrev pub below : Option ℕ → ℕ → Bool
below none n = false
below (some l) n = ltb n l

abbrev pub above : Option ℕ → ℕ → Bool
above none n = false
above (some h) n = ltb h n

-- `Unsigned.cast` and `Enumerated.cast` of an int that is not negative.
unfoldable pub cast : Limits → ℕ → Result ℕ
cast limits n =
    if below limits.low_limit n
    then err value_error
    else if above limits.high_limit n
    then err value_error
    else ok n

-- `struct.pack(">L", self)`
abbrev pub pack_long : ℕ → Result Bytes
pack_long n = if ltb n (2 ^ 32) then ok (pack_be 4 n) else err struct_error

-- `while (len(data) > 1) and (data[0] == 0): del data[0]`
unfoldable pub reduce : Bytes → Bytes
reduce [] = []
reduce (a ∷ []) = a ∷ []
reduce (a ∷ b ∷ r) = let rest = reduce (b ∷ r) in if a == 0 then rest else a ∷ b ∷ r

abbrev pub tag_reduced : ℕ → Option ℕ → Result Bytes → Result Tag
tag_reduced number expected (ok d) = ok (make_tag number expected (reduce d))
tag_reduced number expected (err e) = err e

-- The data of a tag, read as a number: one octet at least, the most significant first.
unfoldable pub read_number : Limits → Bytes → Result ℕ
unfolding cast
read_number limits d = if ltb (length d) 1 then err invalid_tag else cast limits (unpack_be d)

-- `TagNumber.unsigned` and `TagNumber.enumerated`
abbrev pub unsigned_number : ℕ
unsigned_number = 2

abbrev pub enumerated_number : ℕ
enumerated_number = 9

-- `Unsigned.encode` and `Unsigned.decode`
unfoldable pub encode_unsigned : Option ℕ → ℕ → Result Tag
unfolding reduce
encode_unsigned expected n = tag_reduced unsigned_number expected (pack_long n)

unfoldable pub decode_unsigned : Limits → Option ℕ → List Tag → Result (ℕ × List Tag)
unfolding read_number
decode_unsigned limits expected = decode_atomic unsigned_number expected (read_number limits)

-- `Enumerated.encode` and `Enumerated.decode`
unfoldable pub encode_enumerated : Option ℕ → ℕ → Result Tag
unfolding reduce
encode_enumerated expected n = tag_reduced enumerated_number expected (pack_long n)

unfoldable pub decode_enumerated : Limits → Option ℕ → List Tag → Result (ℕ × List Tag)
unfolding read_number
decode_enumerated limits expected = decode_atomic enumerated_number expected (read_number limits)
