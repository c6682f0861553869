-- ===== src/Primitive/Integer.antt =====
-- bacpypes3/primitivedata.py, class Integer: `cast` of an int, `encode` and `decode`.
pub mod Codec
use bacpypes.Prelude.{
  ℕ, zero, suc, ◌+◌, ◌-◌, ◌*◌, ◌%◌, ◌^◌, Bool, true, false, not, ◌||◌, Option, none, some, List, [],
  ◌∷◌, length, ltb, ◌==◌, if◌then◌else◌,
}
use bacpypes.Pdu.{Result, ok, err, Bytes, pack_be, invalid_tag, value_error, struct_error}
use bacpypes.Primitive.Tag.{Tag}
use bacpypes.Primitive.Atomic.{make_tag, decode_atomic}

-- Python's int, over the native numbers: `negsuc n` is -1 - n.
pub data ℤ : Type 0 where
  pos negsuc : ℕ → ℤ

-- `i < j`
unfoldable pub ltz : ℤ → ℤ → Bool
ltz (pos a) (pos b) = ltb a b
ltz (pos a) (negsuc b) = false
ltz (negsuc a) (pos b) = true
ltz (negsuc a) (negsuc b) = ltb b a

pub record IntegerLimits : Type 0 where
  pub low_limit : Option ℤ
  pub high_limit : Option ℤ

abbrev pub below : Option ℤ → ℤ → Bool
below none i = false
below (some l) i = ltz i l

abbrev pub above : Option ℤ → ℤ → Bool
above none i = false
above (some h) i = ltz h i

-- `Integer.cast` of an int
unfoldable pub cast_integer : IntegerLimits → ℤ → Result ℤ
unfolding ltz
cast_integer limits i =
    if below limits.low_limit i
    then err value_error
    else if above limits.high_limit i
    then err value_error
    else ok i

-- `self & 0xFFFFFFFF`
unfoldable pub mask_long : ℤ → ℕ
mask_long (pos n) = n % 2 ^ 32
mask_long (negsuc n) = 2 ^ 32 - 1 - n % 2 ^ 32

-- The loop of `encode` for a number that is negative, and for one that is not.
unfoldable pub reduce_negative : Bytes → Bytes
reduce_negative [] = []
reduce_negative (a ∷ []) = a ∷ []
reduce_negative (a ∷ b ∷ r) =
    let rest = reduce_negative (b ∷ r) in
    if not (a == 255) then a ∷ b ∷ r else if ltb b 128 then a ∷ b ∷ r else rest

unfoldable pub reduce_positive : Bytes → Bytes
reduce_positive [] = []
reduce_positive (a ∷ []) = a ∷ []
reduce_positive (a ∷ b ∷ r) =
    let rest = reduce_positive (b ∷ r) in
    if not (a == 0) then a ∷ b ∷ r else if ltb b 128 then rest else a ∷ b ∷ r

unfoldable pub reduce_integer : ℤ → Bytes
unfolding mask_long reduce_negative reduce_positive
reduce_integer (pos n) = reduce_positive (pack_be 4 (mask_long (pos n)))
reduce_integer (negsuc n) = reduce_negative (pack_be 4 (mask_long (negsuc n)))

-- `TagNumber.integer`
abbrev pub integer_number : ℕ
integer_number = 3

-- `Integer.encode`
unfoldable pub encode_integer : Option ℕ → ℤ → Tag
unfolding reduce_integer
encode_integer expected i = make_tag integer_number expected (reduce_integer i)

-- `(value << 8) | c` for an octet
unfoldable pub shift_octet : ℤ → ℕ → ℤ
shift_octet (pos n) c = pos (n * 256 + c)
shift_octet (negsuc n) c = negsuc (n * 256 + (255 - c))

unfoldable pub shift_octets : ℤ → Bytes → ℤ
unfolding shift_octet
shift_octets value [] = value
shift_octets value (c ∷ r) = shift_octets (shift_octet value c) r

-- The first octet: `(-1 << 8) | value` if its high bit is set.
unfoldable pub first_octet : ℕ → ℤ
first_octet a = if ltb a 128 then pos a else negsuc (255 - a)

unfoldable pub read_integer : IntegerLimits → Bytes → Result ℤ
unfolding first_octet shift_octets cast_integer
read_integer limits [] = err invalid_tag
read_integer limits (a ∷ r) = cast_integer limits (shift_octets (first_octet a) r)

-- `Integer.decode`
unfoldable pub decode_integer : IntegerLimits → Option ℕ → List Tag → Result (ℤ × List Tag)
unfolding read_integer
decode_integer limits expected = decode_atomic integer_number expected (read_integer limits)
