-- ===== src/Primitive/BitString.antt =====
-- bacpypes3/primitivedata.py, class BitString: `cast` of a list of bits, `encode` and `decode`.
pub mod Codec
use bacpypes.Prelude.{
  ℕ, zero, suc, ◌+◌, ◌-◌, ◌*◌, ◌%◌, ◌^◌, Bool, true, false, Option, none, some, List, [], ◌∷◌, ◌++◌,
  length, take, ltb, ◌==◌, if◌then◌else◌, has_bits,
}
use bacpypes.Pdu.{Result, ok, err, Bytes, invalid_tag, index_error}
use bacpypes.Primitive.Tag.{Tag}
use bacpypes.Primitive.Atomic.{make_tag, decode_atomic}

-- `[0] * n`
unfoldable pub zeros : ℕ → List Bool
zeros zero = []
zeros (suc n) = false ∷ zeros n

-- `BitString.cast` of a list of 0's and 1's, which has the named bits of the class at least.
unfoldable pub extend : ℕ → List Bool → List Bool
unfolding zeros
extend bitstring_length bits =
    if ltb (length bits) bitstring_length
    then bits ++ zeros (bitstring_length - length bits)
    else bits

-- `used and (8 - used) or 0`
abbrev pub unused_bits : ℕ → ℕ
unused_bits n = if n % 8 == 0 then 0 else 8 - n % 8

abbrev pub bit_at : Bool → ℕ → ℕ
bit_at b j = if b then 2 ^ j else 0

-- One round of the loop of `encode`: `x |= bits[i + j] << (7 - j)` for each j.
abbrev pub octet_of : Bool → Bool → Bool → Bool → Bool → Bool → Bool → Bool → ℕ
octet_of a b c d e f g h =
    bit_at a 7
    + bit_at b 6
    + bit_at c 5
    + bit_at d 4
    + bit_at e 3
    + bit_at f 2
    + bit_at g 1
    + bit_at h 0

-- The rounds, for a list that has been filled to a multiple of eight bits.
unfoldable pub pack_bits : List Bool → Bytes
pack_bits (a ∷ b ∷ c ∷ d ∷ e ∷ f ∷ g ∷ h ∷ bits) = octet_of a b c d e f g h ∷ pack_bits bits
pack_bits _ = []

-- `TagNumber.bitString`
abbrev pub bit_string_number : ℕ
bit_string_number = 8

-- `BitString.encode`
unfoldable pub encode_bit_string : Option ℕ → List Bool → Tag
unfolding pack_bits zeros
encode_bit_string expected bits =
    let unused = unused_bits (length bits) in
    make_tag bit_string_number expected (unused ∷ pack_bits (bits ++ zeros unused))

-- `(x & (1 << (7 - i))) != 0` for each i
unfoldable pub bits_of : ℕ → List Bool
bits_of x =
    has_bits x 128
    ∷ has_bits x 64
    ∷ has_bits x 32
    ∷ has_bits x 16
    ∷ has_bits x 8
    ∷ has_bits x 4
    ∷ has_bits x 2
    ∷ has_bits x 1
    ∷ []

unfoldable pub unpack_bits : Bytes → List Bool
unfolding bits_of
unpack_bits [] = []
unpack_bits (x ∷ d) = bits_of x ++ unpack_bits d

-- `data[:-unused]` if there are unused bits. The first octet is read before any check of the length.
unfoldable pub read_bits : ℕ → Bytes → Result (List Bool)
unfolding unpack_bits extend
read_bits bitstring_length [] = err index_error
read_bits bitstring_length (unused ∷ d) =
    let bits = unpack_bits d in ok (extend bitstring_length (take (length bits - unused) bits))

-- `BitString.decode`, with the `_bitstring_length` of the class
unfoldable pub decode_bit_string : ℕ → Option ℕ → List Tag → Result (List Bool × List Tag)
unfolding read_bits
decode_bit_string bitstring_length expected =
    decode_atomic bit_string_number expected (read_bits bitstring_length)
