-- ===== src/Primitive/Integer/Codec.antt =====
-- bacpypes3/primitivedata.py, `encode` and `decode` of Integer.
use bacpypes.Prelude.{
  ℕ, ◌+◌, ◌-◌, ◌*◌, ◌/◌, ◌%◌, ◌^◌, ◌<◌, ◌≡◌, refl, ◌∙◌, sym, ap, true, false, Option, inl, inr,
  List, [], ◌∷◌, ltb, ◌==◌, Bool-cases, if◌then◌else◌, arith,
}
use bacpypes.Pdu.{Bytes, pack_be}
use bacpypes.Primitive.Tag.{Tag}
use bacpypes.Primitive.Atomic.{beside, decode_atomic-make_tag}
use bacpypes.Primitive.Integer.{
  ℤ, pos, negsuc, IntegerLimits, cast_integer, mask_long, reduce_negative, reduce_positive,
  reduce_integer, integer_number, encode_integer, shift_octet, shift_octets, first_octet,
  read_integer, decode_integer,
}

-- The number that octets stand for in two's complement.
unfoldable signed_be : Bytes → ℤ
unfolding first_octet shift_octets shift_octet
signed_be [] = pos 0
signed_be (a ∷ r) = shift_octets (first_octet a) r

-- The residue of a number in two's complement of 32 bits.
unfoldable pub signed_long : ℕ → ℤ
signed_long n = if ltb n (2 ^ 31) then pos n else negsuc (2 ^ 32 - 1 - n)

unfoldable pub wrap : ℤ → ℤ
unfolding mask_long signed_long
wrap i = signed_long (mask_long i)

signed_zero : (b : ℕ) (r : Bytes) → ltb b 128 ≡ true → signed_be (0 ∷ b ∷ r) ≡ signed_be (b ∷ r)
unfolding signed_be first_octet shift_octets shift_octet
signed_zero b r h = rw h (ap (λ n. shift_octets (pos n) r) {x = 0 * 256 + b} {y = b} (omega arith))

signed_ones : (b : ℕ) (r : Bytes) → ltb b 128 ≡ false → signed_be (255 ∷ b ∷ r) ≡ signed_be (b ∷ r)
unfolding signed_be first_octet shift_octets shift_octet
signed_ones b r h =
    rw h (ap (λ n. shift_octets (negsuc n) r) {x = 0 * 256 + (255 - b)} {y = 255 - b} (omega arith))

signed-reduce_positive : (d : Bytes) → signed_be (reduce_positive d) ≡ signed_be d
unfolding reduce_positive
signed-reduce_positive [] = refl
signed-reduce_positive (a ∷ []) = refl
signed-reduce_positive (a ∷ b ∷ r) = elim (Bool-cases (a == 0)) [
  | inl z ↦ elim (Bool-cases (ltb b 128)) [
    | inl low ↦
        let same_number : a ≡ 0 = ground arith in
        rw (z, low)
          (signed-reduce_positive (b ∷ r)
            ∙ sym (ap (λ k. signed_be (k ∷ b ∷ r)) same_number ∙ signed_zero b r low))
    | inr high ↦ rw (z, high) refl
  ]
  | inr nz ↦ rw nz refl
]

signed-reduce_negative : (d : Bytes) → signed_be (reduce_negative d) ≡ signed_be d
unfolding reduce_negative
signed-reduce_negative [] = refl
signed-reduce_negative (a ∷ []) = refl
signed-reduce_negative (a ∷ b ∷ r) = elim (Bool-cases (a == 255)) [
  | inl z ↦ elim (Bool-cases (ltb b 128)) [
    | inl low ↦ rw (z, low) refl
    | inr high ↦
        let same_number : a ≡ 255 = ground arith in
        rw (z, high)
          (signed-reduce_negative (b ∷ r)
            ∙ sym (ap (λ k. signed_be (k ∷ b ∷ r)) same_number ∙ signed_ones b r high))
  ]
  | inr nz ↦ rw nz refl
]

signed-pack_be : (n : ℕ) → n < 2 ^ 32 → signed_be (pack_be 4 n) ≡ signed_long n
unfolding signed_be first_octet shift_octets shift_octet signed_long
signed-pack_be n h = elim (Bool-cases (ltb (n / 256 / 256 / 256 % 256) 128)) [
  | inl low ↦
      let small : ltb n (2 ^ 31) ≡ true = ground arith in rw (low, small) (ap pos (omega arith))
  | inr high ↦
      let large : ltb n (2 ^ 31) ≡ false = ground arith in
      rw (high, large) (ap negsuc (omega arith))
]

mask_long_fits : (i : ℤ) → mask_long i < 2 ^ 32
unfolding mask_long
mask_long_fits (pos n) = omega arith
mask_long_fits (negsuc n) = omega arith

signed-reduce_integer : (i : ℤ) → signed_be (reduce_integer i) ≡ wrap i
unfolding reduce_integer wrap
signed-reduce_integer (pos n) =
    signed-reduce_positive (pack_be 4 (mask_long (pos n)))
    ∙ signed-pack_be (mask_long (pos n)) (mask_long_fits (pos n))
signed-reduce_integer (negsuc n) =
    signed-reduce_negative (pack_be 4 (mask_long (negsuc n)))
    ∙ signed-pack_be (mask_long (negsuc n)) (mask_long_fits (negsuc n))

reduce_positive_nonempty :
    (a : ℕ) (d : Bytes) → (b : ℕ) × (r : Bytes) × (reduce_positive (a ∷ d) ≡ b ∷ r)
unfolding reduce_positive
reduce_positive_nonempty a [] = (a, [], refl)
reduce_positive_nonempty a (b ∷ r) =
    let k = reduce_positive_nonempty b r in
    elim (Bool-cases (a == 0)) [
      | inl z ↦ elim (Bool-cases (ltb b 128)) [
        | inl low ↦ rw (z, low) k
        | inr high ↦ rw (z, high) (a, b ∷ r, refl)
      ]
      | inr nz ↦ rw nz (a, b ∷ r, refl)
    ]

reduce_negative_nonempty :
    (a : ℕ) (d : Bytes) → (b : ℕ) × (r : Bytes) × (reduce_negative (a ∷ d) ≡ b ∷ r)
unfolding reduce_negative
reduce_negative_nonempty a [] = (a, [], refl)
reduce_negative_nonempty a (b ∷ r) =
    let k = reduce_negative_nonempty b r in
    elim (Bool-cases (a == 255)) [
      | inl z ↦ elim (Bool-cases (ltb b 128)) [
        | inl low ↦ rw (z, low) (a, b ∷ r, refl)
        | inr high ↦ rw (z, high) k
      ]
      | inr nz ↦ rw nz (a, b ∷ r, refl)
    ]

reduce_integer_nonempty : (i : ℤ) → (b : ℕ) × (r : Bytes) × (reduce_integer i ≡ b ∷ r)
unfolding reduce_integer
reduce_integer_nonempty (pos n) =
    reduce_positive_nonempty (mask_long (pos n) / 256 / 256 / 256 % 256) (
      mask_long (pos n) / 256 / 256 % 256
      ∷ mask_long (pos n) / 256 % 256
      ∷ mask_long (pos n) % 256
      ∷ [])
reduce_integer_nonempty (negsuc n) =
    reduce_negative_nonempty (mask_long (negsuc n) / 256 / 256 / 256 % 256) (
      mask_long (negsuc n) / 256 / 256 % 256
      ∷ mask_long (negsuc n) / 256 % 256
      ∷ mask_long (negsuc n) % 256
      ∷ [])

read_integer_signed :
    (limits : IntegerLimits) (d : Bytes) (b : ℕ) (r : Bytes)
    → d ≡ b ∷ r
    → read_integer limits d ≡ cast_integer limits (signed_be d)
unfolding read_integer signed_be
read_integer_signed limits d b r e = rw e refl

-- The numbers of 32 bits in two's complement.
abbrev pub IsLong : ℤ → Type 0
IsLong (pos n) = n < 2 ^ 31
IsLong (negsuc n) = n < 2 ^ 31

-- Two integers whose difference is a multiple of 2 ^ 32, where `negsuc n` is -1 - n.
abbrev pub Congruent : ℤ → ℤ → Type 0
Congruent (pos a) (pos b) = a % 2 ^ 32 ≡ b % 2 ^ 32
Congruent (negsuc a) (negsuc b) = a % 2 ^ 32 ≡ b % 2 ^ 32
Congruent (pos a) (negsuc b) = (a + b + 1) % 2 ^ 32 ≡ 0
Congruent (negsuc a) (pos b) = (a + b + 1) % 2 ^ 32 ≡ 0

abbrev pub IsResidue : ℤ → ℤ → Type 0
IsResidue i v = (IsLong v) × (Congruent i v)

wrap-IsResidue : (i : ℤ) → IsResidue i (wrap i)
unfolding wrap mask_long signed_long
wrap-IsResidue (pos n) = elim (Bool-cases (ltb (n % 2 ^ 32) (2 ^ 31))) [
  | inl e ↦ rw e (ground arith, omega arith)
  | inr e ↦ rw e (ground arith, omega arith)
]
wrap-IsResidue (negsuc n) = elim (Bool-cases (ltb (2 ^ 32 - 1 - n % 2 ^ 32) (2 ^ 31))) [
  | inl e ↦ rw e (ground arith, omega arith)
  | inr e ↦ rw e (ground arith, omega arith)
]

-- An integer of any size, application or context tagged, is decoded to the integer of 32 bits in two's
-- complement that differs from it by a multiple of 2 ^ 32, checked against the limits of the class,
-- and the tags behind it are left.
pub decode_integer-encode_integer :
    (limits : IntegerLimits) (expected : Option ℕ) (i : ℤ) (tags : List Tag)
    → (v : ℤ) × (IsResidue i v)
      × (decode_integer limits expected (encode_integer expected i ∷ tags)
          ≡ beside (cast_integer limits v) tags)
unfolding decode_integer encode_integer
decode_integer-encode_integer limits expected i tags =
    let found = reduce_integer_nonempty i in
    (
      wrap i,
      wrap-IsResidue i,
      decode_atomic-make_tag integer_number expected (read_integer limits) (reduce_integer i) tags
          ∙ ap (λ r. beside r tags)
              (read_integer_signed limits (reduce_integer i) found.0 found.1 found.2
                ∙ ap (cast_integer limits) (signed-reduce_integer i)),
    )
