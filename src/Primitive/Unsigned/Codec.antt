-- ===== src/Primitive/Unsigned/Codec.antt =====
-- bacpypes3/primitivedata.py, `encode` and `decode` of Unsigned and Enumerated: what is read back,
-- and how many octets are written.
use bacpypes.Prelude.{
  ℕ, ◌/◌, ◌%◌, ◌^◌, ◌≤◌, ◌<◌, ◌≡◌, refl, ◌∙◌, sym, ap, subst, true, false, Option, none, some, inl,
  inr, List, [], ◌∷◌, length, All, ltb, ◌==◌, Bool-cases, if◌then◌else◌, arith,
}
use bacpypes.Pdu.{Result, ok, err, Bytes, IsByte, pack_be, unpack_be}
use bacpypes.Primitive.Tag.{Tag}
use bacpypes.Primitive.Atomic.{make_tag, beside, decoded, decode_atomic-make_tag}
use bacpypes.Primitive.Unsigned.{
  Limits, below, above, cast, pack_long, reduce, tag_reduced, read_number, unsigned_number,
  enumerated_number, encode_unsigned, decode_unsigned, encode_enumerated, decode_enumerated,
}

pub unpack_be-reduce : (d : Bytes) → unpack_be (reduce d) ≡ unpack_be d
unfolding reduce
unpack_be-reduce [] = refl
unpack_be-reduce (a ∷ []) = refl
unpack_be-reduce (a ∷ b ∷ r) = elim (Bool-cases (a == 0)) [
  | inl z ↦
      let same_number : a ≡ 0 = ground arith in
      rw z (unpack_be-reduce (b ∷ r) ∙ rw same_number refl)
  | inr nz ↦ rw nz refl
]

pub unpack_be-pack_be : (n : ℕ) → n < 2 ^ 32 → unpack_be (pack_be 4 n) ≡ n
unpack_be-pack_be n h = omega arith

reduce_nonempty : (a : ℕ) (d : Bytes) → 1 ≤ length (reduce (a ∷ d))
unfolding reduce
reduce_nonempty a [] = omega arith
reduce_nonempty a (b ∷ r) =
    let k = reduce_nonempty b r in
    elim (Bool-cases (a == 0)) [ inl z ↦ rw z k | inr nz ↦ rw nz (omega arith) ]

-- What the limits of a class admit.
abbrev pub Admits : Limits → ℕ → Type 0
Admits limits n = (below limits.low_limit n ≡ false) × (above limits.high_limit n ≡ false)

read_number-reduce :
    (limits : Limits) (n : ℕ)
    → n < 2 ^ 32
    → Admits limits n
    → read_number limits (reduce (pack_be 4 n)) ≡ ok n
unfolding read_number cast
read_number-reduce limits n h (low, high) =
    let some_octet : ltb (length (reduce (pack_be 4 n))) 1 ≡ false =
      (let k =
          reduce_nonempty (n / 256 / 256 / 256 % 256)
            (n / 256 / 256 % 256 ∷ n / 256 % 256 ∷ n % 256 ∷ []) in
        ground arith) in
    let value = unpack_be-reduce (pack_be 4 n) ∙ unpack_be-pack_be n h in
    rw (some_octet, value, low, high) refl

pub pack_long_lem : (n : ℕ) → n < 2 ^ 32 → pack_long n ≡ ok (pack_be 4 n)
pack_long_lem n h = let fits : ltb n (2 ^ 32) ≡ true = ground arith in rw fits refl

-- The tag that is written for a number.
pub encode_unsigned_lem :
    (expected : Option ℕ) (n : ℕ)
    → n < 2 ^ 32
    → encode_unsigned expected n ≡ ok (make_tag unsigned_number expected (reduce (pack_be 4 n)))
unfolding encode_unsigned
encode_unsigned_lem expected n h = ap (tag_reduced unsigned_number expected) (pack_long_lem n h)

pub encode_enumerated_lem :
    (expected : Option ℕ) (n : ℕ)
    → n < 2 ^ 32
    → encode_enumerated expected n ≡ ok (make_tag enumerated_number expected (reduce (pack_be 4 n)))
unfolding encode_enumerated
encode_enumerated_lem expected n h = ap (tag_reduced enumerated_number expected) (pack_long_lem n h)

-- An unsigned number of 32 bits within the limits of its class, application or context tagged, is
-- decoded to itself, and the tags behind it are left.
pub decode_unsigned-encode_unsigned :
    (limits : Limits) (expected : Option ℕ) (n : ℕ) (tags : List Tag)
    → n < 2 ^ 32
    → Admits limits n
    → decoded (decode_unsigned limits expected) tags (encode_unsigned expected n) ≡ ok (n, tags)
unfolding decode_unsigned
decode_unsigned-encode_unsigned limits expected n tags h a =
    ap (decoded (decode_unsigned limits expected) tags) (encode_unsigned_lem expected n h)
    ∙ decode_atomic-make_tag unsigned_number expected (read_number limits) (reduce (pack_be 4 n))
        tags
    ∙ ap (λ r. beside r tags) (read_number-reduce limits n h a)

-- An enumerated value of 32 bits within the limits of its class, application or context tagged, is
-- decoded to itself, and the tags behind it are left.
pub decode_enumerated-encode_enumerated :
    (limits : Limits) (expected : Option ℕ) (n : ℕ) (tags : List Tag)
    → n < 2 ^ 32
    → Admits limits n
    → decoded (decode_enumerated limits expected) tags (encode_enumerated expected n) ≡ ok (n, tags)
unfolding decode_enumerated
decode_enumerated-encode_enumerated limits expected n tags h a =
    ap (decoded (decode_enumerated limits expected) tags) (encode_enumerated_lem expected n h)
    ∙ decode_atomic-make_tag enumerated_number expected (read_number limits) (reduce (pack_be 4 n))
        tags
    ∙ ap (λ r. beside r tags) (read_number-reduce limits n h a)

-- How many octets a number of 32 bits needs.
abbrev pub octets : ℕ → ℕ
octets n = if ltb n 256 then 1 else if ltb n 65536 then 2 else if ltb n 16777216 then 3 else 4

octets_at_most : (n : ℕ) → octets n ≤ 4
octets_at_most n = ground arith

octets-reduce :
    (a b c d : ℕ)
    → IsByte a
    → IsByte b
    → IsByte c
    → IsByte d
    → length (reduce (a ∷ b ∷ c ∷ d ∷ [])) ≡ octets (unpack_be (a ∷ b ∷ c ∷ d ∷ []))
unfolding reduce
octets-reduce a b c d ha hb hc hd = ground arith

octets-unpack_be : (d : Bytes) → All IsByte d → 1 ≤ length d → octets (unpack_be d) ≤ length d
octets-unpack_be [] h l = absurd (omega arith)
octets-unpack_be (a ∷ []) h l = let ha = h.0 in ground arith
octets-unpack_be (a ∷ b ∷ []) h l = let ha = h.0 in let hb = h.1.0 in ground arith
octets-unpack_be (a ∷ b ∷ c ∷ []) h l =
    let ha = h.0 in let hb = h.1.0 in let hc = h.1.1.0 in ground arith
octets-unpack_be (a ∷ b ∷ c ∷ d ∷ r) h l =
    let k = octets_at_most (unpack_be (a ∷ b ∷ c ∷ d ∷ r)) in omega arith

-- The length of the data of a tag that was encoded.
abbrev pub AtMost : ℕ → Result Tag → Type 0
AtMost k (ok tag) = length tag.tag_data ≤ k
AtMost k (err e) = ⊥

AtMost-make_tag :
    (number : ℕ) (expected : Option ℕ) (d : Bytes) (k : ℕ)
    → length d ≤ k
    → AtMost k (ok (make_tag number expected d))
AtMost-make_tag number none d k h = h
AtMost-make_tag number (some c) d k h = h

reduce_shortest :
    (n : ℕ) (d : Bytes)
    → n < 2 ^ 32
    → All IsByte d
    → 1 ≤ length d
    → unpack_be d ≡ n
    → length (reduce (pack_be 4 n)) ≤ length d
reduce_shortest n d h bytes some_octet value =
    let wide =
      octets-reduce (n / 256 / 256 / 256 % 256) (n / 256 / 256 % 256) (n / 256 % 256) (n % 256)
        (omega arith) (omega arith) (omega arith) (omega arith) in
    let written : length (reduce (pack_be 4 n)) ≡ octets n =
      wide ∙ ap octets (unpack_be-pack_be n h) in
    let least = octets-unpack_be d bytes some_octet in
    rw written (subst (λ m. octets m ≤ length d) value least)

-- An unsigned number of 32 bits is written in no more octets than any octets that are read as that
-- number.
pub encode_unsigned_shortest :
    (expected : Option ℕ) (n : ℕ) (d : Bytes)
    → n < 2 ^ 32
    → All IsByte d
    → 1 ≤ length d
    → unpack_be d ≡ n
    → AtMost (length d) (encode_unsigned expected n)
encode_unsigned_shortest expected n d h bytes some_octet value =
    subst (AtMost (length d)) (sym (encode_unsigned_lem expected n h)) (
      AtMost-make_tag unsigned_number expected (reduce (pack_be 4 n)) (length d)
        (reduce_shortest n d h bytes some_octet value))
