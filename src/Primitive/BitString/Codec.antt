-- ===== src/Primitive/BitString/Codec.antt =====
-- bacpypes3/primitivedata.py, what is read back of a BitString.
use bacpypes.Prelude.{
  ℕ, zero, suc, ◌+◌, ◌-◌, ◌*◌, ◌/◌, ◌≡◌, refl, sym, All, ltb, append-nil, ◌∙◌, ap, Bool, true,
  false, ◌&&◌, Option, List, [], ◌∷◌, ◌++◌, length, take, length-append, take-append_exact,
  all_flags, all_flags_sound, same, same→eq, inl, inr, Bool-cases, arith,
}
use bacpypes.Pdu.{ok}
use bacpypes.Primitive.Tag.{Tag}
use bacpypes.Primitive.Atomic.{decode_atomic-make_tag}
use bacpypes.Primitive.BitString.{
  zeros, extend, unused_bits, octet_of, pack_bits, bit_string_number, encode_bit_string, bits_of,
  unpack_bits, read_bits, decode_bit_string,
}

abbrev same_bits : List Bool → List Bool → Bool
same_bits [] [] = true
same_bits [] (b ∷ ys) = false
same_bits (a ∷ xs) [] = false
same_bits (a ∷ xs) (b ∷ ys) = same a b && same_bits xs ys

same_bits→eq : (xs ys : List Bool) → same_bits xs ys ≡ true → xs ≡ ys
same_bits→eq [] [] h = refl
same_bits→eq [] (b ∷ ys) h = ground arith
same_bits→eq (a ∷ xs) [] h = ground arith
same_bits→eq (a ∷ xs) (b ∷ ys) h = elim (Bool-cases (same a b)) [
  | inl e ↦
      let rest : same_bits xs ys ≡ true = ground arith in
      rw (same→eq a b e) (ap (λ l. b ∷ l) (same_bits→eq xs ys rest))
  | inr e ↦ absurd (ground arith)
]

abbrev bits_of_octet_test : Bool → Bool → Bool → Bool → Bool → Bool → Bool → Bool → Bool
bits_of_octet_test a b c d e f g h =
    same_bits (bits_of (octet_of a b c d e f g h)) (a ∷ b ∷ c ∷ d ∷ e ∷ f ∷ g ∷ h ∷ [])

all_octets : all_flags (λ a b c d. all_flags (bits_of_octet_test a b c d)) ≡ true
unfolding bits_of
all_octets = refl

bits_of-octet_of :
    (a b c d e f g h : Bool)
    → bits_of (octet_of a b c d e f g h) ≡ a ∷ b ∷ c ∷ d ∷ e ∷ f ∷ g ∷ h ∷ []
bits_of-octet_of a b c d e f g h =
    same_bits→eq (bits_of (octet_of a b c d e f g h)) (a ∷ b ∷ c ∷ d ∷ e ∷ f ∷ g ∷ h ∷ []) (
      all_flags_sound (bits_of_octet_test a b c d) e f g h (
        all_flags_sound (λ a' b' c' d'. all_flags (bits_of_octet_test a' b' c' d')) a b c d
          all_octets))

unpack_bits-pack_bits :
    (n : ℕ) (bits : List Bool) → length bits ≡ 8 * n → unpack_bits (pack_bits bits) ≡ bits
unfolding unpack_bits pack_bits
unpack_bits-pack_bits zero [] l = refl
unpack_bits-pack_bits zero (a ∷ bits) l = absurd (omega arith)
unpack_bits-pack_bits (suc n) (a ∷ b ∷ c ∷ d ∷ e ∷ f ∷ g ∷ h ∷ bits) l =
    ap (λ octet. octet ++ unpack_bits (pack_bits bits)) (bits_of-octet_of a b c d e f g h)
    ∙ ap (λ r. a ∷ b ∷ c ∷ d ∷ e ∷ f ∷ g ∷ h ∷ r) (unpack_bits-pack_bits n bits (omega arith))
unpack_bits-pack_bits (suc n) _ l = absurd (omega arith)

length-zeros : (n : ℕ) → length (zeros n) ≡ n
unfolding zeros
length-zeros zero = refl
length-zeros (suc n) = ap suc (length-zeros n)

unused_bits_lem : (n : ℕ) → (n + unused_bits n) ≡ 8 * ((n + 7) / 8)
unused_bits_lem n = ground arith

unpack_bits-filled :
    (bits : List Bool)
    → unpack_bits (pack_bits (bits ++ zeros (unused_bits (length bits))))
      ≡ bits ++ zeros (unused_bits (length bits))
unpack_bits-filled bits =
    let unused = unused_bits (length bits) in
    unpack_bits-pack_bits ((length bits + 7) / 8) (bits ++ zeros unused) (
      length-append bits (zeros unused)
      ∙ ap (λ k. length bits + k) (length-zeros unused)
      ∙ unused_bits_lem (length bits))

trimmed : (bits : List Bool) (n : ℕ) → take (length (bits ++ zeros n) - n) (bits ++ zeros n) ≡ bits
trimmed bits n =
    let front : length (bits ++ zeros n) - n ≡ length bits =
      (let l = length-append bits (zeros n) in let z = length-zeros n in omega arith) in
    ap (λ k. take k (bits ++ zeros n)) front ∙ take-append_exact bits (zeros n)

zeros-false : (n : ℕ) → All (λ b. b ≡ false) (zeros n)
unfolding zeros
zeros-false zero = tt
zeros-false (suc n) = (refl, zeros-false n)

extend_lem :
    (bitstring_length : ℕ) (bits : List Bool)
    → extend bitstring_length bits ≡ bits ++ zeros (bitstring_length - length bits)
unfolding extend zeros
extend_lem bitstring_length bits = elim (Bool-cases (ltb (length bits) bitstring_length)) [
  | inl short ↦ rw short refl
  | inr long ↦
      (let none_missing : bitstring_length - length bits ≡ 0 = ground arith in
        let whole : bits ++ [] ≡ bits = append-nil bits in rw (long, none_missing) (sym whole))
]

-- A bit string of any length, application or context tagged, is decoded to itself, followed by zeros for
-- as many bits as it lacks of those that its class names, and the tags behind it are left.
pub decode_bit_string-encode_bit_string :
    (bitstring_length : ℕ) (expected : Option ℕ) (bits : List Bool) (tags : List Tag)
    → (missing : List Bool) × (All (λ b. b ≡ false) missing)
      × (length missing ≡ bitstring_length - length bits)
      × (decode_bit_string bitstring_length expected (encode_bit_string expected bits ∷ tags)
          ≡ ok (bits ++ missing, tags))
unfolding decode_bit_string encode_bit_string read_bits
decode_bit_string-encode_bit_string bitstring_length expected bits tags =
    let unused = unused_bits (length bits) in
    let lacks = bitstring_length - length bits in
    (
      zeros lacks,
      zeros-false lacks,
      length-zeros lacks,
      decode_atomic-make_tag bit_string_number expected (read_bits bitstring_length)
            (unused ∷ pack_bits (bits ++ zeros unused)) tags
          ∙ ap (λ l. ok (extend bitstring_length (take (length l - unused) l), tags))
              (unpack_bits-filled bits)
          ∙ ap (λ l. ok (extend bitstring_length l, tags)) (trimmed bits unused)
          ∙ ap (λ l. ok (l, tags)) (extend_lem bitstring_length bits),
    )
