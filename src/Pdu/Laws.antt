-- ===== src/Pdu/Laws.antt =====
-- What the operations of PDUData promise each other: what is put at the end comes out in front.
use bacpypes.Prelude.{
  ℕ, ◌+◌, ◌*◌, ◌%◌, ◌^◌, ◌<◌, ◌≡◌, ap, ◌∙◌, [], ◌∷◌, ◌++◌, length, length-append, take-append_exact,
  drop-append_exact, arith,
}
use bacpypes.Pdu.Defs.{ok, Bytes, get_data, get_short, get_long, pack_be, put}

pub get_data-append : (d rest : Bytes) → get_data (length d) (d ++ rest) ≡ ok (d, rest)
unfolding get_data
get_data-append d rest =
    ground (arith, length-append d rest, take-append_exact d rest, drop-append_exact d rest)

pub get_short_octets : (a b : ℕ) (rest : Bytes) → get_short (a ∷ b ∷ rest) ≡ ok (a * 256 + b, rest)
unfolding get_short
get_short_octets a b rest =
    rw (get_data-append (a ∷ b ∷ []) rest, get_short) (ap (λ (n : ℕ). ok (n, rest)) (omega arith))

pub get_long_octets :
    (a b c d : ℕ) (rest : Bytes)
    → get_long (a ∷ b ∷ c ∷ d ∷ rest) ≡ ok (((a * 256 + b) * 256 + c) * 256 + d, rest)
unfolding get_long
get_long_octets a b c d rest =
    rw (get_data-append (a ∷ b ∷ c ∷ d ∷ []) rest, get_long)
      (ap (λ (n : ℕ). ok (n, rest)) (omega arith))

pub get_short_lem :
    (n : ℕ) (rest : Bytes) → n < 2 ^ 16 → get_short (pack_be 2 n ++ rest) ≡ ok (n, rest)
get_short_lem n rest h = get_short_octets _ _ rest ∙ ap (λ (m : ℕ). ok (m, rest)) (omega arith)

pub get_long_lem :
    (n : ℕ) (rest : Bytes) → n < 2 ^ 32 → get_long (pack_be 4 n ++ rest) ≡ ok (n, rest)
get_long_lem n rest h = get_long_octets _ _ _ _ rest ∙ ap (λ (m : ℕ). ok (m, rest)) (omega arith)

pub put_lem : (n : ℕ) (b : Bytes) → n < 256 → put n b ≡ ok (tt, b ++ (n ∷ []))
unfolding put
put_lem n b h = ground arith

pub get_short_masked :
    (n : ℕ) (rest : Bytes) → n < 2 ^ 16 → get_short (pack_be 2 (n % 2 ^ 16) ++ rest) ≡ ok (n, rest)
get_short_masked n rest h = get_short_octets _ _ rest ∙ ap (λ (m : ℕ). ok (m, rest)) (omega arith)
