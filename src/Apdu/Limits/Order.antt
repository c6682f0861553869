-- ===== src/Apdu/Limits/Order.antt =====
-- bacpypes3/apdu.py: the encoded limits against the limits that they stand for.
use bacpypes.Prelude.{
  ℕ, zero, suc, ◌+◌, ◌*◌, ◌≤◌, ◌<◌, ◌≡◌, ◌⊎◌, refl, false, none, some, arith, inl, inr, ltb,
  Bool-cases, leb, leb→le, ◌==◌,
}
use bacpypes.Pdu.{Result, ok, err, value_error}
use bacpypes.Apdu.Limits.{
  encode_max_segments_accepted, decode_max_segments_accepted, encode_max_apdu_length_accepted,
  decode_max_apdu_length_accepted, found_or, find_segments, find_length,
}

-- The largest power of two from 2 to 64 that is not above `arg`.
abbrev pub RoundsSegments : ℕ → Result ℕ → Type 0
RoundsSegments arg (ok code) =
    (v : ℕ) × (decode_max_segments_accepted code ≡ ok (some v))
    × (v ≤ arg)
    × ((arg < 2 * v) ⊎ (v ≡ 64))
RoundsSegments arg (err e) = ⊥

segments_step :
    (i v arg : ℕ) (next : Result ℕ)
    → decode_max_segments_accepted i ≡ ok (some v)
    → (arg < 2 * v) ⊎ (v ≡ 64)
    → (arg < v → RoundsSegments arg next)
    → RoundsSegments arg (found_or (ok (leb v arg)) i next)
segments_step i v arg next e top below = elim (Bool-cases (leb v arg)) [
  | inl yes_ ↦ rw yes_ (v, e, leb→le v arg yes_, top)
  | inr no_ ↦ rw no_ (below (ground arith))
]

find_segments-Rounds : (arg : ℕ) → 2 ≤ arg → RoundsSegments arg (find_segments 6 arg)
unfolding find_segments decode_max_segments_accepted
find_segments-Rounds arg lo = segments_step 6 64 arg _ refl (inr refl) λ h6.
    segments_step 5 32 arg _ refl (inl h6) λ h5. segments_step 4 16 arg _ refl (inl h5) λ h4.
      segments_step 3 8 arg _ refl (inl h4) λ h3.
        segments_step 2 4 arg _ refl (inl h3)
          λ h2. segments_step 1 2 arg _ refl (inl h2) λ h1. absurd (omega arith)

-- What a code says of a number of segments: nothing, for 0 and for more than 64, or the largest
-- power of two that is not above it. Only 1 has no code.
abbrev pub IsCode : ℕ → Result ℕ → Type 0
IsCode arg (ok code) =
    ((decode_max_segments_accepted code ≡ ok none) × ((arg ≡ 0) ⊎ (64 < arg)))
    ⊎ ((v : ℕ) × (decode_max_segments_accepted code ≡ ok (some v)) × (v ≤ arg) × (arg < 2 * v))
IsCode arg (err e) = (e ≡ value_error) × (arg ≡ 1)

Rounds-IsCode : (arg : ℕ) (r : Result ℕ) → arg ≤ 64 → RoundsSegments arg r → IsCode arg r
Rounds-IsCode arg (ok code) hi (v, e, below, top) = inr (v, e, below, omega arith)
Rounds-IsCode arg (err e) hi h = absurd h

-- Every number of segments but 1 is told as a code that is read as the largest power of two that is
-- not above it, or, for 0 and for more than 64, as no number; 1 is a ValueError.
pub encode_max_segments_accepted_lem :
    (arg : ℕ) → IsCode arg (encode_max_segments_accepted (some arg))
unfolding encode_max_segments_accepted decode_max_segments_accepted
encode_max_segments_accepted_lem zero = inl (refl, inl refl)
encode_max_segments_accepted_lem (suc zero) = (refl, refl)
encode_max_segments_accepted_lem (suc (suc n)) =
    let set : suc (suc n) == 0 ≡ false = ground arith in
    elim (Bool-cases (ltb 64 (suc (suc n)))) [
      | inl many ↦ rw (set, many) (inl (refl, inr (ground arith)))
      | inr few ↦
          rw (set, few)
            (Rounds-IsCode (suc (suc n)) _ (ground arith)
              (find_segments-Rounds (suc (suc n)) (omega arith)))
    ]

-- The largest length of the table that is not above `arg`: the last of the table, or the next one
-- is above.
abbrev pub RoundsLength : ℕ → Result ℕ → Type 0
RoundsLength arg (ok code) =
    (v : ℕ) × (decode_max_apdu_length_accepted code ≡ ok v)
    × (v ≤ arg)
    × ((code ≡ 5) ⊎ ((u : ℕ) × (decode_max_apdu_length_accepted (code + 1) ≡ ok u) × (arg < u)))
RoundsLength arg (err e) = (e ≡ value_error) × (arg < 50)

length_step :
    (i v arg : ℕ) (next : Result ℕ)
    → decode_max_apdu_length_accepted i ≡ ok v
    → (i ≡ 5) ⊎ ((u : ℕ) × (decode_max_apdu_length_accepted (i + 1) ≡ ok u) × (arg < u))
    → (arg < v → RoundsLength arg next)
    → RoundsLength arg (found_or (ok (leb v arg)) i next)
length_step i v arg next e top below = elim (Bool-cases (leb v arg)) [
  | inl at_most ↦ rw at_most (v, e, leb→le v arg at_most, top)
  | inr above ↦ rw above (below (ground arith))
]

find_length-Rounds : (arg : ℕ) → RoundsLength arg (find_length 5 arg)
unfolding find_length decode_max_apdu_length_accepted
find_length-Rounds arg = length_step 5 1476 arg _ refl (inl refl) λ h5.
    length_step 4 1024 arg _ refl (inr (1476, refl, h5)) λ h4.
      length_step 3 480 arg _ refl (inr (1024, refl, h4)) λ h3.
        length_step 2 206 arg _ refl (inr (480, refl, h3)) λ h2.
          length_step 1 128 arg _ refl (inr (206, refl, h2))
            λ h1. length_step 0 50 arg _ refl (inr (128, refl, h1)) λ h0. (refl, h0)

-- Every APDU length from 50 is told as the largest length of the table that is not above it, and
-- a smaller one is a ValueError.
pub encode_max_apdu_length_accepted_lem :
    (arg : ℕ) → RoundsLength arg (encode_max_apdu_length_accepted arg)
unfolding encode_max_apdu_length_accepted
encode_max_apdu_length_accepted_lem arg = find_length-Rounds arg
