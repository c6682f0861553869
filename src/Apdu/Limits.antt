-- ===== src/Apdu/Limits.antt =====
-- bacpypes3/apdu.py: the encodings of the number of segments and of the APDU length that a device
-- accepts.
pub mod Order
use bacpypes.Prelude.{
  ℕ, zero, suc, Option, none, some, List, [], ◌∷◌, Bool, true, false, leb, ltb, get_elem?, ◌==◌,
  if◌then◌else◌,
}
use bacpypes.Pdu.{Result, ok, err, value_error, type_error, index_error}

-- `_max_segments_accepted_encoding`
abbrev pub max_segments_accepted_encoding : List (Option ℕ)
max_segments_accepted_encoding =
    none ∷ some 2 ∷ some 4 ∷ some 8 ∷ some 16 ∷ some 32 ∷ some 64 ∷ none ∷ []

-- `_max_apdu_length_encoding`
abbrev pub max_apdu_length_encoding : List (Option ℕ)
max_apdu_length_encoding =
    some 50
    ∷ some 128
    ∷ some 206
    ∷ some 480
    ∷ some 1024
    ∷ some 1476
    ∷ none
    ∷ none
    ∷ none
    ∷ none
    ∷ none
    ∷ none
    ∷ none
    ∷ none
    ∷ none
    ∷ none
    ∷ []

-- `table[i] <= arg`, where a comparison with None is a TypeError.
abbrev pub entry_le : Option (Option ℕ) → ℕ → Result Bool
entry_le none arg = err index_error
entry_le (some none) arg = err type_error
entry_le (some (some v)) arg = ok (leb v arg)

abbrev pub found_or : Result Bool → ℕ → Result ℕ → Result ℕ
found_or (ok true) i next = ok i
found_or (ok false) i next = next
found_or (err e) i next = err e

-- `for i in range(n, -1, -1)` of the loop over the table of lengths.
unfoldable pub find_length : ℕ → ℕ → Result ℕ
find_length zero arg =
    found_or (entry_le (get_elem? max_apdu_length_encoding 0) arg) 0 (err value_error)
find_length (suc i) arg =
    found_or (entry_le (get_elem? max_apdu_length_encoding (suc i)) arg) (suc i) (find_length i arg)

-- `for i in range(n, 0, -1)` of the loop over the table of segments.
unfoldable pub find_segments : ℕ → ℕ → Result ℕ
find_segments zero arg = err value_error
find_segments (suc i) arg =
    found_or (entry_le (get_elem? max_segments_accepted_encoding (suc i)) arg) (suc i)
      (find_segments i arg)

unfoldable pub encode_max_segments_accepted : Option ℕ → Result ℕ
unfolding find_segments
encode_max_segments_accepted none = ok 0
encode_max_segments_accepted (some arg) =
    if arg == 0 then ok 0 else if ltb 64 arg then ok 7 else find_segments 6 arg

abbrev pub entry_at : Option (Option ℕ) → Result (Option ℕ)
entry_at none = err index_error
entry_at (some v) = ok v

unfoldable pub decode_max_segments_accepted : ℕ → Result (Option ℕ)
decode_max_segments_accepted code = entry_at (get_elem? max_segments_accepted_encoding code)

unfoldable pub encode_max_apdu_length_accepted : ℕ → Result ℕ
unfolding find_length
encode_max_apdu_length_accepted arg = find_length 5 arg

-- `if not v: raise ValueError`
abbrev pub length_or_error : Option (Option ℕ) → Result ℕ
length_or_error none = err index_error
length_or_error (some none) = err value_error
length_or_error (some (some v)) = if v == 0 then err value_error else ok v

unfoldable pub decode_max_apdu_length_accepted : ℕ → Result ℕ
decode_max_apdu_length_accepted code = length_or_error (get_elem? max_apdu_length_encoding code)
