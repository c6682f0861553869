-- ===== src/Ssm/Segments.antt =====
-- bacpypes3/appservice.py, class SSM: the segments of an APDU against its data.
use bacpypes.Prelude.{
  List, ◌∷◌, ℕ, zero, suc, ◌+◌, ◌*◌, ◌/◌, ◌%◌, ◌-◌, ◌≡◌, ◌≤◌, ◌<◌, refl, ◌∙◌, ap, subst, Bool,
  false, Option, none, some, [], ◌++◌, length, take, drop, drop-add, take-add, take_all, ltb, leb,
  ◌==◌, if◌then◌else◌, Bool-cases, inl, inr, arith,
}
use bacpypes.Pdu.{Bytes, Result, ok, err}
use bacpypes.Apdu.Apci.{Apci, Apdu, Segment}
use bacpypes.Ssm.Types.{Ssm, World}
use bacpypes.Ssm.Monad.{Method, pure, ◌>>=◌}
use bacpypes.Ssm.Steps.{slice, segment_of, segment_header, get_segment, count_segments}
use native.Mathlib.Nat as Nat

-- An APDU with more data.
abbrev pub extended : Apdu → Bytes → Apdu
extended whole octets = record whole { pdu_data = whole.pdu_data ++ octets }

-- The data of the segments, one after the other.
abbrev pub data_of : Bytes → List Bytes → Bytes
data_of octets [] = octets
data_of octets (next ∷ others) = octets ++ data_of next others

-- The octets of `n` segments from `indx` on.
joined : Bytes → ℕ → ℕ → ℕ → Bytes
joined octets size indx zero = []
joined octets size indx (suc n) = slice octets size indx ++ joined octets size (indx + 1) n

joined_lem :
    (octets : Bytes) (size indx n : ℕ)
    → joined octets size indx n ≡ take (n * size) (drop (indx * size) octets)
unfolding joined slice
joined_lem octets size indx zero =
    ap (λ k. take k (drop (indx * size) octets)) {x = 0} (omega arith)
joined_lem octets size indx (suc n) =
    ap (λ r. slice octets size indx ++ r)
      (joined_lem octets size (indx + 1) n
        ∙ ap (λ k. take (n * size) k)
            (ap (λ k. drop k octets) {x = (indx + 1) * size} {y = indx * size + size} (omega arith)
              ∙ drop-add (indx * size) size octets))
    ∙ take-add size (n * size) (drop (indx * size) octets)
    ∙ ap (λ k. take k (drop (indx * size) octets)) {x = size + n * size} (omega arith)

-- The segments counted are enough for the octets.
Enough : ℕ → ℕ → Result ℕ → Type 0
Enough len size (ok count) = len ≤ count * size
Enough len size (err e) = Unit

rounded_up :
    (q r size len : ℕ)
    → q * size + r ≡ len
    → r < size
    → len ≤ (q + (if r == 0 then 0 else 1)) * size
rounded_up q r size len e h = elim (Bool-cases (r == 0)) [
  | inl z ↦ rw z (ground arith)
  | inr z ↦ rw z (omega arith)
]

count_segments-Enough : (len size : ℕ) → Enough len size (count_segments len size)
unfolding count_segments Enough
count_segments-Enough len size = elim (Bool-cases (len == 0)) [
  | inl e ↦ rw e (ground arith)
  | inr n ↦ rw n (elim (Bool-cases (size == 0)) [
    | inl e ↦ rw e tt
    | inr p ↦ rw p (
        rounded_up (len / size) (len % size) size len (Nat.div-add-mod' len size)
          (Nat.mod-lt len (ground arith)))
  ])
]

all_joined :
    (octets : Bytes) (size : ℕ) {count : ℕ}
    → count_segments (length octets) size ≡ ok count
    → joined octets size 0 count ≡ octets
unfolding Enough
all_joined octets size {count} e =
    joined_lem octets size 0 count
    ∙ ap (λ k. take (count * size) (drop k octets)) {x = 0 * size} {y = 0} (omega arith)
    ∙ take_all (count * size) octets
        (subst (Enough (length octets) size) e (count_segments-Enough (length octets) size))

-- The place of a segment in its header: its number modulo 256 and a window size, unless the APDU
-- is sent whole, and whether another follows.
abbrev pub place : Ssm → ℕ → ℕ → ℕ → Option Segment × Bool
place s win indx count = if count == 1 then (none, false) else (
  some (record {
    seq = indx % 256;
    win = if indx == 0 then s.settings.proposed_window_size else win;
  }),
  ltb indx (count - 1),
)

segment_of_lem :
    (s : Ssm) (win indx count : ℕ)
    → s.actual_window_size ≡ some win
    → segment_of s indx count ≡ ok (place s win indx count)
unfolding segment_of
segment_of_lem s win indx count h = elim (Bool-cases (count == 1)) [
  | inl e ↦ rw e refl
  | inr n ↦ rw (n, h) (elim (Bool-cases (indx == 0)) [ inl z ↦ rw z refl | inr z ↦ rw z refl ])
]

-- A transaction that sends `whole` in `count` segments of `size` octets.
pub record IsSending (s : Ssm) (whole : Apdu) (size count win : ℕ)
    (header : Option Segment → Bool → Apci) : Type 0 where
  pub segment_apdu : s.segment_apdu ≡ some whole
  pub segment_size : s.segment_size ≡ some size
  pub segment_count : s.segment_count ≡ some count
  pub actual_window_size : s.actual_window_size ≡ some win
  pub counted : count_segments (length whole.pdu_data) size ≡ ok count
  pub size_set : 0 < size
  pub has_header : segment_header s whole.apci ≡ ok header

-- The data of `n` segments from `indx` on, as `get_segment` gives them one after the other.
abbrev pub gathered : ℕ → ℕ → Method Bytes
gathered indx zero = pure []
gathered indx (suc n) = do
  apdu ← get_segment indx
  octets ← gathered (indx + 1) n
  pure (apdu.pdu_data ++ octets)

module _ (w : World) (whole : Apdu) (size count win : ℕ) (header : Option Segment → Bool → Apci)
    (h : IsSending w.ssm whole size count win header) where
  pub get_segment_lem :
      (indx : ℕ)
      → indx < count
      → get_segment indx w ≡ (
        ok (record {
          apci = header (place w.ssm win indx count).0 (place w.ssm win indx count).1;
          pdu_data = slice whole.pdu_data size indx;
        }),
        w,
      )
  unfolding get_segment
  get_segment_lem indx below =
      let inside : leb count indx ≡ false = ground arith in
      let positive : size == 0 ≡ false = (let p = h.size_set in ground arith) in
      simp (
        h.segment_apdu,
        h.segment_count,
        inside,
        h.has_header,
        segment_of_lem w.ssm win indx count h.actual_window_size,
        h.segment_size,
        positive,
      )

  gathered_lem :
      (indx n : ℕ)
      → indx + n ≤ count
      → gathered indx n w ≡ (ok (joined whole.pdu_data size indx n), w)
  unfolding joined
  gathered_lem indx zero b = refl
  gathered_lem indx (suc n) b =
      simp (get_segment_lem indx (omega arith), gathered_lem (indx + 1) n (omega arith))

  -- While an APDU is sent in segments, each `get_segment` below the segment count succeeds and
  -- changes nothing, and the data of the segments, one after the other, is that of the APDU.
  pub gathered-get_segment : gathered 0 count w ≡ (ok whole.pdu_data, w)
  gathered-get_segment =
      gathered_lem 0 count (omega arith)
      ∙ ap (λ octets. (ok octets, w)) (all_joined whole.pdu_data size h.counted)
