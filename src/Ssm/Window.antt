-- ===== src/Ssm/Window.antt =====
-- bacpypes3/appservice.py, SSM.fill_window: which segments it sends, and when all have been sent.
use bacpypes.Prelude.{
  ℕ, zero, suc, ◌+◌, ◌-◌, ◌≡◌, ◌<◌, refl, ◌∙◌, subst, Bool, true, false, Option, List, [], ◌∷◌,
  ◌++◌, append-nil, append_assoc, ltb, leb, ◌==◌, if◌then◌else◌, min, Bool-cases, inl, inr, arith,
}
use bacpypes.Pdu.{Result, ok, err}
use bacpypes.Apdu.Apci.{
  Apci, Apdu, Segment, confirmed_request, unconfirmed_request, simple_ack, complex_ack, segment_ack,
  error, reject, abort,
}
use bacpypes.Ssm.Types.{Ssm, World, Output, to_device}
use bacpypes.Ssm.Steps.{
  slice, segment_header, both_ok, more_follows, fill_from, fill_window, window_size,
}
use bacpypes.Ssm.Segments.{IsSending, place, get_segment_lem}

abbrev Header : Type 0
Header = Option Segment → Bool → Apci

-- The header of a segment tells whether another follows.
TellsMore : Result Header → Type 0
TellsMore (ok header) = (p : Option Segment) (m : Bool) → more_follows (header p m) ≡ m
TellsMore (err e) = Unit

both_ok-TellsMore :
    (x y : Result ℕ) (f : ℕ → ℕ → Header)
    → ((a b : ℕ) (p : Option Segment) (m : Bool) → more_follows (f a b p m) ≡ m)
    → TellsMore (both_ok x y f)
unfolding TellsMore
both_ok-TellsMore (err e) y f h = tt
both_ok-TellsMore (ok a) (err e) f h = tt
both_ok-TellsMore (ok a) (ok b) f h = h a b

segment_header-TellsMore : (s : Ssm) (a : Apci) → TellsMore (segment_header s a)
unfolding segment_header TellsMore
segment_header-TellsMore s (confirmed_request seg mor sa max_segs max_resp invoke_id service) =
    both_ok-TellsMore _ _ _ (λ a b p m. refl)
segment_header-TellsMore s (complex_ack seg mor invoke_id service) = λ p m. refl
segment_header-TellsMore s (unconfirmed_request service) = tt
segment_header-TellsMore s (simple_ack invoke_id service) = tt
segment_header-TellsMore s (segment_ack nak srv invoke_id seq win) = tt
segment_header-TellsMore s (error invoke_id service) = tt
segment_header-TellsMore s (reject invoke_id reason) = tt
segment_header-TellsMore s (abort srv invoke_id reason) = tt

module _ (s : Ssm) (whole : Apdu) (size count win : ℕ) (header : Option Segment → Bool → Apci)
    (h : IsSending s whole size count win header) where
  -- The segment `indx` of the APDU.
  abbrev pub nth_segment : ℕ → Apdu
  nth_segment indx = record {
    apci = header (place s win indx count).0 (place s win indx count).1;
    pdu_data = slice whole.pdu_data size indx;
  }

  abbrev pub segments_from : ℕ → ℕ → List Output
  segments_from indx zero = []
  segments_from indx (suc n) = to_device (nth_segment indx) ∷ segments_from (indx + 1) n

  more_lem : (indx : ℕ) → indx < count → more_follows (nth_segment indx).apci ≡ ltb (indx + 1) count
  unfolding TellsMore
  more_lem indx below =
      subst TellsMore h.has_header (segment_header-TellsMore s whole.apci)
        (place s win indx count).0 (place s win indx count).1
      ∙ last
    where
      last : (place s win indx count).1 ≡ ltb (indx + 1) count
      last = elim (Bool-cases (count == 1)) [
        | inl e ↦ rw e (ground arith)
        | inr n ↦ rw n (ground arith)
      ]

  -- What `n` rounds from segment `indx` on leave.
  abbrev pub after : ℕ → ℕ → List Output → World
  after n indx sent = record {
    ssm = if leb count (indx + n) then record s { sent_all_segments = true } else s;
    sent = sent ++ segments_from indx (min n (count - indx));
  }

  fill_from_lem :
      (n indx : ℕ) (sent : List Output)
      → indx < count
      → fill_from n indx (record { ssm = s; sent = sent }) ≡ (ok tt, after n indx sent)
  unfolding fill_from
  fill_from_lem zero indx sent below =
      let inside : leb count (indx + 0) ≡ false = ground arith in
      let none_left : min 0 (count - indx) ≡ 0 = omega arith in
      rw (inside, none_left, append-nil) refl
  fill_from_lem (suc n) indx sent below = elim (Bool-cases (ltb (indx + 1) count)) [
    | inl more ↦
        let rounds : min (suc n) (count - indx) ≡ suc (min n (count - (indx + 1))) = ground arith in
        let shift : indx + 1 + n ≡ indx + suc n = omega arith in
        simp (
          get_segment_lem (record { ssm = s; sent = sent }) whole size count win header h indx
              below,
          more_lem indx below,
          more,
          fill_from_lem n (indx + 1) (sent ++ (to_device (nth_segment indx) ∷ [])) (ground arith),
          rounds,
          shift,
          append_assoc,
        )
    | inr last ↦
        let rounds : min (suc n) (count - indx) ≡ 1 = ground arith in
        let done : leb count (indx + suc n) ≡ true = ground arith in
        simp (
          get_segment_lem (record { ssm = s; sent = sent }) whole size count win header h indx
              below,
          more_lem indx below,
          last,
          rounds,
          done,
        )
  ]

  -- `fill_window` from a segment of the APDU, with a window size that is not 0, sends that many
  -- segments from there on, or all that are left where these are fewer, in order and nothing else; it
  -- notes that all segments were sent if and only if the last of them is among these.
  pub fill_window_lem :
      (indx : ℕ) (sent : List Output)
      → indx < count
      → 0 < win
      → fill_window indx (record { ssm = s; sent = sent }) ≡ (ok tt, after win indx sent)
  unfolding fill_window window_size
  fill_window_lem indx sent below positive =
      let open_ : win == 0 ≡ false = ground arith in
      let known = h.actual_window_size in simp (known, open_, fill_from_lem win indx sent below)
