-- ===== src/Ssm/Steps.antt =====
-- bacpypes3/appservice.py, class SSM: the timer, the change of state, the cutting of an APDU into
-- segments, and the window.
use bacpypes.Prelude.{
  ℕ, zero, suc, ◌+◌, ◌-◌, ◌*◌, ◌/◌, ◌%◌, Bool, true, false, Option, none, some, ◌++◌, take, drop,
  ltb, leb, ◌==◌, if◌then◌else◌,
}
use bacpypes.Pdu.{
  Result, ok, err, Bytes, runtime_error, assertion_error, value_error, zero_division_error,
}
use bacpypes.Apdu.Apci.{
  Apci, Apdu, Segment, confirmed_request, unconfirmed_request, simple_ack, complex_ack, segment_ack,
  error, reject, abort,
}
use bacpypes.Apdu.Limits.{encode_max_segments_accepted, encode_max_apdu_length_accepted}
use bacpypes.Ssm.Types.{
  State, Ssm, to_device, can_receive, completed, aborted, idle, segmented_request,
  await_confirmation, await_response, segmented_response, segmented_confirmation,
}
use bacpypes.Ssm.Monad.{
  Method, Done, pure, raise, gets, modify, send, lift, need, raise_if, ◌>>=◌, ◌>>◌,
}

abbrev pub is_terminal : State → Bool
is_terminal idle = false
is_terminal segmented_request = false
is_terminal await_confirmation = false
is_terminal await_response = false
is_terminal segmented_response = false
is_terminal segmented_confirmation = false
is_terminal completed = true
is_terminal aborted = true

-- `start_timer` and `restart_timer`: a timer that is set is replaced.
abbrev pub start_timer : ℕ → Method Done
start_timer msecs = modify (λ s. record s { timer = some msecs })

-- The timer of a new state: none for 0 milliseconds.
abbrev pub timer_of : ℕ → Option ℕ
timer_of msecs = if msecs == 0 then none else some msecs

-- `SSM.set_state`, and what ClientSSM and ServerSSM add: a transaction that ends is removed from
-- the access point's list, where `remove` of a missing entry is a ValueError.
unfoldable pub set_state : State → ℕ → Method Done
set_state new msecs = do
  old ← gets (λ s. s.state)
  raise_if (is_terminal old) runtime_error
  modify (λ s. record s { state = new; timer = timer_of msecs })
  tracked ← gets (λ s. s.tracked)
  (if is_terminal new
      then if tracked then modify (λ s. record s { tracked = false }) else raise value_error
      else pure tt)

-- The octets of segment `indx`: `pduData[offset : offset + segmentSize]`.
unfoldable pub slice : Bytes → ℕ → ℕ → Bytes
slice octets size indx = take size (drop (indx * size) octets)

-- `apduSeq`, `apduWin` and `apduMor` of segment `indx`; none if the APDU is sent whole. The first
-- segment proposes a window size, and the others tell the actual one.
unfoldable pub segment_of : Ssm → ℕ → ℕ → Result (Option Segment × Bool)
segment_of s indx count =
    if count == 1
    then ok (none, false)
    else if indx == 0
    then ok (
      some (record { seq = indx % 256; win = s.settings.proposed_window_size }),
      ltb indx (count - 1),
    )
    else elim s.actual_window_size [
      | none ↦ err assertion_error
      | some win ↦ ok (some (record { seq = indx % 256; win = win }), ltb indx (count - 1))
    ]

-- A value made of two, the first failing first.
abbrev pub both_ok : {A B C : Type 0} → Result A → Result B → (A → B → C) → Result C
both_ok (err e) y f = err e
both_ok (ok a) (err e) f = err e
both_ok (ok a) (ok b) f = ok (f a b)

-- The header of a segment, from that of the whole: the type, and the fields that it keeps. What
-- is left open is the segment's place.
unfoldable pub segment_header : Ssm → Apci → Result (Option Segment → Bool → Apci)
segment_header s (confirmed_request seg mor sa max_segs max_resp invoke_id service) =
    both_ok (encode_max_segments_accepted s.max_segments_accepted)
      (encode_max_apdu_length_accepted s.max_apdu_length_accepted)
      λ segs resp seg' mor'.
        confirmed_request seg' mor' (can_receive s.settings.segmentation_supported) segs resp
          s.invoke_id service
segment_header s (complex_ack seg mor invoke_id service) =
    ok (λ seg' mor'. complex_ack seg' mor' invoke_id service)
segment_header s (unconfirmed_request service) = err runtime_error
segment_header s (simple_ack invoke_id service) = err runtime_error
segment_header s (segment_ack nak srv invoke_id seq win) = err runtime_error
segment_header s (error invoke_id service) = err runtime_error
segment_header s (reject invoke_id reason) = err runtime_error
segment_header s (abort srv invoke_id reason) = err runtime_error

-- `get_segment`
unfoldable pub get_segment : ℕ → Method Apdu
get_segment indx = do
  s ← gets (λ s. s)
  whole ← need s.segment_apdu runtime_error
  count ← need s.segment_count assertion_error
  raise_if (leb count indx) runtime_error
  header ← lift (segment_header s whole.apci)
  place ← lift (segment_of s indx count)
  size ← need s.segment_size assertion_error
  raise_if (size == 0) assertion_error
  pure (record { apci = header place.0 place.1; pdu_data = slice whole.pdu_data size indx })

-- `append_segment`
unfoldable pub append_segment : Bytes → Method Done
append_segment octets = do
  s ← gets (λ s. s)
  whole ← need s.segment_apdu runtime_error
  modify (λ s'. record s' {
    segment_apdu = some (record whole { pdu_data = whole.pdu_data ++ octets });
  })

-- `assert self.actualWindowSize`: neither None nor 0.
unfoldable pub window_size : Method ℕ
window_size = do
  s ← gets (λ s. s)
  win ← need s.actual_window_size assertion_error
  raise_if (win == 0) assertion_error
  pure win

-- `in_window`: `((seqA - seqB + 256) % 256) < actualWindowSize`, for sequence numbers below 256.
unfoldable pub in_window : ℕ → ℕ → Method Bool
unfolding window_size
in_window seq_a seq_b = do win ← window_size; pure (ltb ((seq_a + 256 - seq_b) % 256) win)

abbrev pub more_follows : Apci → Bool
more_follows (confirmed_request seg mor sa max_segs max_resp invoke_id service) = mor
more_follows (complex_ack seg mor invoke_id service) = mor
more_follows (unconfirmed_request service) = false
more_follows (simple_ack invoke_id service) = false
more_follows (segment_ack nak srv invoke_id seq win) = false
more_follows (error invoke_id service) = false
more_follows (reject invoke_id reason) = false
more_follows (abort srv invoke_id reason) = false

-- The loop of `fill_window`, `rounds` segments from `indx` on; it ends behind the last segment.
unfoldable pub fill_from : ℕ → ℕ → Method Done
fill_from zero indx = pure tt
fill_from (suc rounds) indx =
    let rest = fill_from rounds (indx + 1) in
    do
      apdu ← get_segment indx
      send (to_device apdu)
      if more_follows apdu.apci then rest else modify (λ s. record s { sent_all_segments = true })

-- `fill_window`
unfoldable pub fill_window : ℕ → Method Done
unfolding fill_from window_size
fill_window seq_num = do win ← window_size; fill_from win seq_num

-- The number of segments of an APDU: one at least, and one more for a rest. A segment size of 0 is
-- a ZeroDivisionError.
unfoldable pub count_segments : ℕ → ℕ → Result ℕ
count_segments len size =
    if len == 0
    then ok 1
    else if size == 0
    then err zero_division_error
    else ok (len / size + (if len % size == 0 then 0 else 1))
