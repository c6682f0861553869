-- ===== src/Ssm/Client/Live.antt =====
-- bacpypes3/appservice.py, class ClientSSM: every message and every timeout.
pub mod Steps
pub mod Request
pub mod Answer
use bacpypes.Prelude.{
  ℕ, zero, suc, ◌+◌, ◌%◌, ◌-◌, ◌<◌, Bool-cases, inl, inr, ◌≡◌, refl, is_some, Bool, true, false,
  not, Option, none, some, List, [], length, ltb, leb, ◌==◌, if◌then◌else◌, min, arith,
}
use bacpypes.Pdu.{
  attribute_error, Error, Result, ok, err, Bytes, runtime_error, type_error, value_error,
  assertion_error,
}
use bacpypes.Apdu.Apci.{
  Apci, Apdu, Segment, confirmed_request, unconfirmed_request, simple_ack, complex_ack, segment_ack,
  error, reject, abort,
}
use bacpypes.Apdu.Limits.{encode_max_segments_accepted, encode_max_apdu_length_accepted}
use bacpypes.Ssm.Reason
use bacpypes.Ssm.Types.{
  State, Ssm, DeviceInfo, World, Output, to_device, to_application, communication_error,
  can_receive, completed, aborted, idle, segmented_request, await_confirmation, await_response,
  segmented_response, segmented_confirmation,
}
use bacpypes.Ssm.Monad.{
  Method, Done, pure, raise, gets, modify, send, lift, need, raise_if, ◌>>=◌, ◌>>◌, continue,
}
use bacpypes.Ssm.Steps.{
  set_state, start_timer, get_segment, append_segment, in_window, fill_window, fill_from,
  window_size, segment_of, segment_header, count_segments, more_follows, slice,
}
use bacpypes.Ssm.Keeps.{
  IsLive, IsListed, listed, Revives, Revives-if, not_waiting-IsLive, TimeoutsSet, Kept, Keeps,
  Keeps-continue, kept, Keeps-need, Keeps-lift, Keeps-raise, Keeps-if, Keeps-raise_if,
  Keeps-start_timer, Keeps-set_state,
}
use bacpypes.Ssm.Client.{
  abort_apdu, give_up, give_up_both, finish, send_segment_ack, segment_size_for, request_refusal,
  deliver, begin, start_or_refuse, start_request, indication_apci, indication, request_acked,
  response_begins, request_answered, when_all_sent, on_segmented_request, answer_begins, answered,
  on_await_confirmation, segment_in_order, segment_arrives, on_segmented_confirmation, dispatch,
  confirmation, segmented_request_timeout, await_confirmation_timeout,
  segmented_confirmation_timeout, dispatch_timeout, timer_expired,
}
use bacpypes.Ssm.Client.Live.Steps.{
  sent_all-IsLive, Keeps-abort_apdu, Keeps-give_up, Revives-give_up, relisted, revived,
  Keeps-give_up_both, Keeps-finish-completed, Keeps-finish-aborted, Keeps-send_segment_ack,
  Keeps-get_segment, Keeps-fill_from, Keeps-window_size, Keeps-fill_window, TimeoutSet, modified,
  timed,
}
use bacpypes.Ssm.Client.Live.Request.{
  Keeps-deliver, Revives-indication, is_request, Keeps-start_request, Keeps-indication_apci,
  indication-IsLive, Keeps-in_window, Keeps-request_acked, Keeps-response_begins,
  Keeps-request_answered, Keeps-when_all_sent, Keeps-on_segmented_request,
}
use bacpypes.Ssm.Client.Live.Answer.{
  Keeps-answer_begins, Keeps-answered, Keeps-on_await_confirmation, Keeps-append_segment,
  Keeps-segment_in_order, Keeps-segment_arrives, Keeps-on_segmented_confirmation,
}

Keeps-dispatch : (s : State) (apdu : Apdu) → Keeps (dispatch s apdu)
unfolding dispatch
Keeps-dispatch segmented_request apdu w g = Keeps-on_segmented_request apdu apdu.apci w g
Keeps-dispatch await_confirmation apdu w g = Keeps-on_await_confirmation apdu apdu.apci w g
Keeps-dispatch segmented_confirmation apdu w g = Keeps-on_segmented_confirmation apdu apdu.apci w g
Keeps-dispatch idle apdu w g = kept _ _ g
Keeps-dispatch await_response apdu w g = kept _ _ g
Keeps-dispatch segmented_response apdu w g = kept _ _ g
Keeps-dispatch completed apdu w g = kept _ _ g
Keeps-dispatch aborted apdu w g = kept _ _ g

-- A live transaction is live after any APDU in any state, whether the method returned or raised: it
-- is on the access point's list if and only if it has not ended, and a timer is set while it waits.
pub confirmation-IsLive : (apdu : Apdu) (w : World) → IsLive w.ssm → Kept (confirmation apdu w)
unfolding confirmation
confirmation-IsLive apdu w g = Keeps-dispatch w.ssm.state apdu w g

Revives-segmented_request_timeout : Revives segmented_request_timeout
unfolding segmented_request_timeout
Revives-segmented_request_timeout w g =
    Revives-if (ltb w.ssm.segment_retry_count w.ssm.settings.number_of_apdu_retries) _ _
      (λ v h.
        Keeps-if (w.ssm.initial_sequence_number == 0) _ _
          (λ u k. Keeps-continue _ _ (Keeps-get_segment 0 u k) λ a u' k'. kept _ _ k')
          (Keeps-fill_window _) _ (revived v.ssm _ refl refl refl refl h))
      (Revives-give_up _) w g

-- The request can be sent again: it is a confirmed request, for which a segment size is known.
abbrev pub CanRestart : Option DeviceInfo → Ssm → Type 0
CanRestart info s =
    (apdu : Apdu) × (s.segment_apdu ≡ some apdu)
    × (is_request apdu.apci ≡ true)
    × (0 < segment_size_for s.max_apdu_length_accepted info)

Revives-await_confirmation_timeout :
    (info : Option DeviceInfo) (delivered : Bool) (w : World)
    → CanRestart info w.ssm
    → IsListed w.ssm
    → Kept (await_confirmation_timeout info delivered w)
unfolding await_confirmation_timeout indication
Revives-await_confirmation_timeout info delivered w (apdu, known, request, size) g =
    elim (Bool-cases (ltb w.ssm.retry_count w.ssm.settings.number_of_apdu_retries)) [
      | inl again ↦
          (rw (again, known)
            (Keeps-continue _ _
              (Revives-indication info delivered apdu apdu.apci _ request size
                (relisted w.ssm _ refl refl refl g))
              λ _ u k. kept _ _ (modified u.ssm _ refl refl refl refl k)))
      | inr over ↦ rw over (Revives-give_up _ w g)
    ]

-- A client transaction whose timer can expire: it is in a client's state, and a request that waits
-- for its answer can be sent again.
abbrev pub CanExpire : State → Option DeviceInfo → Ssm → Type 0
CanExpire await_confirmation info s = CanRestart info s
CanExpire await_response info s = ⊥
CanExpire segmented_response info s = ⊥
CanExpire _ info s = Unit

dispatch_timeout-IsLive :
    (state : State) (info : Option DeviceInfo) (delivered : Bool) (w : World)
    → w.ssm.state ≡ state
    → CanExpire state info w.ssm
    → IsListed w.ssm
    → Kept (dispatch_timeout state info delivered w)
unfolding dispatch_timeout segmented_confirmation_timeout
dispatch_timeout-IsLive segmented_request info delivered w e can g =
    Revives-segmented_request_timeout w g
dispatch_timeout-IsLive await_confirmation info delivered w e can g =
    Revives-await_confirmation_timeout info delivered w can g
dispatch_timeout-IsLive segmented_confirmation info delivered w e can g = Revives-give_up _ w g
dispatch_timeout-IsLive completed info delivered w e can g =
    kept _ _ (not_waiting-IsLive w.ssm g (rw e λ waits. ground arith))
dispatch_timeout-IsLive aborted info delivered w e can g =
    kept _ _ (not_waiting-IsLive w.ssm g (rw e λ waits. ground arith))
dispatch_timeout-IsLive idle info delivered w e can g =
    kept _ _ (not_waiting-IsLive w.ssm g (rw e λ waits. ground arith))
dispatch_timeout-IsLive await_response info delivered w e can g = absurd can
dispatch_timeout-IsLive segmented_response info delivered w e can g = absurd can

-- The timer is not read.
still :
    (state : State) (info : Option DeviceInfo) (s : Ssm)
    → CanExpire state info s
    → CanExpire state info (record s { timer = none })
still segmented_request info s can = tt
still await_confirmation info s can = can
still segmented_confirmation info s can = tt
still completed info s can = tt
still aborted info s can = tt
still idle info s can = tt
still await_response info s can = can
still segmented_response info s can = can

-- After the timer of a live client transaction has fired, the transaction is live again, with a new
-- timer if it waits, whether the request is sent again, a window is filled again, the transaction is
-- aborted or an error is raised. The transaction is in a client's state, and if it waits for its
-- confirmation, it holds a confirmed request for which a positive segment size is known.
pub timer_expired-IsLive :
    (info : Option DeviceInfo) (delivered : Bool) (w : World)
    → IsLive w.ssm
    → CanExpire w.ssm.state info w.ssm
    → Kept (timer_expired info delivered w)
unfolding timer_expired
timer_expired-IsLive info delivered w g can =
    dispatch_timeout-IsLive w.ssm.state info delivered _ refl (still w.ssm.state info w.ssm can)
      (relisted w.ssm _ refl refl refl (listed w.ssm g))
