-- ===== src/Ssm/Server/Live.antt =====
-- bacpypes3/appservice.py, class ServerSSM: every message from either side and every timeout.
pub mod Request
use bacpypes.Prelude.{
  ℕ, zero, suc, ◌+◌, ◌-◌, ◌%◌, Bool, true, false, not, ◌&&◌, ◌||◌, ◌≡◌, refl, arith, Option, none,
  some, List, [], ◌∷◌, length, ltb, leb, ◌==◌, if◌then◌else◌, min, is_some,
}
use bacpypes.Pdu.{Error, Bytes, assertion_error, Result, ok, err, runtime_error, type_error}
use bacpypes.Apdu.Apci.{
  Apci, Apdu, Segment, confirmed_request, unconfirmed_request, simple_ack, complex_ack, segment_ack,
  error, reject, abort,
}
use bacpypes.Apdu.Limits.{decode_max_segments_accepted, decode_max_apdu_length_accepted}
use bacpypes.Ssm.Reason
use bacpypes.Ssm.Types.{
  State, Segmentation, Ssm, Settings, DeviceInfo, World, Output, to_device, to_application,
  to_cache, undecodable, can_receive, can_transmit, completed, aborted, idle, segmented_request,
  await_confirmation, await_response, segmented_response, segmented_confirmation, segmented_both,
  segmented_transmit, segmented_receive, no_segmentation,
}
use bacpypes.Ssm.Monad.{
  Method, Done, pure, raise, gets, modify, send, lift, need, raise_if, ◌>>=◌, ◌>>◌, continue,
}
use bacpypes.Ssm.Steps.{
  set_state, start_timer, get_segment, append_segment, in_window, fill_window, count_segments,
}
use bacpypes.Ssm.Keeps.{
  IsListed, listed, Revives, Revives-if, Revives-set_state, not_waiting-IsLive, IsLive, Kept, Keeps,
  Keeps-continue, kept, Keeps-need, Keeps-lift, Keeps-if, Keeps-start_timer, Keeps-set_state,
}
use bacpypes.Ssm.Client.Live.Steps.{
  relisted, revived, Keeps-get_segment, Keeps-fill_window, TimeoutSet, modified, timed,
}
use bacpypes.Ssm.Client.Live.Request.{Keeps-in_window}
use bacpypes.Ssm.Client.Live.Answer.{Keeps-append_segment}
use bacpypes.Ssm.Server.{
  hand_up, server_abort, refuse, refuse_both, answer_device, server_segment_ack, learned,
  update_info, learn, accepted_length, first_segment, request_begins, on_idle, request_in_order,
  request_segment, on_request_segments, request_segments_timeout, on_await_response,
  await_response_timeout, response_size_for, response_refusal, send_response, start_response,
  respond_apci, confirmation, response_acked, on_segmented_response, segmented_response_timeout,
  dispatch_indication, indication, dispatch_expiry, timer_expired,
}
use bacpypes.Ssm.Server.Live.Request.{
  Keeps-hand_up, Keeps-server_abort, Revives-server_abort, Keeps-refuse, Keeps-refuse_both,
  Keeps-answer_completed, Keeps-answer_aborted, Keeps-on_idle, Keeps-on_request_segments,
}

Keeps-on_await_response : (apdu : Apdu) (a : Apci) → Keeps (on_await_response apdu a)
unfolding on_await_response
Keeps-on_await_response apdu (confirmed_request seg mor sa max_segs max_resp invoke_id service) w
      g =
    kept _ _ g
Keeps-on_await_response apdu (abort srv invoke_id reason) w g =
    Keeps-continue _ _ (Keeps-set_state aborted 0 (λ e. ground arith) w g) λ _ v h. kept _ _ h
Keeps-on_await_response apdu (unconfirmed_request service) w g = kept _ _ g
Keeps-on_await_response apdu (simple_ack invoke_id service) w g = kept _ _ g
Keeps-on_await_response apdu (complex_ack seg mor invoke_id service) w g = kept _ _ g
Keeps-on_await_response apdu (segment_ack nak srv invoke_id seq win) w g = kept _ _ g
Keeps-on_await_response apdu (error invoke_id service) w g = kept _ _ g
Keeps-on_await_response apdu (reject invoke_id reason) w g = kept _ _ g

Keeps-send_response :
    (r : Option ℕ) (whole : Apdu) (count : ℕ) → Keeps (send_response r whole count)
unfolding send_response
Keeps-send_response (some reason) whole count w g = Keeps-refuse reason w g
Keeps-send_response none whole count w g =
    Keeps-if (count == 1) _ _ (λ v h. Keeps-set_state completed 0 (λ e. ground arith) _ h)
      (λ v h.
        Keeps-continue _ _ (Keeps-get_segment 0 v h)
          λ apdu u k. Keeps-set_state segmented_response _ (λ _. (TimeoutSet w g).1) _ k)
      _ (modified w.ssm _ refl refl refl refl g)

Keeps-start_response :
    (apdu : Apdu) (invoke_id service : ℕ) → Keeps (start_response apdu invoke_id service)
unfolding start_response
Keeps-start_response apdu invoke_id service w g =
    Keeps-continue _ _
      (Keeps-lift
        (count_segments (length apdu.pdu_data)
          (response_size_for w.ssm.max_apdu_length_accepted w.ssm.device_info))
        _ (modified w.ssm _ refl refl refl refl g))
      λ count v h. Keeps-send_response _ _ count _ (modified v.ssm _ refl refl refl refl h)

Keeps-respond_apci : (apdu : Apdu) (a : Apci) → Keeps (respond_apci apdu a)
unfolding respond_apci
Keeps-respond_apci apdu (abort srv invoke_id reason) w g = Keeps-answer_aborted apdu w g
Keeps-respond_apci apdu (simple_ack invoke_id service) w g = Keeps-answer_completed apdu w g
Keeps-respond_apci apdu (error invoke_id service) w g = Keeps-answer_completed apdu w g
Keeps-respond_apci apdu (reject invoke_id reason) w g = Keeps-answer_completed apdu w g
Keeps-respond_apci apdu (complex_ack seg mor invoke_id service) w g =
    Keeps-start_response apdu invoke_id service w g
Keeps-respond_apci apdu (segment_ack nak srv invoke_id seq win) w g = kept _ _ g
Keeps-respond_apci apdu (unconfirmed_request service) w g = kept _ _ g
Keeps-respond_apci apdu (confirmed_request seg mor sa max_segs max_resp invoke_id service) w g =
    kept _ _ g

-- A live server transaction is live after the application's response of any type, in any state,
-- whether it is sent whole, begun in segments or refused, or an error is raised.
pub response-IsLive : (apdu : Apdu) (w : World) → IsLive w.ssm → Kept (confirmation apdu w)
unfolding confirmation
response-IsLive apdu w g = Keeps-respond_apci apdu apdu.apci w g

Keeps-response_acked : (seq win : ℕ) → Keeps (response_acked seq win)
unfolding response_acked
Keeps-response_acked seq win w g =
    Keeps-continue _ _
      (Keeps-in_window seq w.ssm.initial_sequence_number _ (modified w.ssm _ refl refl refl refl g))
      λ inside. Keeps-if (not inside) _ _ (Keeps-start_timer _) (
        Keeps-if w.ssm.sent_all_segments _ _ (Keeps-set_state completed 0 λ e. ground arith) λ v h.
          Keeps-continue _ _
            (Keeps-fill_window ((seq + 1) % 256) _ (modified v.ssm _ refl refl refl refl h))
            λ _. Keeps-start_timer _)

Keeps-on_segmented_response : (apdu : Apdu) (a : Apci) → Keeps (on_segmented_response apdu a)
unfolding on_segmented_response
Keeps-on_segmented_response apdu (segment_ack nak srv invoke_id seq win) w g =
    Keeps-response_acked seq win w g
Keeps-on_segmented_response apdu (abort srv invoke_id reason) w g = Keeps-answer_completed apdu w g
Keeps-on_segmented_response apdu (simple_ack invoke_id service) w g = kept _ _ g
Keeps-on_segmented_response apdu (complex_ack seg mor invoke_id service) w g = kept _ _ g
Keeps-on_segmented_response apdu (error invoke_id service) w g = kept _ _ g
Keeps-on_segmented_response apdu (reject invoke_id reason) w g = kept _ _ g
Keeps-on_segmented_response apdu (unconfirmed_request service) w g = kept _ _ g
Keeps-on_segmented_response apdu (confirmed_request seg mor sa max_segs max_resp invoke_id service)
      w g =
    kept _ _ g

Revives-segmented_response_timeout : Revives segmented_response_timeout
unfolding segmented_response_timeout
Revives-segmented_response_timeout w g =
    Revives-if (ltb w.ssm.segment_retry_count w.ssm.settings.number_of_apdu_retries) _ _
      (λ v h.
        Keeps-if (w.ssm.initial_sequence_number == 0) _ _
          (λ u k. Keeps-continue _ _ (Keeps-get_segment 0 u k) λ a u' k'. kept _ _ k')
          (Keeps-fill_window _) _ (revived v.ssm _ refl refl refl refl h))
      (Revives-set_state aborted 0 λ e. ground arith) w g

Keeps-dispatch_indication :
    (s : State) (decodes : Apdu → Bool) (info : Option DeviceInfo) (apdu : Apdu)
    → Keeps (dispatch_indication s decodes info apdu)
unfolding dispatch_indication
Keeps-dispatch_indication idle decodes info apdu w g = Keeps-on_idle decodes info apdu apdu.apci w g
Keeps-dispatch_indication segmented_request decodes info apdu w g =
    Keeps-on_request_segments decodes apdu apdu.apci w g
Keeps-dispatch_indication await_response decodes info apdu w g =
    Keeps-on_await_response apdu apdu.apci w g
Keeps-dispatch_indication segmented_response decodes info apdu w g =
    Keeps-on_segmented_response apdu apdu.apci w g
Keeps-dispatch_indication await_confirmation decodes info apdu w g = kept _ _ g
Keeps-dispatch_indication segmented_confirmation decodes info apdu w g = kept _ _ g
Keeps-dispatch_indication completed decodes info apdu w g = kept _ _ g
Keeps-dispatch_indication aborted decodes info apdu w g = kept _ _ g

-- A live server transaction is live after any APDU from the client in any state, whatever the
-- answer of the device information cache and whether or not the request can be decoded.
pub server_indication-IsLive :
    (decodes : Apdu → Bool) (info : Option DeviceInfo) (apdu : Apdu) (w : World)
    → IsLive w.ssm
    → Kept (indication decodes info apdu w)
unfolding indication
server_indication-IsLive decodes info apdu w g =
    Keeps-dispatch_indication w.ssm.state decodes info apdu w g

-- The states of a server: the others raise when the timer expires.
abbrev pub CanServe : State → Type 0
CanServe await_confirmation = ⊥
CanServe segmented_confirmation = ⊥
CanServe _ = Unit

dispatch_expiry-IsLive :
    (state : State) (w : World)
    → w.ssm.state ≡ state
    → CanServe state
    → IsListed w.ssm
    → Kept (dispatch_expiry state w)
unfolding dispatch_expiry request_segments_timeout await_response_timeout
dispatch_expiry-IsLive segmented_request w e can g =
    Revives-set_state aborted 0 (λ k. ground arith) w g
dispatch_expiry-IsLive await_response w e can g =
    Keeps-continue _ _ (Revives-server_abort _ w g) λ _ v h. kept _ _ h
dispatch_expiry-IsLive segmented_response w e can g = Revives-segmented_response_timeout w g
dispatch_expiry-IsLive completed w e can g =
    kept _ _ (not_waiting-IsLive w.ssm g (rw e λ waits. ground arith))
dispatch_expiry-IsLive aborted w e can g =
    kept _ _ (not_waiting-IsLive w.ssm g (rw e λ waits. ground arith))
dispatch_expiry-IsLive idle w e can g =
    kept _ _ (not_waiting-IsLive w.ssm g (rw e λ waits. ground arith))
dispatch_expiry-IsLive await_confirmation w e can g = absurd can
dispatch_expiry-IsLive segmented_confirmation w e can g = absurd can

-- After the timer of a live server transaction in a server's state has fired, the transaction is live
-- again, with a new timer if it waits, whether the method returns or raises.
pub server_timer_expired-IsLive :
    (w : World) → IsLive w.ssm → CanServe w.ssm.state → Kept (timer_expired w)
unfolding timer_expired
server_timer_expired-IsLive w g can =
    dispatch_expiry-IsLive w.ssm.state _ refl can (relisted w.ssm _ refl refl refl (listed w.ssm g))
