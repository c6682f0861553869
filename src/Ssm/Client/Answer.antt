-- ===== src/Ssm/Client/Answer.antt =====
-- bacpypes3/appservice.py, class ClientSSM: the answer, whole or in segments.
use bacpypes.Prelude.{
  ◌+◌, ◌%◌, Bool, true, false, not, Option, none, some, ltb, ◌==◌, if◌then◌else◌,
}
use bacpypes.Pdu.{attribute_error, runtime_error, type_error}
use bacpypes.Apdu.Apci.{
  Apci, Apdu, Segment, confirmed_request, unconfirmed_request, simple_ack, complex_ack, segment_ack,
  error, reject, abort,
}
use bacpypes.Ssm.Reason
use bacpypes.Ssm.Types.{
  DeviceInfo, to_application, can_receive, completed, aborted, segmented_confirmation,
}
use bacpypes.Ssm.Monad.{Method, Done, raise, gets, modify, send, need, ◌>>=◌, ◌>>◌}
use bacpypes.Ssm.Steps.{set_state, start_timer, append_segment}
use bacpypes.Ssm.Client.Common.{give_up, give_up_both, finish, send_segment_ack}
use bacpypes.Ssm.Client.Request.{indication}

-- A ComplexAck in AWAIT_CONFIRMATION: whole, not acceptable, the first segment, or a stray one.
unfoldable pub answer_begins : Apdu → Segment → Method Done
unfolding send_segment_ack
answer_begins apdu seg = do
  modify (λ s. record s {
    segment_apdu = some apdu;
    actual_window_size = some seg.win;
    last_sequence_number = 0;
    initial_sequence_number = 0;
  })
  s ← gets (λ s. s)
  set_state segmented_confirmation s.settings.segment_timeout
  send_segment_ack false s.initial_sequence_number

unfoldable pub answered : Apdu → Option Segment → Method Done
unfolding finish give_up give_up_both answer_begins
answered apdu none = finish completed apdu
answered apdu (some seg) = do
  s ← gets (λ s. s)
  (if not (can_receive s.settings.segmentation_supported)
      then give_up Reason.segmentation_not_supported
      else if seg.seq == 0
      then answer_begins apdu seg
      else give_up_both Reason.invalid_apdu_in_this_state)

-- `ClientSSM.await_confirmation`
unfoldable pub on_await_confirmation : Apdu → Apci → Method Done
unfolding finish answered
on_await_confirmation apdu (abort srv invoke_id reason) = finish aborted apdu
on_await_confirmation apdu (simple_ack invoke_id service) = finish completed apdu
on_await_confirmation apdu (error invoke_id service) = finish completed apdu
on_await_confirmation apdu (reject invoke_id reason) = finish completed apdu
on_await_confirmation apdu (complex_ack seg mor invoke_id service) = answered apdu seg
on_await_confirmation apdu (segment_ack nak srv invoke_id seq win) = do
  s ← gets (λ s. s)
  start_timer s.settings.segment_timeout
on_await_confirmation apdu (unconfirmed_request service) = raise runtime_error
on_await_confirmation apdu (confirmed_request seg mor sa max_segs max_resp invoke_id service) =
    raise runtime_error

-- `ClientSSM.await_confirmation_timeout`: the retry count survives the new start.
unfoldable pub await_confirmation_timeout : Option DeviceInfo → Bool → Method Done
unfolding give_up indication
await_confirmation_timeout info delivered = do
  s ← gets (λ s. s)
  (if ltb s.retry_count s.settings.number_of_apdu_retries
      then (do
        modify (λ s'. record s' { retry_count = s.retry_count + 1 })
        whole ← need s.segment_apdu attribute_error
        indication info delivered whole
        modify (λ s'. record s' { retry_count = s.retry_count + 1 }))
      else give_up Reason.no_response)

-- What is done with a segment once it is in order: the last one, the last of a window, or another.
unfoldable pub segment_in_order : Segment → Bool → Method Done
unfolding send_segment_ack finish
segment_in_order seg false = do
  s ← gets (λ s. s)
  send_segment_ack false s.last_sequence_number
  set_state completed 0
  t ← gets (λ s. s)
  whole ← need t.segment_apdu runtime_error
  send (to_application whole)
segment_in_order seg true = do
  s ← gets (λ s. s)
  win ← need s.actual_window_size type_error
  (if seg.seq == (s.initial_sequence_number + win) % 256
      then (do
        modify (λ s'. record s' { initial_sequence_number = s'.last_sequence_number })
        start_timer s.settings.segment_timeout
        send_segment_ack false s.last_sequence_number)
      else start_timer s.settings.segment_timeout)

unfoldable pub segment_arrives : Apdu → Option Segment → Bool → Method Done
unfolding give_up_both segment_in_order send_segment_ack
segment_arrives apdu none mor = give_up_both Reason.invalid_apdu_in_this_state
segment_arrives apdu (some seg) mor = do
  s ← gets (λ s. s)
  (if not (seg.seq == (s.last_sequence_number + 1) % 256)
      then start_timer s.settings.segment_timeout >> send_segment_ack true s.last_sequence_number
      else (do
        append_segment apdu.pdu_data
        modify (λ s'. record s' { last_sequence_number = (s'.last_sequence_number + 1) % 256 })
        segment_in_order seg mor))

-- `ClientSSM.segmented_confirmation`
unfoldable pub on_segmented_confirmation : Apdu → Apci → Method Done
unfolding give_up_both segment_arrives
on_segmented_confirmation apdu (complex_ack seg mor invoke_id service) =
    segment_arrives apdu seg mor
on_segmented_confirmation apdu (abort srv invoke_id reason) =
    give_up_both Reason.invalid_apdu_in_this_state
on_segmented_confirmation apdu (simple_ack invoke_id service) =
    give_up_both Reason.invalid_apdu_in_this_state
on_segmented_confirmation apdu (error invoke_id service) =
    give_up_both Reason.invalid_apdu_in_this_state
on_segmented_confirmation apdu (reject invoke_id reason) =
    give_up_both Reason.invalid_apdu_in_this_state
on_segmented_confirmation apdu (segment_ack nak srv invoke_id seq win) =
    give_up_both Reason.invalid_apdu_in_this_state
on_segmented_confirmation apdu (unconfirmed_request service) =
    give_up_both Reason.invalid_apdu_in_this_state
on_segmented_confirmation apdu (confirmed_request seg mor sa max_segs max_resp invoke_id service) =
    give_up_both Reason.invalid_apdu_in_this_state

-- `ClientSSM.segmented_confirmation_timeout`
unfoldable pub segmented_confirmation_timeout : Method Done
unfolding give_up
segmented_confirmation_timeout = give_up Reason.no_response
