-- ===== src/Ssm/Server/Response.antt =====
-- bacpypes3/appservice.py, class ServerSSM: the application's response, whole or in segments.
use bacpypes.Prelude.{
  ℕ, ◌+◌, ◌%◌, Bool, false, not, Option, none, some, length, ltb, leb, ◌==◌, if◌then◌else◌, min,
}
use bacpypes.Pdu.{runtime_error}
use bacpypes.Apdu.Apci.{
  Apci, Apdu, confirmed_request, unconfirmed_request, simple_ack, complex_ack, segment_ack, error,
  reject, abort,
}
use bacpypes.Ssm.Reason
use bacpypes.Ssm.Types.{
  Ssm, DeviceInfo, to_device, to_application, can_transmit, completed, aborted, segmented_response,
}
use bacpypes.Ssm.Monad.{Method, Done, pure, raise, gets, modify, send, lift, need, ◌>>=◌, ◌>>◌}
use bacpypes.Ssm.Steps.{set_state, start_timer, get_segment, in_window, fill_window, count_segments}
use bacpypes.Ssm.Server.Common.{server_abort, refuse, answer_device}

-- `ServerSSM.await_response`
unfoldable pub on_await_response : Apdu → Apci → Method Done
on_await_response apdu (confirmed_request seg mor sa max_segs max_resp invoke_id service) = pure tt
on_await_response apdu (abort srv invoke_id reason) = do
  set_state aborted 0
  send (to_application apdu)
on_await_response apdu (unconfirmed_request service) = raise runtime_error
on_await_response apdu (simple_ack invoke_id service) = raise runtime_error
on_await_response apdu (complex_ack seg mor invoke_id service) = raise runtime_error
on_await_response apdu (segment_ack nak srv invoke_id seq win) = raise runtime_error
on_await_response apdu (error invoke_id service) = raise runtime_error
on_await_response apdu (reject invoke_id reason) = raise runtime_error

-- `ServerSSM.await_response_timeout`
unfoldable pub await_response_timeout : Method Done
unfolding server_abort
await_response_timeout = do a ← server_abort Reason.server_timeout; send (to_application a)

-- The segment size that fits what is known of the client.
unfoldable pub response_size_for : ℕ → Option DeviceInfo → ℕ
response_size_for most none = most
response_size_for most (some info) = elim info.max_npdu_length [
  | none ↦ most
  | some npdu ↦ min npdu most
]

abbrev pub exceeds : ℕ → Option ℕ → Bool
exceeds count none = false
exceeds count (some most) = ltb most count

-- The reason to refuse a response of `count` segments, if there is one.
unfoldable pub response_refusal : Ssm → ℕ → Option ℕ
response_refusal s count =
    if leb count 1
    then none
    else if not (can_transmit s.settings.segmentation_supported)
    then some Reason.segmentation_not_supported
    else if not s.segmented_response_accepted
    then some Reason.segmentation_not_supported
    else if exceeds count s.max_segments_accepted
    then some Reason.apdu_too_long
    else none

unfoldable pub send_response : Option ℕ → Apdu → ℕ → Method Done
unfolding refuse
send_response (some reason) whole count = refuse reason
send_response none whole count = do
  modify (λ s. record s {
    segment_retry_count = 0;
    initial_sequence_number = 0;
    actual_window_size = none;
  })
  s ← gets (λ s. s)
  (if count == 1 then send (to_device whole) >> set_state completed 0 else (do
    apdu ← get_segment 0
    send (to_device apdu)
    set_state segmented_response s.settings.segment_timeout))

unfoldable pub start_response : Apdu → ℕ → ℕ → Method Done
unfolding send_response
start_response apdu invoke_id service = do
  modify (λ s. record s {
    segment_apdu = some apdu;
    segment_size = some (response_size_for s.max_apdu_length_accepted s.device_info);
  })
  s ← gets (λ s. s)
  size ← need s.segment_size runtime_error
  count ← lift (count_segments (length apdu.pdu_data) size)
  modify (λ s. record s { segment_count = some count })
  send_response (response_refusal s count)
      (record { apci = complex_ack none false invoke_id service; pdu_data = apdu.pdu_data }) count

unfoldable pub respond_apci : Apdu → Apci → Method Done
unfolding answer_device start_response
respond_apci apdu (abort srv invoke_id reason) = answer_device aborted apdu
respond_apci apdu (simple_ack invoke_id service) = answer_device completed apdu
respond_apci apdu (error invoke_id service) = answer_device completed apdu
respond_apci apdu (reject invoke_id reason) = answer_device completed apdu
respond_apci apdu (complex_ack seg mor invoke_id service) = start_response apdu invoke_id service
respond_apci apdu (segment_ack nak srv invoke_id seq win) = raise runtime_error
respond_apci apdu (unconfirmed_request service) = raise runtime_error
respond_apci apdu (confirmed_request seg mor sa max_segs max_resp invoke_id service) =
    raise runtime_error

-- `ServerSSM.confirmation`. That the state is AWAIT_RESPONSE is only logged where it is not so.
unfoldable pub confirmation : Apdu → Method Done
unfolding respond_apci
confirmation apdu = respond_apci apdu apdu.apci

-- A SegmentAck in SEGMENTED_RESPONSE.
unfoldable pub response_acked : ℕ → ℕ → Method Done
response_acked seq win = do
  modify (λ s. record s { actual_window_size = some win })
  s ← gets (λ s. s)
  inside ← in_window seq s.initial_sequence_number
  (if not inside
      then start_timer s.settings.segment_timeout
      else if s.sent_all_segments
      then set_state completed 0
      else (do
        modify (λ s. record s {
          initial_sequence_number = (seq + 1) % 256;
          actual_window_size = some win;
          segment_retry_count = 0;
        })
        fill_window ((seq + 1) % 256)
        start_timer s.settings.segment_timeout))

-- `ServerSSM.segmented_response`
unfoldable pub on_segmented_response : Apdu → Apci → Method Done
unfolding response_acked answer_device
on_segmented_response apdu (segment_ack nak srv invoke_id seq win) = response_acked seq win
on_segmented_response apdu (abort srv invoke_id reason) = answer_device completed apdu
on_segmented_response apdu (simple_ack invoke_id service) = raise runtime_error
on_segmented_response apdu (complex_ack seg mor invoke_id service) = raise runtime_error
on_segmented_response apdu (error invoke_id service) = raise runtime_error
on_segmented_response apdu (reject invoke_id reason) = raise runtime_error
on_segmented_response apdu (unconfirmed_request service) = raise runtime_error
on_segmented_response apdu (confirmed_request seg mor sa max_segs max_resp invoke_id service) =
    raise runtime_error

-- `ServerSSM.segmented_response_timeout`
unfoldable pub segmented_response_timeout : Method Done
segmented_response_timeout = do
  s ← gets (λ s. s)
  (if ltb s.segment_retry_count s.settings.number_of_apdu_retries
      then (do
        modify (λ s'. record s' { segment_retry_count = s.segment_retry_count + 1 })
        start_timer s.settings.segment_timeout
        (if s.initial_sequence_number == 0
            then (get_segment 0 >>= λ a. send (to_device a))
            else fill_window s.initial_sequence_number))
      else set_state aborted 0)
