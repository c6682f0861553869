-- ===== src/Ssm/Server/Request.antt =====
-- bacpypes3/appservice.py, class ServerSSM: the request, whole or in segments.
use bacpypes.Prelude.{
  ℕ, ◌+◌, ◌%◌, Bool, true, false, not, Option, none, some, ltb, ◌==◌, if◌then◌else◌, min,
}
use bacpypes.Pdu.{runtime_error, type_error}
use bacpypes.Apdu.Apci.{
  Apci, Apdu, Segment, confirmed_request, unconfirmed_request, simple_ack, complex_ack, segment_ack,
  error, reject, abort,
}
use bacpypes.Apdu.Limits.{decode_max_segments_accepted, decode_max_apdu_length_accepted}
use bacpypes.Ssm.Reason
use bacpypes.Ssm.Types.{
  Segmentation, DeviceInfo, to_cache, can_receive, completed, aborted, segmented_request,
  await_response, segmented_both, segmented_transmit, segmented_receive, no_segmentation,
}
use bacpypes.Ssm.Monad.{Method, Done, pure, raise, gets, modify, send, lift, need, ◌>>=◌, ◌>>◌}
use bacpypes.Ssm.Steps.{set_state, start_timer, append_segment}
use bacpypes.Ssm.Server.Common.{hand_up, refuse, refuse_both, answer_device, server_segment_ack}

-- What a client that accepts segmented responses tells of its segmentation support, where the
-- device information has it otherwise.
unfoldable pub learned : Segmentation → Option Segmentation
learned no_segmentation = some segmented_receive
learned segmented_transmit = some segmented_both
learned segmented_receive = none
learned segmented_both = none

unfoldable pub update_info : DeviceInfo → Option Segmentation → Method Done
update_info info none = pure tt
update_info info (some supported) = do
  modify (λ s. record s { device_info = some (record info { segmentation_supported = supported }) })
  send (to_cache (record info { segmentation_supported = supported }))

unfoldable pub learn : Bool → Option DeviceInfo → Method Done
unfolding update_info
learn false info = pure tt
learn true none = pure tt
learn true (some info) = update_info info (learned info.segmentation_supported)

-- The length that the request tells, unless the device information has one that is not smaller.
unfoldable pub accepted_length : ℕ → Option DeviceInfo → ℕ
accepted_length len none = len
accepted_length len (some info) = elim info.max_apdu_length_accepted [
  | none ↦ len
  | some known ↦ if ltb known len then len else known
]

unfoldable pub first_segment : Apdu → Segment → Method Done
unfolding server_segment_ack
first_segment apdu seg = do
  modify (λ s. record s {
    segment_apdu = some apdu;
    actual_window_size = some (min seg.win s.settings.proposed_window_size);
    last_sequence_number = 0;
    initial_sequence_number = 0;
  })
  s ← gets (λ s. s)
  set_state segmented_request s.settings.segment_timeout
  server_segment_ack false s.initial_sequence_number

unfoldable pub request_begins : (Apdu → Bool) → Apdu → Option Segment → Method Done
unfolding hand_up first_segment refuse
request_begins decodes apdu none = do
  s ← gets (λ s. s)
  set_state await_response s.settings.application_timeout
  hand_up decodes apdu apdu.apci
request_begins decodes apdu (some seg) = do
  s ← gets (λ s. s)
  (if not (can_receive s.settings.segmentation_supported)
      then refuse Reason.segmentation_not_supported
      else first_segment apdu seg)

-- `ServerSSM.idle`, with the answer of the device information cache.
unfoldable pub on_idle : (Apdu → Bool) → Option DeviceInfo → Apdu → Apci → Method Done
unfolding learn request_begins
on_idle decodes info apdu (confirmed_request seg mor sa max_segs max_resp invoke_id service) = do
  modify (λ s. record s {
    invoke_id = invoke_id;
    device_info = info;
    segmented_response_accepted = sa;
  })
  learn sa info
  len ← lift (decode_max_apdu_length_accepted max_resp)
  modify (λ s. record s { max_apdu_length_accepted = accepted_length len s.device_info })
  segs ← lift (decode_max_segments_accepted max_segs)
  modify (λ s. record s { max_segments_accepted = segs })
  request_begins decodes apdu seg
on_idle decodes info apdu (unconfirmed_request service) = raise runtime_error
on_idle decodes info apdu (simple_ack invoke_id service) = raise runtime_error
on_idle decodes info apdu (complex_ack seg mor invoke_id service) = raise runtime_error
on_idle decodes info apdu (segment_ack nak srv invoke_id seq win) = raise runtime_error
on_idle decodes info apdu (error invoke_id service) = raise runtime_error
on_idle decodes info apdu (reject invoke_id reason) = raise runtime_error
on_idle decodes info apdu (abort srv invoke_id reason) = raise runtime_error

-- A segment of the request in order: the last one, the last of a window, or another.
unfoldable pub request_in_order : (Apdu → Bool) → Segment → Bool → Method Done
unfolding server_segment_ack hand_up
request_in_order decodes seg false = do
  s ← gets (λ s. s)
  server_segment_ack false s.last_sequence_number
  set_state await_response s.settings.application_timeout
  whole ← need s.segment_apdu runtime_error
  hand_up decodes whole whole.apci
request_in_order decodes seg true = do
  s ← gets (λ s. s)
  win ← need s.actual_window_size type_error
  (if seg.seq == (s.initial_sequence_number + win) % 256
      then (do
        modify (λ s'. record s' { initial_sequence_number = s'.last_sequence_number })
        start_timer s.settings.segment_timeout
        server_segment_ack false s.last_sequence_number)
      else start_timer s.settings.segment_timeout)

unfoldable pub request_segment : (Apdu → Bool) → Apdu → Option Segment → Bool → Method Done
unfolding refuse_both server_segment_ack request_in_order
request_segment decodes apdu none mor = refuse_both Reason.invalid_apdu_in_this_state
request_segment decodes apdu (some seg) mor = do
  s ← gets (λ s. s)
  (if not (seg.seq == (s.last_sequence_number + 1) % 256)
      then start_timer s.settings.segment_timeout
        >> server_segment_ack true s.initial_sequence_number
      else (do
        append_segment apdu.pdu_data
        modify (λ s'. record s' { last_sequence_number = (s'.last_sequence_number + 1) % 256 })
        request_in_order decodes seg mor))

-- `ServerSSM.segmented_request`
unfoldable pub on_request_segments : (Apdu → Bool) → Apdu → Apci → Method Done
unfolding answer_device request_segment refuse_both
on_request_segments decodes apdu (abort srv invoke_id reason) = answer_device completed apdu
on_request_segments decodes apdu
      (confirmed_request seg mor sa max_segs max_resp invoke_id service) =
    request_segment decodes apdu seg mor
on_request_segments decodes apdu (unconfirmed_request service) =
    refuse_both Reason.invalid_apdu_in_this_state
on_request_segments decodes apdu (simple_ack invoke_id service) =
    refuse_both Reason.invalid_apdu_in_this_state
on_request_segments decodes apdu (complex_ack seg mor invoke_id service) =
    refuse_both Reason.invalid_apdu_in_this_state
on_request_segments decodes apdu (segment_ack nak srv invoke_id seq win) =
    refuse_both Reason.invalid_apdu_in_this_state
on_request_segments decodes apdu (error invoke_id service) =
    refuse_both Reason.invalid_apdu_in_this_state
on_request_segments decodes apdu (reject invoke_id reason) =
    refuse_both Reason.invalid_apdu_in_this_state

-- `ServerSSM.segmented_request_timeout`
unfoldable pub request_segments_timeout : Method Done
request_segments_timeout = set_state aborted 0
