-- ===== src/Ssm/Client/Request.antt =====
-- bacpypes3/appservice.py, class ClientSSM: the request, whole or in segments.
use bacpypes.Prelude.{
  ℕ, ◌+◌, ◌%◌, Bool, true, false, not, ◌&&◌, Option, none, some, length, ltb, leb, ◌==◌,
  if◌then◌else◌, min,
}
use bacpypes.Pdu.{runtime_error}
use bacpypes.Apdu.Apci.{
  Apci, Apdu, Segment, confirmed_request, unconfirmed_request, simple_ack, complex_ack, segment_ack,
  error, reject, abort,
}
use bacpypes.Ssm.Reason
use bacpypes.Ssm.Types.{
  Segmentation, DeviceInfo, to_device, communication_error, can_receive, can_transmit, completed,
  segmented_request, await_confirmation, segmented_confirmation,
}
use bacpypes.Ssm.Monad.{Method, Done, raise, gets, modify, send, lift, need, ◌>>=◌, ◌>>◌}
use bacpypes.Ssm.Steps.{set_state, start_timer, get_segment, in_window, fill_window, count_segments}
use bacpypes.Ssm.Client.Common.{give_up, give_up_both, finish}

-- The segment size that fits what is known of the server.
unfoldable pub segment_size_for : ℕ → Option DeviceInfo → ℕ
segment_size_for own none = own
segment_size_for own (some info) = elim info.max_apdu_length_accepted [
  | none ↦ own
  | some apdu ↦ elim info.max_npdu_length [ none ↦ apdu | some npdu ↦ min npdu apdu ]
]

abbrev pub over_limit : ℕ → Option ℕ → Bool
over_limit count none = false
over_limit count (some most) = not (most == 0) && ltb most count

abbrev pub peer_refusal : ℕ → Option DeviceInfo → Option ℕ
peer_refusal count none = none
peer_refusal count (some info) =
    if not (can_receive info.segmentation_supported)
    then some Reason.segmentation_not_supported
    else if over_limit count info.max_segments_accepted
    then some Reason.apdu_too_long
    else none

-- The reason to refuse a request of `count` segments, if there is one.
unfoldable pub request_refusal : Segmentation → ℕ → Option DeviceInfo → Option ℕ
request_refusal supported count info =
    if leb count 1
    then none
    else if not (can_transmit supported)
    then some Reason.segmentation_not_supported
    else peer_refusal count info

-- The first segment, or the whole request, is on its way; `delivered` says whether the network
-- layer took it or raised a CommunicationError.
unfoldable pub deliver : Bool → ℕ → ℕ → Method Done
deliver delivered invoke_id service = do
  apdu ← get_segment 0
  (if delivered
      then send (to_device apdu)
      else set_state completed 0 >> send (communication_error invoke_id service))

unfoldable pub begin : ℕ → Method Done
begin count = do
  s ← gets (λ s. s)
  (if count == 1
      then (do
        modify (λ s. record s { sent_all_segments = true; retry_count = 0 })
        set_state await_confirmation s.settings.apdu_timeout)
      else (do
        modify (λ s. record s {
          sent_all_segments = false;
          retry_count = 0;
          segment_retry_count = 0;
          initial_sequence_number = 0;
          actual_window_size = none;
        })
        set_state segmented_request s.settings.segment_timeout))

unfoldable pub start_or_refuse : Option ℕ → Bool → ℕ → ℕ → ℕ → Method Done
unfolding give_up begin deliver
start_or_refuse (some reason) delivered count invoke_id service = give_up reason
start_or_refuse none delivered count invoke_id service = do
  begin count
  deliver delivered invoke_id service

unfoldable pub start_request : Option DeviceInfo → Bool → Apdu → ℕ → ℕ → Method Done
unfolding start_or_refuse
start_request info delivered apdu invoke_id service = do
  modify (λ s. record s {
    segment_apdu = some apdu;
    device_info = info;
    segment_size = some (segment_size_for s.max_apdu_length_accepted info);
    invoke_id = invoke_id;
  })
  s ← gets (λ s. s)
  size ← need s.segment_size runtime_error
  count ← lift (count_segments (length apdu.pdu_data) size)
  modify (λ s. record s { segment_count = some count })
  start_or_refuse (request_refusal s.settings.segmentation_supported count info) delivered count
      invoke_id service

unfoldable pub indication_apci : Option DeviceInfo → Bool → Apdu → Apci → Method Done
unfolding start_request
indication_apci info delivered apdu
      (confirmed_request seg mor sa max_segs max_resp invoke_id service) =
    start_request info delivered apdu invoke_id service
indication_apci info delivered apdu (unconfirmed_request service) = raise runtime_error
indication_apci info delivered apdu (simple_ack invoke_id service) = raise runtime_error
indication_apci info delivered apdu (complex_ack seg mor invoke_id service) = raise runtime_error
indication_apci info delivered apdu (segment_ack nak srv invoke_id seq win) = raise runtime_error
indication_apci info delivered apdu (error invoke_id service) = raise runtime_error
indication_apci info delivered apdu (reject invoke_id reason) = raise runtime_error
indication_apci info delivered apdu (abort srv invoke_id reason) = raise runtime_error

-- `ClientSSM.indication`, with the answer of the device information cache.
unfoldable pub indication : Option DeviceInfo → Bool → Apdu → Method Done
unfolding indication_apci
indication info delivered apdu = indication_apci info delivered apdu apdu.apci

-- A SegmentAck in SEGMENTED_REQUEST.
unfoldable pub request_acked : ℕ → ℕ → Method Done
request_acked seq win = do
  modify (λ s. record s { actual_window_size = some win })
  s ← gets (λ s. s)
  inside ← in_window seq s.initial_sequence_number
  (if not inside
      then start_timer s.settings.segment_timeout
      else if s.sent_all_segments
      then set_state await_confirmation s.settings.apdu_timeout
      else (do
        modify
            (λ s. record s { initial_sequence_number = (seq + 1) % 256; segment_retry_count = 0 })
        fill_window ((seq + 1) % 256)
        start_timer s.settings.segment_timeout))

-- A segmented ComplexAck in SEGMENTED_REQUEST.
unfoldable pub response_begins : Apdu → Segment → Method Done
response_begins apdu seg = do
  modify (λ s. record s {
    segment_apdu = some apdu;
    actual_window_size = some (min seg.win s.settings.proposed_window_size);
    last_sequence_number = 0;
    initial_sequence_number = 0;
  })
  s ← gets (λ s. s)
  set_state segmented_confirmation s.settings.segment_timeout

unfoldable pub request_answered : Apdu → Option Segment → Method Done
unfolding finish response_begins
request_answered apdu none = finish completed apdu
request_answered apdu (some seg) = response_begins apdu seg

-- An ack that is only right once all segments were sent.
unfoldable pub when_all_sent : Method Done → Method Done
unfolding give_up_both
when_all_sent m = do
  s ← gets (λ s. s)
  if s.sent_all_segments then m else give_up_both Reason.invalid_apdu_in_this_state

-- `ClientSSM.segmented_request`
unfoldable pub on_segmented_request : Apdu → Apci → Method Done
unfolding request_acked request_answered when_all_sent finish
on_segmented_request apdu (segment_ack nak srv invoke_id seq win) = request_acked seq win
on_segmented_request apdu (simple_ack invoke_id service) = when_all_sent (finish completed apdu)
on_segmented_request apdu (complex_ack seg mor invoke_id service) =
    when_all_sent (request_answered apdu seg)
on_segmented_request apdu (error invoke_id service) = finish completed apdu
on_segmented_request apdu (reject invoke_id reason) = finish completed apdu
on_segmented_request apdu (abort srv invoke_id reason) = finish completed apdu
on_segmented_request apdu (unconfirmed_request service) = raise runtime_error
on_segmented_request apdu (confirmed_request seg mor sa max_segs max_resp invoke_id service) =
    raise runtime_error

-- `ClientSSM.segmented_request_timeout`
unfoldable pub segmented_request_timeout : Method Done
unfolding give_up
segmented_request_timeout = do
  s ← gets (λ s. s)
  (if ltb s.segment_retry_count s.settings.number_of_apdu_retries
      then (do
        modify (λ s'. record s' { segment_retry_count = s.segment_retry_count + 1 })
        start_timer s.settings.segment_timeout
        (if s.initial_sequence_number == 0
            then (get_segment 0 >>= λ a. send (to_device a))
            else fill_window s.initial_sequence_number))
      else give_up Reason.no_response)
