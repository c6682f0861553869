-- ===== src/Ssm/Tests.antt =====
-- A client transaction on concrete messages, and the theorems at concrete inputs.
use bacpypes.Prelude.{Bool, Option, ◌≡◌, refl, true, false, none, some, [], ◌∷◌, arith}
use bacpypes.Apdu.Apci.{Apdu, confirmed_request, segment_ack, complex_ack, Segment, Apci}
use bacpypes.Pdu.{ok}
use bacpypes.Ssm.Types.{
  Settings, Ssm, World, to_application, await_confirmation, await_response, idle, segmented_request,
  segmented_both,
}
use bacpypes.Apdu.Limits.{
  encode_max_segments_accepted, find_segments, encode_max_apdu_length_accepted, find_length,
}
use bacpypes.Ssm.Steps.{count_segments, segment_header}
use bacpypes.Ssm.Segments.{extended, IsSending, gathered, gathered-get_segment}
use bacpypes.Ssm.Client.Reassembly.{Completes, deliver_all, deliver_all-Completes, receiving}
use bacpypes.Ssm.Server
use bacpypes.Ssm.Server.Reassembly.{
  HandsUp, receive_all, request_receiving, so_far, receive_all-HandsUp,
}
use bacpypes.Ssm.Server.Live.{
  server_indication-IsLive, response-IsLive, server_timer_expired-IsLive,
}
use bacpypes.Ssm.Steps.{fill_window}
use bacpypes.Ssm.Window.{after, fill_window_lem}
use bacpypes.Ssm.Keeps.{IsLive, Kept}
use bacpypes.Ssm.Client.{segment_size_for, indication, confirmation, timer_expired}
use bacpypes.Ssm.Client.Live.Request.{indication-IsLive}
use bacpypes.Ssm.Client.Live.{confirmation-IsLive, timer_expired-IsLive}

abbrev settings : Settings
settings = record {
  number_of_apdu_retries = 3;
  apdu_timeout = 3000;
  segment_timeout = 1500;
  application_timeout = 3000;
  segmentation_supported = segmented_both;
  proposed_window_size = 2;
}

-- A request of seven octets, cut into segments of three.
abbrev request : Apdu
request = record {
  apci = confirmed_request none false true 0 5 7 14;
  pdu_data = 10 ∷ 11 ∷ 12 ∷ 13 ∷ 14 ∷ 15 ∷ 16 ∷ [];
}

abbrev at_start : Ssm
at_start = record {
  settings = settings;
  state = idle;
  invoke_id = 7;
  device_info = none;
  segment_apdu = none;
  segment_size = none;
  segment_count = none;
  retry_count = 0;
  segment_retry_count = 0;
  sent_all_segments = false;
  last_sequence_number = 0;
  initial_sequence_number = 0;
  actual_window_size = none;
  max_segments_accepted = some 16;
  max_apdu_length_accepted = 1024;
  segmented_response_accepted = true;
  timer = none;
  tracked = true;
}

abbrev sending : Ssm
sending = record at_start {
  state = segmented_request;
  segment_apdu = some request;
  segment_size = some 3;
  segment_count = some 3;
  timer = some 1500;
}

abbrev world_of : Ssm → World
world_of s = record { ssm = s; sent = [] }

at_start-IsLive : IsLive at_start
unfolding IsLive
at_start-IsLive = (refl, omega arith, λ e. ground arith)

sending-IsLive : IsLive sending
unfolding IsLive
sending-IsLive = (refl, omega arith, λ e. refl)

-- An ack of the first segment with a window of two segments.
abbrev ack : Apdu
ack = record { apci = segment_ack false true 7 0 2; pdu_data = [] }

indication-IsLive_example : Kept (indication none true request (world_of at_start))
indication-IsLive_example = indication-IsLive none true request (world_of at_start) at_start-IsLive

confirmation-IsLive_example : Kept (confirmation ack (world_of sending))
confirmation-IsLive_example = confirmation-IsLive ack (world_of sending) sending-IsLive

-- A whole request that waits for its answer.
abbrev awaiting : Ssm
awaiting = record at_start {
  state = await_confirmation;
  segment_apdu = some request;
  segment_size = some 1024;
  segment_count = some 1;
  sent_all_segments = true;
  timer = some 3000;
}

awaiting-IsLive : IsLive awaiting
unfolding IsLive
awaiting-IsLive = (refl, omega arith, λ e. refl)

timer_expired-IsLive_example : Kept (timer_expired none true (world_of awaiting))
unfolding segment_size_for
timer_expired-IsLive_example =
    timer_expired-IsLive none true (world_of awaiting) awaiting-IsLive
      (request, refl, refl, omega arith)

-- The same once a window size is known.
abbrev with_window : Ssm
with_window = record sending { actual_window_size = some 2 }

abbrev request_header : Option Segment → Bool → Apci
request_header seg mor = confirmed_request seg mor true 4 4 7 14

with_window-IsSending : IsSending with_window request 3 3 2 request_header
unfolding count_segments segment_header encode_max_segments_accepted find_segments
    encode_max_apdu_length_accepted find_length
with_window-IsSending = record {
  segment_apdu = refl;
  segment_size = refl;
  segment_count = refl;
  actual_window_size = refl;
  counted = refl;
  size_set = omega arith;
  has_header = refl;
}

gathered-get_segment_example :
    gathered 0 3 (world_of with_window) ≡ (ok request.pdu_data, world_of with_window)
gathered-get_segment_example =
    gathered-get_segment (world_of with_window) request 3 3 2 request_header with_window-IsSending

-- The first segment of an answer.
abbrev answer : Apdu
answer = record {
  apci = complex_ack (some (record { seq = 0; win = 2 })) true 7 14;
  pdu_data = 30 ∷ [];
}

deliver_all-Completes_example : Completes (extended answer (31 ∷ 32 ∷ [])) [] (
    deliver_all 7 14 2 2 0
      (31 ∷ [])
      ((32 ∷ []) ∷ [])
      (record { ssm = receiving at_start answer 0 2; sent = [] }))
deliver_all-Completes_example =
    deliver_all-Completes 7 14 2 2 at_start answer 0 [] (31 ∷ []) ((32 ∷ []) ∷ [])

server_indication-IsLive_example :
    Kept (Server.indication (λ a. true) none request (world_of at_start))
server_indication-IsLive_example =
    server_indication-IsLive (λ a. true) none request (world_of at_start) at_start-IsLive

-- A transaction whose application works on its answer.
abbrev answering : Ssm
answering = record at_start { state = await_response; timer = some 3000 }

answering-IsLive : IsLive answering
unfolding IsLive
answering-IsLive = (refl, omega arith, λ e. refl)

response-IsLive_example : Kept (Server.confirmation answer (world_of answering))
response-IsLive_example = response-IsLive answer (world_of answering) answering-IsLive

server_timer_expired-IsLive_example : Kept (Server.timer_expired (world_of answering))
server_timer_expired-IsLive_example =
    server_timer_expired-IsLive (world_of answering) answering-IsLive tt

fill_window_lem_example :
    fill_window 1 (world_of with_window)
    ≡ (ok tt, after with_window request 3 3 2 request_header with_window-IsSending 2 1 [])
fill_window_lem_example =
    fill_window_lem with_window request 3 3 2 request_header with_window-IsSending 1 []
      (omega arith) (omega arith)

receive_all-HandsUp_example :
    HandsUp
      (to_application (record {
        apci = confirmed_request (some (record { seq = 0; win = 4 })) true true 4 4 7 14;
        pdu_data = 40 ∷ 41 ∷ 42 ∷ [];
      }))
      []
      (receive_all
        (λ a. true)
        none
        4
        4
        7
        14
        4
        2
        true
        0
        (41 ∷ [])
        ((42 ∷ []) ∷ [])
        (record {
          ssm =
              request_receiving at_start (so_far (λ a. true) none 4 4 7 14 4 2 true (40 ∷ [])) 0 2;
          sent = [];
        }))
receive_all-HandsUp_example =
    receive_all-HandsUp (λ a. true) none 4 4 7 14 4 2 true at_start (40 ∷ []) 0 [] (41 ∷ [])
      ((42 ∷ []) ∷ [])
