-- ===== src/Sap/Tests.antt =====
-- An access point on concrete messages, and its theorems at concrete inputs.
use bacpypes.Prelude.{refl, true, false, none, some, List, [], ◌∷◌, arith}
use bacpypes.Apdu.Apci.{Apdu, confirmed_request, simple_ack}
use bacpypes.Address.{Address, local_station}
use bacpypes.Ssm.Types.{Ssm, await_confirmation, Settings, segmented_both}
use bacpypes.Apdu.Limits.{
  decode_max_apdu_length_accepted, decode_max_segments_accepted, encode_max_segments_accepted,
  encode_max_apdu_length_accepted,
}
use bacpypes.Ssm.Steps.{set_state, count_segments, get_segment, segment_header, segment_of}
use bacpypes.Ssm.Server
use bacpypes.Ssm.Client
use bacpypes.Sap.{
  Sap, enable, new_transaction, sap_indication, request_controlled, begin_request, run_first,
  run_new, receive, receive_controlled, confirmation,
}
use bacpypes.Sap.Lists.{AllLive, IsSound}
use bacpypes.Sap.Live.{
  happen, client_expires, Happening, arrives, requests, server_expires, run_all, run_all-IsSound,
}
use bacpypes.Sap.Answers.{IsAnswered, receive-IsAnswered}

abbrev settings : Settings
settings = record {
  number_of_apdu_retries = 3;
  apdu_timeout = 3000;
  segment_timeout = 1500;
  application_timeout = 3000;
  segmentation_supported = segmented_both;
  proposed_window_size = 2;
}

abbrev new_sap : Sap
new_sap = record {
  client_transactions = [];
  server_transactions = [];
  dcc_enable_disable = enable;
  settings = settings;
  max_segments_accepted = some 16;
  max_apdu_length_accepted = 1024;
}

new_sap-IsSound : IsSound new_sap
unfolding AllLive
new_sap-IsSound = record { clients_live = tt; servers_live = tt; timeouts_set = omega arith }

abbrev peer : Address
peer = local_station (7 ∷ [])

abbrev request : Apdu
request = record { apci = confirmed_request none false false 0 5 7 14; pdu_data = 10 ∷ 11 ∷ [] }

abbrev response : Apdu
response = record { apci = simple_ack 7 14; pdu_data = [] }

-- A request to a server expires; one of a client is sent again when its timer expires, and then
-- answered.
abbrev history : List Happening
history =
    arrives (λ apdu. true) none peer request
    ∷ requests none true peer request
    ∷ server_expires (λ tr. true)
    ∷ client_expires none true (λ tr. true)
    ∷ arrives (λ apdu. true) none peer response
    ∷ []

run_all-IsSound_example : IsSound (run_all new_sap history)
unfolding happen confirmation receive_controlled receive run_first run_new Server.indication
    sap_indication request_controlled begin_request Client.indication
    decode_max_apdu_length_accepted decode_max_segments_accepted set_state count_segments
    Client.segment_size_for Client.request_refusal get_segment segment_header
    encode_max_segments_accepted encode_max_apdu_length_accepted segment_of
run_all-IsSound_example =
    run_all-IsSound new_sap history
      (tt, (tt, (((λ e. tt), tt), (((λ e. (request, refl, refl, omega arith)), tt), (tt, tt)))))
      new_sap-IsSound

-- An access point with two requests that wait for their answers.
abbrev awaiting : Ssm
awaiting = record (new_transaction new_sap peer).ssm {
  state = await_confirmation;
  invoke_id = 7;
  segment_apdu = some request;
  segment_size = some 1024;
  segment_count = some 1;
  sent_all_segments = true;
  timer = some 3000;
}

abbrev two_requests : Sap
two_requests = record new_sap {
  client_transactions =
      record { pdu_address = local_station (6 ∷ []); ssm = awaiting }
      ∷ record { pdu_address = peer; ssm = awaiting }
      ∷ [];
}

receive-IsAnswered_example :
    IsAnswered two_requests 7 peer response
      (receive two_requests (λ apdu. true) none peer response response.apci)
receive-IsAnswered_example =
    receive-IsAnswered two_requests (λ apdu. true) none peer response response.apci 7 refl
