-- ===== src/Router/Routing/Tests.antt =====
-- Runs of the routing on a router with two networks, and its theorems at concrete inputs.
use bacpypes.Prelude.{ℕ, ◌+◌, ◌≡◌, refl, true, none, some, [], ◌∷◌, inl}
use bacpypes.Pdu.{attribute_error}
use bacpypes.Address.{local_station, remote_station}
use bacpypes.Router.Keys.{net_key, by_discrete, Net-discrete, ℕ_discrete}
use bacpypes.Router.Dict.{lookup}
use bacpypes.Router.Nets.{member}
use bacpypes.Router.Cache.{new_cache, get_path_info, get_router_dnets}
use bacpypes.Router.Cache.Table.{Table, Implements}
use bacpypes.Router.Cache.Views.{serves}
use bacpypes.Router.Routing.{
  Adapter, AccessPoint, Npdu, Sent, send_down, new_source, verdict, find_path, by_router, send_on,
  forward_hops, forward_npdu, deliver, route, process_source, process_npdu,
}
use bacpypes.Router.Routing.Traces.{Happens}
use bacpypes.Router.Routing.Forward.{IsOnward, process_npdu-Onward}
use bacpypes.Router.Routing.Journey.{Journey, stay, through, arrives, hop_count-Journey}
use bacpypes.Router.Routing.Learns.{Learned, learn_source, process_npdu-Implements}

abbrev first_adapter : Adapter
first_adapter = record { adapter_id = 1; adapter_net = some 1; adapter_addr = some (10 ∷ []) }

abbrev second_adapter : Adapter
second_adapter = record { adapter_id = 2; adapter_net = some 2; adapter_addr = some (20 ∷ []) }

abbrev access_point : AccessPoint
access_point = record {
  adapters = (some 1, first_adapter) ∷ (some 2, second_adapter) ∷ [];
  local_adapter = some first_adapter;
  has_service_element = true;
  has_server_peer = true;
  service_element = λ adapter npdu c. (c, none);
}

-- From station 7 of network 1 to station 8 of network 2.
abbrev request : Npdu
request = record {
  pdu_source = 7 ∷ [];
  pdu_destination = local_station (10 ∷ []);
  dadr = some (remote_station 2 (8 ∷ []));
  sadr = none;
  hop_count = some 255;
  net_message = none;
  pdu_data = 1 ∷ 2 ∷ 3 ∷ [];
}

abbrev request_sent : Sent
request_sent = record {
  destination = local_station (8 ∷ []);
  dadr = none;
  sadr = some (record { addr_net = 1; addr_addr = 7 ∷ [] });
  hop_count = some 254;
  net_message = none;
  pdu_data = 1 ∷ 2 ∷ 3 ∷ [];
}

request_is_routed :
    process_npdu access_point new_cache 0 first_adapter request
    ≡ (new_cache, (send_down second_adapter request_sent ∷ [], none))
unfolding process_npdu process_source route verdict deliver forward_npdu forward_hops send_on
    new_source lookup net_key by_discrete Net-discrete ℕ_discrete
request_is_routed = refl

-- To a network that no router is known for, with one answer.
abbrev far_request : Npdu
far_request = record request { dadr = some (remote_station 9 (8 ∷ [])) }

one_answer_raises :
    process_npdu access_point new_cache 1 first_adapter far_request
    ≡ (new_cache, ([], some attribute_error))
unfolding process_npdu process_source route verdict deliver forward_npdu forward_hops send_on
    new_source lookup net_key by_discrete Net-discrete ℕ_discrete by_router find_path get_path_info
one_answer_raises = refl

process_npdu-Onward_example :
    Happens
      (IsOnward first_adapter request)
      (process_npdu access_point new_cache 0 first_adapter request).1
process_npdu-Onward_example = process_npdu-Onward access_point 0 first_adapter request new_cache

request-Journey : Journey 1 request (arrives request_sent (20 ∷ []))
unfolding process_npdu process_source route verdict deliver forward_npdu forward_hops send_on
    new_source lookup net_key by_discrete Net-discrete ℕ_discrete
request-Journey =
    through 0 access_point new_cache 0 first_adapter second_adapter request
      (arrives request_sent (20 ∷ [])) request_sent (20 ∷ []) (inl refl)
      (stay (arrives request_sent (20 ∷ [])))

hop_count-Journey_example :
    (left : ℕ) × ((arrives request_sent (20 ∷ [])).hop_count ≡ some left) × (1 + left ≡ 255)
hop_count-Journey_example =
    hop_count-Journey 1 255 request (arrives request_sent (20 ∷ [])) request-Journey refl

abbrev no_paths : Table
no_paths s n = none

new_cache-Implements : Implements new_cache no_paths
unfolding get_path_info get_router_dnets serves lookup member
new_cache-Implements = record { paths = λ s n. refl; routers = λ s a n. refl }

abbrev routed_request : Npdu
routed_request = record request { sadr = some (record { addr_net = 5; addr_addr = 3 ∷ [] }) }

process_npdu-Implements_example :
    Learned access_point first_adapter routed_request
      (learn_source access_point first_adapter routed_request routed_request.sadr no_paths)
      (process_npdu access_point new_cache 0 first_adapter routed_request)
process_npdu-Implements_example =
    process_npdu-Implements access_point new_cache no_paths 0 first_adapter routed_request refl refl
      new_cache-Implements
