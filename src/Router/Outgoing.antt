-- ===== src/Router/Outgoing.antt =====
-- bacpypes3/netservice.py, class NetworkServiceAccessPoint: `indication`, by which the application
-- sends a PDU, `bind`, and `update_router_references`. The answer of `who_is_router_to_network` is an
-- argument: the adapters and the stations from which an I-Am-Router-To-Network came.
pub mod Reaches
pub mod Fresh
use bacpypes.Prelude.{
  ℕ, Bool, true, false, not, ◌||◌, Option, none, some, List, [], ◌∷◌, length, ltb, is_some,
  if◌then◌else◌,
}
use bacpypes.Pdu.{
  Result, ok, err, Bytes, attribute_error, runtime_error, configuration_error, unknown_route,
}
use bacpypes.Address.{
  Address, null_address, local_broadcast, global_broadcast, local_station, remote_station,
  remote_broadcast,
}
use bacpypes.Router.Keys.{net_key}
use bacpypes.Router.Dict.{Dict, lookup, put_key}
use bacpypes.Router.Nets.{Nets}
use bacpypes.Router.Cache.{RouterPath, Cache, update_path_info}
use bacpypes.Router.Routing.{
  Adapter, is_adapter, is_local, AccessPoint, RemoteSource, Sent, send_down, Trace, nothing, event,
  raises, and_then, with_result, new_source, to_others, find_path, last_leg, has_none,
}

-- `npdu.npduHopCount = 255`
abbrev pub first_hop_count : ℕ
first_hop_count = 255

-- The NPDU of an application message.
abbrev pub outgoing : Bytes → Address → Option Address → Option RemoteSource → Sent
outgoing d destination dadr sadr = record {
  destination = destination;
  dadr = dadr;
  sadr = sadr;
  hop_count = some first_hop_count;
  net_message = none;
  pdu_data = d;
}

-- `RemoteStation(local_adapter.adapterNet, local_adapter.adapterAddr.addrAddr)`
abbrev pub source_at : Option ℕ → Option Bytes → Result RemoteSource
source_at net none = err attribute_error
source_at net (some addr) = new_source net addr

abbrev pub source_of : Option Adapter → Result RemoteSource
source_of none = err attribute_error
source_of (some l) = source_at l.adapter_net l.adapter_addr

abbrev pub to_local : Option Adapter → Sent → Trace
to_local none sent = nothing
to_local (some l) sent = event (send_down l sent)

-- A global broadcast: to the local adapter, and as a routed one to the others.
unfoldable pub broadcast_globally : Dict (Option ℕ) Adapter → Option Adapter → Bytes → Trace
unfolding to_others new_source
broadcast_globally adapters none d = raises attribute_error
broadcast_globally adapters (some l) d =
    and_then (event (send_down l (outgoing d local_broadcast (some global_broadcast) none))) (
      if ltb 1 (length adapters)
      then with_result (source_of (some l))
          (λ s. to_others l (outgoing d local_broadcast (some global_broadcast) (some s)) adapters)
      else nothing)

-- To a network of an adapter: as a routed PDU, unless it is the local one.
unfoldable pub send_direct : Option Adapter → Adapter → Address → Bytes → Trace
unfolding new_source
send_direct l x destination d =
    if is_local x l
    then event (send_down x (outgoing d (last_leg destination) none none))
    else with_result (source_of l)
        (λ s. event (send_down x (outgoing d (last_leg destination) none (some s))))

-- Through the router that answered, if it is the only one.
abbrev pub by_answer : List (Adapter × Address) → Address → Bytes → Trace
by_answer [] destination d = raises unknown_route
by_answer (a ∷ []) destination d = event (send_down a.0 (outgoing d a.1 (some destination) none))
by_answer (a ∷ b ∷ answers) destination d = raises unknown_route

abbrev pub by_path :
    Option (Adapter × RouterPath) → List (Adapter × Address) → Address → Bytes → Trace
by_path none answers destination d = by_answer answers destination d
by_path (some (x, p)) answers destination d =
    event (send_down x (outgoing d p.0 (some destination) none))

unfoldable pub send_remote :
    AccessPoint → Cache → List (Adapter × Address) → ℕ → Address → Bytes → Option Adapter → Trace
unfolding send_direct find_path
send_remote p c answers dnet destination d (some x) = send_direct p.local_adapter x destination d
send_remote p c answers dnet destination d none =
    by_path (find_path c dnet p.adapters) answers destination d

unfoldable pub send_to : AccessPoint → Cache → List (Adapter × Address) → Address → Bytes → Trace
unfolding broadcast_globally send_remote lookup
send_to p c answers null_address d = raises runtime_error
send_to p c answers (local_station addr) d =
    to_local p.local_adapter (outgoing d (local_station addr) none none)
send_to p c answers local_broadcast d =
    to_local p.local_adapter (outgoing d local_broadcast none none)
send_to p c answers global_broadcast d = broadcast_globally p.adapters p.local_adapter d
send_to p c answers (remote_station net addr) d =
    send_remote p c answers net (remote_station net addr) d (lookup net_key (some net) p.adapters)
send_to p c answers (remote_broadcast net) d =
    send_remote p c answers net (remote_broadcast net) d (lookup net_key (some net) p.adapters)

-- `indication`
unfoldable pub indication : AccessPoint → Cache → List (Adapter × Address) → Address → Bytes → Trace
unfolding send_to
indication p c answers destination d =
    if has_none p.adapters || not p.has_service_element
    then raises configuration_error
    else send_to p c answers destination d

-- `bind`: an adapter for a network, which is the local one if there is none.
unfoldable pub bind : AccessPoint → ℕ → Option ℕ → Option Bytes → Result AccessPoint
unfolding lookup put_key
bind p adapter_id net address =
    let adapter : Adapter = record {
      adapter_id = adapter_id;
      adapter_net = net;
      adapter_addr = address;
    } in
    if is_some (lookup net_key net p.adapters)
    then err runtime_error
    else ok (record p {
      adapters = put_key net_key net adapter p.adapters;
      local_adapter = elim p.local_adapter [ none ↦ some adapter | some l ↦ some l ];
    })

-- `update_router_references`
unfoldable pub update_router_references :
    AccessPoint → Option ℕ → Address → Nets → Cache → Result Cache
unfolding lookup update_path_info
update_router_references p snet address dnets c =
    if is_some (lookup net_key snet p.adapters)
    then update_path_info snet address dnets c
    else err runtime_error
