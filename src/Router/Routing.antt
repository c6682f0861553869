-- ===== src/Router/Routing.antt =====
-- bacpypes3/netservice.py, class NetworkServiceAccessPoint: `process_npdu` and `indication`. What
-- is sent down, up to the application and to the service element is a list of events, in the order
-- in which they happen; those before an exception stay. The answer of
-- `who_is_router_to_network` is an argument. `settings.route_aware` is off.
--
-- A PDU that goes up has the address of a station for its source, and the source in a network header
-- is a remote station, as NPCI.decode gives it.
pub mod Traces
pub mod Forward
pub mod Journey
pub mod Learns
mod Tests
use bacpypes.Prelude.{
  ℕ, zero, suc, ◌-◌, Bool, true, false, not, ◌&&◌, ◌||◌, Option, none, some, List, [], ◌∷◌, ◌++◌,
  length, ltb, leb, ◌==◌, is_some, if◌then◌else◌,
}
use bacpypes.Pdu.{
  Error, Result, ok, err, Bytes, value_error, type_error, attribute_error, assertion_error,
  configuration_error, unknown_route,
}
use bacpypes.Address.{
  Address, null_address, local_broadcast, global_broadcast, local_station, remote_station,
  remote_broadcast,
}
use bacpypes.Npdu.Message.{npdu_types, find_type}
use bacpypes.Router.Keys.{Key, net_key, number_key, pair_key, same_net, same_address}
use bacpypes.Router.Dict.{Dict, lookup}
use bacpypes.Router.Cache.{RouterPath, Cache, get_path_info, update_path_info}

-- NetworkAdapter: its identity, `adapterNet`, and the octets of `adapterAddr`.
pub record Adapter : Type 0 where
  pub adapter_id : ℕ
  pub adapter_net : Option ℕ
  pub adapter_addr : Option Bytes

abbrev pub is_adapter : Adapter → Adapter → Bool
is_adapter a b = a.adapter_id == b.adapter_id

-- RemoteStation, with `addrNet` and `addrAddr`
pub record RemoteSource : Type 0 where
  pub addr_net : ℕ
  pub addr_addr : Bytes

-- An NPDU as it arrives, with the addresses of the link layer.
pub record Npdu : Type 0 where
  pub pdu_source : Bytes
  pub pdu_destination : Address
  pub dadr : Option Address
  pub sadr : Option RemoteSource
  pub hop_count : Option ℕ
  pub net_message : Option ℕ
  pub pdu_data : Bytes

-- The access point: `adapters`, `local_adapter`, and whether it has a service element and a server
-- peer. `service_element` stands for NetworkServiceElement.confirmation, whose handlers are not
-- modelled: of a network layer message and the cache, the cache that they leave, and the exception.
pub record AccessPoint : Type 0 where
  pub adapters : Dict (Option ℕ) Adapter
  pub local_adapter : Option Adapter
  pub has_service_element : Bool
  pub has_server_peer : Bool
  pub service_element : Adapter → Npdu → Cache → Cache × Option Error

-- An NPDU that is sent down an adapter, which fills in the link layer's source.
pub record Sent : Type 0 where
  pub destination : Address
  pub dadr : Option Address
  pub sadr : Option RemoteSource
  pub hop_count : Option ℕ
  pub net_message : Option ℕ
  pub pdu_data : Bytes

pub data Event : Type 0 where
  send_down : Adapter → Sent → Event
  respond : Address → Address → Bytes → Event
  sap_request : Adapter → Npdu → Event

-- What happened, and the exception that ended it.
abbrev pub Trace : Type 0
Trace = List Event × Option Error

abbrev pub nothing : Trace
nothing = ([], none)

abbrev pub event : Event → Trace
event e = (e ∷ [], none)

abbrev pub raises : Error → Trace
raises e = ([], some e)

-- One after the other, if the first has not raised.
abbrev pub then_after : Option Error → List Event → Trace → Trace
then_after none first (rest, e) = (first ++ rest, e)
then_after (some e) first rest = (first, some e)

abbrev pub and_then : Trace → Trace → Trace
and_then (first, e) rest = then_after e first rest

abbrev pub with_result : {A : Type 0} → Result A → (A → Trace) → Trace
with_result (ok a) f = f a
with_result (err e) f = raises e

-- `RemoteStation(net, addr)` with the octets of a station.
unfoldable pub new_source : Option ℕ → Bytes → Result RemoteSource
new_source none addr = err type_error
new_source (some net) addr =
    if leb 65535 net then err value_error else ok (record { addr_net = net; addr_addr = addr })

abbrev pub station_of : RemoteSource → Address
station_of s = remote_station s.addr_net s.addr_addr

abbrev pub source_or : Option RemoteSource → Result RemoteSource → Result RemoteSource
source_or none r = r
source_or (some s) r = ok s

-- Whether the PDU is for the application or the service element here, and whether for other
-- networks; or it is dropped, or an assertion fails.
pub data Verdict : Type 0 where
  dropped : Verdict
  failed : Error → Verdict
  routed : Bool → Bool → Verdict

abbrev pub is_local : Adapter → Option Adapter → Bool
is_local adapter none = false
is_local adapter (some l) = is_adapter adapter l

abbrev pub same_bytes : Bytes → Bytes → Bool
same_bytes [] [] = true
same_bytes [] (b ∷ d) = false
same_bytes (a ∷ c) [] = false
same_bytes (a ∷ c) (b ∷ d) = a == b && same_bytes c d

-- `npdu.npduDADR.addrAddr == self.local_adapter.adapterAddr.addrAddr`
abbrev pub station_verdict : Bytes → Option Bytes → Verdict
station_verdict addr none = failed attribute_error
station_verdict addr (some own) = routed (same_bytes addr own) (not (same_bytes addr own))

abbrev pub broadcast_verdict : ℕ → Adapter → Option Adapter → Verdict
broadcast_verdict net adapter none = failed assertion_error
broadcast_verdict net adapter (some l) =
    if same_net (some net) adapter.adapter_net
    then dropped
    else routed (same_net (some net) l.adapter_net) true

abbrev pub remote_verdict : ℕ → Bytes → Adapter → Option Adapter → Verdict
remote_verdict net addr adapter none = failed assertion_error
remote_verdict net addr adapter (some l) =
    if same_net (some net) adapter.adapter_net
    then dropped
    else if same_net (some net) l.adapter_net
    then station_verdict addr l.adapter_addr
    else routed false true

-- The check for destination routing.
unfoldable pub verdict : Adapter → Option Adapter → Option ℕ → Option Address → Verdict
verdict adapter l message none = routed (is_local adapter l || is_some message) false
verdict adapter l message (some null_address) = routed (is_local adapter l || is_some message) false
verdict adapter l message (some local_broadcast) = dropped
verdict adapter l message (some (local_station addr)) = dropped
verdict adapter l message (some global_broadcast) = routed true true
verdict adapter l message (some (remote_broadcast net)) = broadcast_verdict net adapter l
verdict adapter l message (some (remote_station net addr)) = remote_verdict net addr adapter l

-- `adapterAddr` as a destination; the null address stands for None.
abbrev pub own_address : Option Bytes → Address
own_address none = null_address
own_address (some addr) = local_station addr

-- The destination of an application message that came in on another adapter than the local one.
abbrev pub mapped_destination : Option Address → Adapter → Address
mapped_destination none l = own_address l.adapter_addr
mapped_destination (some global_broadcast) l = global_broadcast
mapped_destination (some (remote_broadcast net)) l = local_broadcast
mapped_destination (some a) l = own_address l.adapter_addr

abbrev pub kept_destination : Option Address → Address → Address
kept_destination (some global_broadcast) destination = global_broadcast
kept_destination dadr destination = destination

abbrev pub kept_source : Option RemoteSource → Bytes → Address
kept_source none addr = local_station addr
kept_source (some s) addr = station_of s

-- An application message goes up.
unfoldable pub deliver_application : AccessPoint → Adapter → Option Adapter → Npdu → Trace
unfolding new_source
deliver_application p adapter none npdu = raises assertion_error
deliver_application p adapter (some l) npdu =
    if ltb 1 (length p.adapters) && not (is_adapter adapter l)
    then with_result (source_or npdu.sadr (new_source adapter.adapter_net npdu.pdu_source))
        (λ s. event (respond (station_of s) (mapped_destination npdu.dadr l) npdu.pdu_data))
    else event (
        respond (kept_source npdu.sadr npdu.pdu_source)
          (kept_destination npdu.dadr npdu.pdu_destination) npdu.pdu_data)

-- The PDU that is sent on, with a hop less.
abbrev pub new_npdu : Npdu → RemoteSource → ℕ → Address → Option Address → Sent
new_npdu npdu s hops destination dadr = record {
  destination = destination;
  dadr = dadr;
  sadr = some s;
  hop_count = some hops;
  net_message = npdu.net_message;
  pdu_data = npdu.pdu_data;
}

-- `for xadapter in self.adapters.values(): if xadapter is not adapter`
unfoldable pub to_others : Adapter → Sent → Dict (Option ℕ) Adapter → Trace
to_others adapter sent [] = nothing
to_others adapter sent (e ∷ adapters) =
    let rest = to_others adapter sent adapters in
    if is_adapter e.1 adapter then rest else and_then (event (send_down e.1 sent)) rest

-- The first adapter from whose network a path is known.
unfoldable pub find_path : Cache → ℕ → Dict (Option ℕ) Adapter → Option (Adapter × RouterPath)
unfolding get_path_info
find_path c dnet [] = none
find_path c dnet (e ∷ adapters) =
    let rest = find_path c dnet adapters in
    elim (get_path_info c e.0 dnet) [ none ↦ rest | some p ↦ some (e.1, p) ]

-- The last leg: a local destination on the network of an adapter.
abbrev pub last_leg : Address → Address
last_leg (remote_station net addr) = local_station addr
last_leg _ = local_broadcast

-- By a router, unless it is on the network from which the PDU came. Of the answers to a search for
-- routers, each a pair, `result_list[0].pduSource` is an AttributeError.
unfoldable pub by_router : Adapter → Option (Adapter × RouterPath) → ℕ → (Address → Sent) → Trace
by_router adapter (some (router_adapter, p)) answers sent =
    if is_adapter router_adapter adapter
    then nothing
    else event (send_down router_adapter (sent p.0))
by_router adapter none answers sent =
    if answers == 1 then raises attribute_error else raises unknown_route

abbrev pub to_network : Adapter → Option Adapter → Sent → Trace → Trace
to_network adapter none sent otherwise = otherwise
to_network adapter (some x) sent otherwise =
    if is_adapter x adapter then nothing else event (send_down x sent)

unfoldable pub send_on :
    AccessPoint → Cache → ℕ → Adapter → Npdu → RemoteSource → ℕ → Option Address → Trace
unfolding to_others find_path by_router lookup
send_on p c answers adapter npdu s hops (some global_broadcast) =
    to_others adapter (new_npdu npdu s hops local_broadcast (some global_broadcast)) p.adapters
send_on p c answers adapter npdu s hops (some (remote_broadcast dnet)) =
    to_network adapter (lookup net_key (some dnet) p.adapters)
      (new_npdu npdu s hops local_broadcast none)
      (by_router adapter (find_path c dnet p.adapters) answers
        λ router. new_npdu npdu s hops router npdu.dadr)
send_on p c answers adapter npdu s hops (some (remote_station dnet addr)) =
    to_network adapter (lookup net_key (some dnet) p.adapters)
      (new_npdu npdu s hops (local_station addr) none)
      (by_router adapter (find_path c dnet p.adapters) answers
        λ router. new_npdu npdu s hops router npdu.dadr)
send_on p c answers adapter npdu s hops (some _) = nothing
send_on p c answers adapter npdu s hops none = raises assertion_error

unfoldable pub forward_hops : AccessPoint → Cache → ℕ → Adapter → Npdu → Option ℕ → Trace
unfolding send_on new_source
forward_hops p c answers adapter npdu none = raises type_error
forward_hops p c answers adapter npdu (some zero) = nothing
forward_hops p c answers adapter npdu (some (suc hops)) =
    with_result (source_or npdu.sadr (new_source adapter.adapter_net npdu.pdu_source))
      λ s. send_on p c answers adapter npdu s hops npdu.dadr

unfoldable pub forward_npdu : AccessPoint → Cache → ℕ → Adapter → Npdu → Bool → Trace
unfolding forward_hops
forward_npdu p c answers adapter npdu forward_message =
    if not forward_message
    then nothing
    else if length p.adapters == 1
    then nothing
    else forward_hops p c answers adapter npdu npdu.hop_count

-- The cache that is left, and what happened.
abbrev pub Outcome : Type 0
Outcome = Cache × Trace

-- `sap_request`: the service element works on the message before the access point goes on.
abbrev pub ask_element : AccessPoint → Cache → Adapter → Npdu → Bool → Outcome
ask_element p c adapter npdu false = (c, nothing)
ask_element p c adapter npdu true =
    let answer = p.service_element adapter npdu c in
    (answer.0, (sap_request adapter npdu ∷ [], answer.1))

-- The message is delivered here, and then sent on, with the cache that the service element left. A
-- network layer message of an unknown type ends it.
unfoldable pub deliver : AccessPoint → Cache → ℕ → Adapter → Npdu → Option ℕ → Bool → Bool → Outcome
unfolding deliver_application forward_npdu find_type npdu_types
deliver p c answers adapter npdu none process_locally forward_message = (
  c,
  and_then
      (if process_locally && p.has_server_peer
        then deliver_application p adapter p.local_adapter npdu
        else nothing)
      (forward_npdu p c answers adapter npdu forward_message),
)
deliver p c answers adapter npdu (some t) process_locally forward_message =
    if process_locally && not (is_some (find_type t npdu_types))
    then (c, nothing)
    else let asked = ask_element p c adapter npdu process_locally in
      (asked.0, and_then asked.1 (forward_npdu p asked.0 answers adapter npdu forward_message))

unfoldable pub route : AccessPoint → Cache → ℕ → Adapter → Npdu → Verdict → Outcome
unfolding deliver
route p c answers adapter npdu dropped = (c, nothing)
route p c answers adapter npdu (failed e) = (c, raises e)
route p c answers adapter npdu (routed process_locally forward_message) =
    deliver p c answers adapter npdu npdu.net_message process_locally forward_message

abbrev pub route_with : Result Cache → Cache → (Cache → Outcome) → Outcome
route_with (ok c) old f = f c
route_with (err e) old f = (old, raises e)

-- The check for source routing: a path to the network of the source is learned, and a source on a
-- network of an adapter is refused.
unfoldable pub process_source :
    AccessPoint → Cache → ℕ → Adapter → Npdu → Option RemoteSource → Outcome
unfolding route verdict update_path_info lookup
process_source p c answers adapter npdu none =
    route p c answers adapter npdu (verdict adapter p.local_adapter npdu.net_message npdu.dadr)
process_source p c answers adapter npdu (some s) =
    if is_some (lookup net_key (some s.addr_net) p.adapters)
    then (c, nothing)
    else route_with
        (update_path_info adapter.adapter_net (local_station npdu.pdu_source) (s.addr_net ∷ []) c) c
        λ d.
          route p d answers adapter npdu
            (verdict adapter p.local_adapter npdu.net_message npdu.dadr)

abbrev pub has_none : Dict (Option ℕ) Adapter → Bool
has_none [] = true
has_none (e ∷ adapters) = false

-- `process_npdu`, where the search for a router, if there is one, has `answers` answers
unfoldable pub process_npdu : AccessPoint → Cache → ℕ → Adapter → Npdu → Outcome
unfolding process_source
process_npdu p c answers adapter npdu =
    if has_none p.adapters || not p.has_service_element
    then (c, raises configuration_error)
    else process_source p c answers adapter npdu npdu.sadr
