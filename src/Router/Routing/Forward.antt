-- ===== src/Router/Routing/Forward.antt =====
-- bacpypes3/netservice.py, `process_npdu`: the PDUs that it sends on.
use bacpypes.Prelude.{
  ℕ, zero, suc, ◌≡◌, refl, Bool, true, false, not, ◌&&◌, ◌||◌, Option, none, some, [], ◌∷◌,
  Bool-cases, inl, inr, length, ltb, ◌==◌, is_some, if◌then◌else◌,
}
use bacpypes.Pdu.{
  Result, ok, err, type_error, assertion_error, attribute_error, unknown_route, configuration_error,
}
use bacpypes.Address.{
  Address, local_broadcast, global_broadcast, local_station, remote_station, remote_broadcast,
}
use bacpypes.Npdu.Message.{npdu_types, find_type}
use bacpypes.Router.Keys.{net_key}
use bacpypes.Router.Dict.{Dict, lookup}
use bacpypes.Router.Cache.{RouterPath, Cache, update_path_info}
use bacpypes.Router.Routing.{
  Adapter, is_adapter, AccessPoint, RemoteSource, Npdu, Sent, Event, send_down, respond,
  sap_request, Trace, Outcome, ask_element, nothing, event, raises, new_source, source_or, Verdict,
  dropped, failed, routed, verdict, deliver_application, new_npdu, to_others, find_path, by_router,
  to_network, send_on, forward_hops, forward_npdu, deliver, route, route_with, process_source,
  has_none, process_npdu,
}
use bacpypes.Router.Routing.Traces.{
  Happens, Happens-nothing, Happens-raises, Happens-event, Happens-and_then, Happens-with_result,
  Happens-if,
}

-- What is sent on of a PDU that came in on an adapter: the same message with a hop less and the
-- source that the PDU has or, if it has none, the station that sent it, and not back.
pub record Onward (adapter : Adapter) (npdu : Npdu) (x : Adapter) (s : Sent) : Type 0 where
  pub hops : ℕ
  pub other_adapter : is_adapter x adapter ≡ false
  pub hops_before : npdu.hop_count ≡ some (suc hops)
  pub hops_after : s.hop_count ≡ some hops
  pub source : RemoteSource
  pub source_told : source_or npdu.sadr (new_source adapter.adapter_net npdu.pdu_source) ≡ ok source
  pub source_kept : s.sadr ≡ some source
  pub same_message : s.net_message ≡ npdu.net_message
  pub same_data : s.pdu_data ≡ npdu.pdu_data

abbrev pub IsOnward : Adapter → Npdu → Event → Type 0
IsOnward adapter npdu (send_down x s) = Onward adapter npdu x s
IsOnward adapter npdu (respond source destination d) = Unit
IsOnward adapter npdu (sap_request x n) = (x ≡ adapter) × (n ≡ npdu)

module _ (adapter : Adapter) (npdu : Npdu) (source : RemoteSource) (hops : ℕ)
    (told : source_or npdu.sadr (new_source adapter.adapter_net npdu.pdu_source) ≡ ok source)
    (before : npdu.hop_count ≡ some (suc hops)) where
  new_npdu-Onward :
      (x : Adapter) (destination : Address) (dadr : Option Address)
      → is_adapter x adapter ≡ false
      → Onward adapter npdu x (new_npdu npdu source hops destination dadr)
  new_npdu-Onward x destination dadr other = record {
    hops = hops;
    other_adapter = other;
    hops_before = before;
    hops_after = refl;
    source = source;
    source_told = told;
    source_kept = refl;
    same_message = refl;
    same_data = refl;
  }

  -- One adapter, unless it is the one of arrival.
  to_adapter-Onward :
      (x : Adapter) (destination : Address) (dadr : Option Address)
      → Happens (IsOnward adapter npdu) (
          if is_adapter x adapter
          then nothing
          else event (send_down x (new_npdu npdu source hops destination dadr)))
  to_adapter-Onward x destination dadr = elim (Bool-cases (is_adapter x adapter)) [
    | inl e ↦ rw e (Happens-nothing (IsOnward adapter npdu))
    | inr e ↦ rw e (Happens-event (IsOnward adapter npdu) _ (new_npdu-Onward x destination dadr e))
  ]

  to_others-Onward :
      (destination : Address) (dadr : Option Address) (adapters : Dict (Option ℕ) Adapter)
      → Happens
          (IsOnward adapter npdu)
          (to_others adapter (new_npdu npdu source hops destination dadr) adapters)
  unfolding to_others
  to_others-Onward destination dadr [] = Happens-nothing (IsOnward adapter npdu)
  to_others-Onward destination dadr (e ∷ adapters) = elim (Bool-cases (is_adapter e.1 adapter)) [
    | inl here ↦ rw here (to_others-Onward destination dadr adapters)
    | inr other ↦ rw other (
        Happens-and_then (IsOnward adapter npdu)
          (event (send_down e.1 (new_npdu npdu source hops destination dadr))) _
          (Happens-event (IsOnward adapter npdu) _ (new_npdu-Onward e.1 destination dadr other))
          (to_others-Onward destination dadr adapters))
  ]

  by_router-Onward :
      (o : Option (Adapter × RouterPath)) (answers : ℕ) (dadr : Option Address)
      → Happens
          (IsOnward adapter npdu)
          (by_router adapter o answers (λ router. new_npdu npdu source hops router dadr))
  unfolding by_router
  by_router-Onward none answers dadr =
      Happens-if (IsOnward adapter npdu) (answers == 1) (raises attribute_error)
        (raises unknown_route) (Happens-raises (IsOnward adapter npdu) attribute_error)
        (Happens-raises (IsOnward adapter npdu) unknown_route)
  by_router-Onward (some (x, p)) answers dadr = to_adapter-Onward x p.0 dadr

  to_network-Onward :
      (o : Option Adapter) (destination : Address) (t : Trace)
      → Happens (IsOnward adapter npdu) t
      → Happens
          (IsOnward adapter npdu)
          (to_network adapter o (new_npdu npdu source hops destination none) t)
  to_network-Onward none destination t h = h
  to_network-Onward (some x) destination t h = to_adapter-Onward x destination none

  send_on-Onward :
      (p : AccessPoint) (c : Cache) (answers : ℕ) (dadr : Option Address)
      → Happens (IsOnward adapter npdu) (send_on p c answers adapter npdu source hops dadr)
  unfolding send_on
  send_on-Onward p c answers none = Happens-raises (IsOnward adapter npdu) assertion_error
  send_on-Onward p c answers (some global_broadcast) =
      to_others-Onward local_broadcast (some global_broadcast) p.adapters
  send_on-Onward p c answers (some (remote_broadcast dnet)) =
      to_network-Onward (lookup net_key (some dnet) p.adapters) local_broadcast _
        (by_router-Onward (find_path c dnet p.adapters) answers npdu.dadr)
  send_on-Onward p c answers (some (remote_station dnet addr)) =
      to_network-Onward (lookup net_key (some dnet) p.adapters) (local_station addr) _
        (by_router-Onward (find_path c dnet p.adapters) answers npdu.dadr)
  send_on-Onward p c answers (some _) = Happens-nothing (IsOnward adapter npdu)

module _ (p : AccessPoint) (answers : ℕ) (adapter : Adapter) (npdu : Npdu) where
  forward_hops-Onward :
      (c : Cache) (o : Option ℕ)
      → npdu.hop_count ≡ o
      → Happens (IsOnward adapter npdu) (forward_hops p c answers adapter npdu o)
  unfolding forward_hops
  forward_hops-Onward c none e = Happens-raises (IsOnward adapter npdu) type_error
  forward_hops-Onward c (some zero) e = Happens-nothing (IsOnward adapter npdu)
  forward_hops-Onward c (some (suc hops)) e =
      Happens-with_result (IsOnward adapter npdu)
        (source_or npdu.sadr (new_source adapter.adapter_net npdu.pdu_source)) _
        (λ s told. send_on-Onward adapter npdu s hops told e p c answers npdu.dadr)

  forward_npdu-Onward :
      (c : Cache) (forward_message : Bool)
      → Happens (IsOnward adapter npdu) (forward_npdu p c answers adapter npdu forward_message)
  unfolding forward_npdu
  forward_npdu-Onward c false = Happens-nothing (IsOnward adapter npdu)
  forward_npdu-Onward c true =
      Happens-if (IsOnward adapter npdu) (length p.adapters == 1) nothing _
        (Happens-nothing (IsOnward adapter npdu)) (forward_hops-Onward c npdu.hop_count refl)

  deliver_application-Onward :
      (o : Option Adapter) → Happens (IsOnward adapter npdu) (deliver_application p adapter o npdu)
  unfolding deliver_application
  deliver_application-Onward none = Happens-raises (IsOnward adapter npdu) assertion_error
  deliver_application-Onward (some l) =
      Happens-if (IsOnward adapter npdu) (ltb 1 (length p.adapters) && not (is_adapter adapter l)) _
        _
        (Happens-with_result (IsOnward adapter npdu)
          (source_or npdu.sadr (new_source adapter.adapter_net npdu.pdu_source)) _
          (λ s told. Happens-event (IsOnward adapter npdu) _ tt))
        (Happens-event (IsOnward adapter npdu) _ tt)

  ask_element-Onward :
      (c : Cache) (process_locally : Bool)
      → Happens (IsOnward adapter npdu) (ask_element p c adapter npdu process_locally).1
  unfolding Happens
  ask_element-Onward c false = tt
  ask_element-Onward c true = ((refl, refl), tt)

  deliver-Onward :
      (c : Cache) (message : Option ℕ) (process_locally forward_message : Bool)
      → Happens
          (IsOnward adapter npdu)
          (deliver p c answers adapter npdu message process_locally forward_message).1
  unfolding deliver
  deliver-Onward c none process_locally forward_message =
      Happens-and_then (IsOnward adapter npdu) _ _
        (Happens-if (IsOnward adapter npdu) (process_locally && p.has_server_peer) _ nothing
          (deliver_application-Onward p.local_adapter) (Happens-nothing (IsOnward adapter npdu)))
        (forward_npdu-Onward c forward_message)
  deliver-Onward c (some t) process_locally forward_message =
      elim (Bool-cases (process_locally && not (is_some (find_type t npdu_types)))) [
        | inl e ↦ rw e (Happens-nothing (IsOnward adapter npdu))
        | inr e ↦ rw e (
            Happens-and_then (IsOnward adapter npdu) _ _ (ask_element-Onward c process_locally) (
              forward_npdu-Onward (ask_element p c adapter npdu process_locally).0 forward_message))
      ]

  route-Onward :
      (c : Cache) (v : Verdict)
      → Happens (IsOnward adapter npdu) (route p c answers adapter npdu v).1
  unfolding route
  route-Onward c dropped = Happens-nothing (IsOnward adapter npdu)
  route-Onward c (failed e) = Happens-raises (IsOnward adapter npdu) e
  route-Onward c (routed process_locally forward_message) =
      deliver-Onward c npdu.net_message process_locally forward_message

  route_with-Onward :
      (r : Result Cache) (c : Cache) (f : Cache → Outcome)
      → ((d : Cache) → Happens (IsOnward adapter npdu) (f d).1)
      → Happens (IsOnward adapter npdu) (route_with r c f).1
  route_with-Onward (ok d) c f h = h d
  route_with-Onward (err e) c f h = Happens-raises (IsOnward adapter npdu) e

  process_source-Onward :
      (c : Cache) (o : Option RemoteSource)
      → Happens (IsOnward adapter npdu) (process_source p c answers adapter npdu o).1
  unfolding process_source
  process_source-Onward c none = route-Onward c _
  process_source-Onward c (some s) =
      elim (Bool-cases (is_some (lookup net_key (some s.addr_net) p.adapters))) [
        | inl e ↦ rw e (Happens-nothing (IsOnward adapter npdu))
        | inr e ↦ rw e (
            route_with-Onward
              (update_path_info adapter.adapter_net (local_station npdu.pdu_source)
                (s.addr_net ∷ []) c)
              c _
              (λ d. route-Onward d (verdict adapter p.local_adapter npdu.net_message npdu.dadr)))
      ]

  -- Whatever PDU comes in on an adapter, `process_npdu` hands only that PDU to the service element,
  -- and sends on only PDUs of its message, with a hop less and the source told, to other adapters.
  pub process_npdu-Onward :
      (c : Cache) → Happens (IsOnward adapter npdu) (process_npdu p c answers adapter npdu).1
  unfolding process_npdu
  process_npdu-Onward c = elim (Bool-cases (has_none p.adapters || not p.has_service_element)) [
    | inl e ↦ rw e (Happens-raises (IsOnward adapter npdu) configuration_error)
    | inr e ↦ rw e (process_source-Onward c npdu.sadr)
  ]
