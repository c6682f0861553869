-- ===== src/Router/Routing/Learns.antt =====
-- bacpypes3/netservice.py, `process_npdu`: what it does to the table of paths.
use bacpypes.Prelude.{
  ℕ, Bool, ◌≡◌, ◌⊎◌, ap, refl, true, false, not, ◌||◌, Option, none, some, [], ◌∷◌, Bool-cases, inl,
  inr, is_some, if◌then◌else◌, arith,
}
use bacpypes.Npdu.Message.{npdu_types, find_type}
use bacpypes.Address.{local_station}
use bacpypes.Router.Keys.{net_key}
use bacpypes.Router.Dict.{lookup}
use bacpypes.Router.Nets.{member}
use bacpypes.Router.Cache.{Cache}
use bacpypes.Router.Cache.Table.{Table, Implements, learn}
use bacpypes.Router.Cache.Learn.{update_path_info-Implements}
use bacpypes.Router.Routing.{
  Outcome, Verdict, dropped, failed, routed, deliver, route, Adapter, AccessPoint, RemoteSource,
  Npdu, process_source, has_none, process_npdu,
}

-- The source of a PDU that was routed is behind the station that sent it, unless it says that it is on
-- a network of an adapter.
unfoldable pub learn_source : AccessPoint → Adapter → Npdu → Option RemoteSource → Table → Table
learn_source p adapter npdu none t = t
learn_source p adapter npdu (some s) t =
    if is_some (lookup net_key (some s.addr_net) p.adapters)
    then t
    else learn adapter.adapter_net (local_station npdu.pdu_source) (s.addr_net ∷ []) t

-- A cache as the access point leaves it, or as the service element does with a network layer message.
abbrev pub Leaves : AccessPoint → Adapter → Npdu → Cache → Cache → Type 0
Leaves p adapter npdu d left =
    (left ≡ d) ⊎ ((is_some npdu.net_message ≡ true) × (left ≡ (p.service_element adapter npdu d).0))

-- Before a message is delivered the cache implements a table; then only the service element changes
-- it.
abbrev pub Learned : AccessPoint → Adapter → Npdu → Table → Outcome → Type 0
Learned p adapter npdu t out = (d : Cache) × (Implements d t) × (Leaves p adapter npdu d out.0)

module _ (p : AccessPoint) (answers : ℕ) (adapter : Adapter) (npdu : Npdu) (d : Cache) where
  deliver-Leaves :
      (message : Option ℕ) (process_locally forward_message : Bool)
      → npdu.net_message ≡ message
      → Leaves p adapter npdu d
          (deliver p d answers adapter npdu message process_locally forward_message).0
  unfolding deliver
  deliver-Leaves none process_locally forward_message same = inl refl
  deliver-Leaves (some m) true forward_message same =
      elim (Bool-cases (not (is_some (find_type m npdu_types)))) [
        | inl e ↦ rw e (inl refl)
        | inr e ↦ rw e (inr (ap is_some same, refl))
      ]
  deliver-Leaves (some m) false forward_message same = inl refl

  route-Leaves : (v : Verdict) → Leaves p adapter npdu d (route p d answers adapter npdu v).0
  unfolding route
  route-Leaves dropped = inl refl
  route-Leaves (failed e) = inl refl
  route-Leaves (routed process_locally forward_message) =
      deliver-Leaves npdu.net_message process_locally forward_message refl

process_source-Learned :
    (p : AccessPoint) (c : Cache) (t : Table) (answers : ℕ) (adapter : Adapter) (npdu : Npdu)
    (o : Option RemoteSource)
    → Implements c t
    → Learned p adapter npdu
        (learn_source p adapter npdu o t)
        (process_source p c answers adapter npdu o)
unfolding process_source learn_source member
process_source-Learned p c t answers adapter npdu none i =
    (c, i, route-Leaves p answers adapter npdu c _)
process_source-Learned p c t answers adapter npdu (some s) i =
    elim (Bool-cases (is_some (lookup net_key (some s.addr_net) p.adapters))) [
      | inl e ↦ rw e (c, i, inl refl)
      | inr e ↦
          let (d, runs, j) =
            update_path_info-Implements c t adapter.adapter_net (local_station npdu.pdu_source)
              (s.addr_net ∷ []) i (refl, tt) in
          rw (e, runs) (d, j, route-Leaves p answers adapter npdu d _)
    ]

-- Of an access point with adapters and a service element, whose cache implements a table of paths,
-- `process_npdu` gets a cache that implements the table in which, of a PDU with a source network that
-- is not that of an adapter, this network leads to the station that sent it. It leaves that cache, or,
-- of a network layer message, that cache as the service element leaves it.
pub process_npdu-Implements :
    (p : AccessPoint) (c : Cache) (t : Table) (answers : ℕ) (adapter : Adapter) (npdu : Npdu)
    → has_none p.adapters ≡ false
    → p.has_service_element ≡ true
    → Implements c t
    → Learned p adapter npdu
        (learn_source p adapter npdu npdu.sadr t)
        (process_npdu p c answers adapter npdu)
unfolding process_npdu
process_npdu-Implements p c t answers adapter npdu some_adapter element i =
    let ready : (has_none p.adapters || not p.has_service_element) ≡ false =
      ground (arith, some_adapter, element) in
    rw ready (process_source-Learned p c t answers adapter npdu npdu.sadr i)
