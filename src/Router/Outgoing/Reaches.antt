-- ===== src/Router/Outgoing/Reaches.antt =====
-- bacpypes3/netservice.py, `NetworkServiceAccessPoint.indication`: where a PDU for each destination goes.
use bacpypes.Prelude.{
  ℕ, true, false, ap, arith, ◌≡◌, refl, Option, none, some, List, [], ◌∷◌, inl, inr, ◌⊎◌,
}
use bacpypes.Pdu.{ok}
use bacpypes.Address.{
  Address, null_address, local_broadcast, global_broadcast, local_station, remote_station,
  remote_broadcast,
}
use bacpypes.Router.Keys.{net_key}
use bacpypes.Router.Dict.{Dict, lookup}
use bacpypes.Router.Cache.{RouterPath, Cache, get_path_info}
use bacpypes.Router.Routing.{Adapter, is_local, AccessPoint, RemoteSource, Sent, find_path}
use bacpypes.Router.Outgoing.{source_of}

-- The source that a PDU tells: none on the local adapter, and that of the local adapter on others.
abbrev pub TellsSource : Option Adapter → Adapter → Option RemoteSource → Type 0
TellsSource l x told =
    ((is_local x l ≡ true) × (told ≡ none))
    ⊎ ((is_local x l ≡ false) × (s : RemoteSource) × (source_of l ≡ ok s) × (told ≡ some s))

-- The adapter of a network, if it has one, sends to the link layer's address itself.
abbrev pub GoesDirect : AccessPoint → ℕ → Address → Adapter → Sent → Type 0
GoesDirect p net link x s =
    (lookup net_key (some net) p.adapters ≡ some x)
    × (s.destination ≡ link)
    × (s.dadr ≡ none)
    × TellsSource p.local_adapter x s.sadr

abbrev pub IsAdapterOf : Option ℕ → Adapter → Dict (Option ℕ) Adapter → Type 0
IsAdapterOf snet x [] = ⊥
IsAdapterOf snet x (e ∷ adapters) = (e ≡ (snet, x)) ⊎ IsAdapterOf snet x adapters

-- A router that the cache knows a path by, from the network of an adapter.
abbrev pub IsKnown : AccessPoint → Cache → ℕ → Adapter → Address → Type 0
IsKnown p c net x router =
    (snet : Option ℕ) × (path : RouterPath) × IsAdapterOf snet x p.adapters
    × (get_path_info c snet net ≡ some path)
    × (path.0 ≡ router)

-- A network without an adapter is reached by a router, which the cache knows or which is the only one
-- that answered; the header has the destination, and no source.
abbrev pub GoesByRouter :
    AccessPoint → Cache → List (Adapter × Address) → ℕ → Address → Adapter → Sent → Type 0
GoesByRouter p c answers net destination x s =
    (lookup net_key (some net) p.adapters ≡ none)
    × (IsKnown p c net x s.destination ⊎ (answers ≡ (x, s.destination) ∷ []))
    × (s.dadr ≡ some destination)
    × (s.sadr ≡ none)

-- On the local adapter to the destination itself.
abbrev pub GoesLocal : AccessPoint → Address → Adapter → Sent → Type 0
GoesLocal p destination x s =
    (p.local_adapter ≡ some x) × (s.destination ≡ destination) × (s.dadr ≡ none) × (s.sadr ≡ none)

-- Where a PDU for each destination goes, and on which adapter.
abbrev pub Reaches :
    AccessPoint → Cache → List (Adapter × Address) → Address → Adapter → Sent → Type 0
Reaches p c answers null_address x s = ⊥
Reaches p c answers (local_station addr) x s = GoesLocal p (local_station addr) x s
Reaches p c answers local_broadcast x s = GoesLocal p local_broadcast x s
Reaches p c answers global_broadcast x s =
    (s.destination ≡ local_broadcast)
    × (s.dadr ≡ some global_broadcast)
    × TellsSource p.local_adapter x s.sadr
Reaches p c answers (remote_station net addr) x s =
    GoesDirect p net (local_station addr) x s
    ⊎ GoesByRouter p c answers net (remote_station net addr) x s
Reaches p c answers (remote_broadcast net) x s =
    GoesDirect p net local_broadcast x s ⊎ GoesByRouter p c answers net (remote_broadcast net) x s

abbrev or_else : {A : Type 0} → A → Option A → A
or_else a none = a
or_else a (some b) = b

chosen :
    (o : Option RouterPath) (rest : Option (Adapter × RouterPath)) (x y : Adapter)
    (path : RouterPath)
    → elim o [ none ↦ rest | some p ↦ some (y, p) ] ≡ some (x, path)
    → ((o ≡ none) × (rest ≡ some (x, path))) ⊎ ((o ≡ some path) × (y ≡ x))
chosen none rest x y path h = inl (refl, h)
chosen (some q) rest x y path h =
    let pair : (y, q) ≡ (x, path) = ap (or_else (y, q)) h in
    inr (ap (λ e. some e.1) pair, ap (λ e. e.0) pair)

-- The path that is found is one of the cache, from the network of the adapter.
pub find_path_known :
    (c : Cache) (net : ℕ) (adapters : Dict (Option ℕ) Adapter) (x : Adapter) (path : RouterPath)
    → find_path c net adapters ≡ some (x, path)
    → (snet : Option ℕ) × IsAdapterOf snet x adapters × (get_path_info c snet net ≡ some path)
unfolding find_path
find_path_known c net [] x path h = absurd (ground arith)
find_path_known c net (e ∷ adapters) x path h =
    elim (chosen (get_path_info c e.0 net) (find_path c net adapters) x e.1 path h) [
      | inl (unknown, later) ↦
          let (snet, there, known) = find_path_known c net adapters x path later in
          (snet, inr there, known)
      | inr (known, same) ↦ (e.0, inl (ap (λ a. (e.0, a)) same), known)
    ]
