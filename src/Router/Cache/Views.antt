-- ===== src/Router/Cache/Views.antt =====
-- bacpypes3/netservice.py, class RouterInfoCache: its two dictionaries read as one table of paths.
use bacpypes.Prelude.{
  ℕ, ◌≡◌, refl, sym, ◌∙◌, ap, ap₂, Bool, true, false, ◌&&◌, Option, none, some, [], ◌∷◌, ◌==◌,
  ==_iff, Bool-cases, Option-cases, inl, inr, is_some, if◌then◌else◌, arith,
}
use bacpypes.Address.{Address}
use bacpypes.Router.Keys.{net_key, address_key, number_key, pair_key, same_net, same_address}
use bacpypes.Router.Dict.{Dict, lookup, put_key, delete_key, lookup-put_key, lookup-delete_key}
use bacpypes.Router.Nets.{Nets, member, same_nets_lem}
use bacpypes.Router.Cache.{
  RouterStatus, available, busy, disconnected, RouterPath, path_key, router_key, Cache, same_status,
  is_path, is_nets, get_path_info, set_path_info, delete_path_info, get_router_dnets,
  set_router_dnets, delete_router_dnets, store_dnets,
}

abbrev pub or_empty : Option Nets → Nets
or_empty none = []
or_empty (some nets) = nets

-- Whether a network is one of those that a router is known for.
unfoldable pub serves : Cache → Option ℕ → Address → ℕ → Bool
serves c snet address dnet = member dnet (or_empty (get_router_dnets c snet address))

-- Whether a path leads to a router.
abbrev pub leads_to : Option RouterPath → Address → Bool
leads_to none address = false
leads_to (some p) address = same_address p.0 address

-- The keys of a path and of a router.
abbrev pub at_path : Option ℕ → ℕ → Option ℕ → ℕ → Bool
at_path s n snet dnet = same_net s snet && n == dnet

abbrev pub at_router : Option ℕ → Address → Option ℕ → Address → Bool
at_router s a snet address = same_net s snet && same_address a address

same_status_sound : (s t : RouterStatus) → same_status s t ≡ true → s ≡ t
same_status_sound available available h = refl
same_status_sound busy busy h = refl
same_status_sound disconnected disconnected h = refl
same_status_sound _ _ h = ground arith

is_path_sound :
    (o : Option RouterPath) (address : Address) (status : RouterStatus)
    → is_path o address status ≡ true
    → o ≡ some (address, status)
is_path_sound none address status h = ground arith
is_path_sound (some p) address status h =
    let same_first : same_address p.0 address ≡ true = ground arith in
    let same_second : same_status p.1 status ≡ true = ground arith in
    ap₂ (λ a s. some (a, s)) (address_key.sound_law p.0 address same_first)
      (same_status_sound p.1 status same_second)

-- The dictionaries under the keys, in these tests.
module _ {V : Type 0} where
  lookup-put_path :
      (s snet : Option ℕ) (n dnet : ℕ) (v : V) (d : Dict (Option ℕ × ℕ) V)
      → lookup path_key (snet, dnet) (put_key path_key (s, n) v d)
        ≡ (if at_path s n snet dnet then some v else lookup path_key (snet, dnet) d)
  unfolding pair_key number_key
  lookup-put_path s snet n dnet v d = lookup-put_key path_key (s, n) (snet, dnet) v d

  lookup-delete_path :
      (s snet : Option ℕ) (n dnet : ℕ) (d : Dict (Option ℕ × ℕ) V)
      → lookup path_key (snet, dnet) (delete_key path_key (s, n) d)
        ≡ (if at_path s n snet dnet then none else lookup path_key (snet, dnet) d)
  unfolding pair_key number_key
  lookup-delete_path s snet n dnet d = lookup-delete_key path_key (s, n) (snet, dnet) d

  lookup-put_router :
      (s snet : Option ℕ) (a address : Address) (v : V) (d : Dict (Option ℕ × Address) V)
      → lookup router_key (snet, address) (put_key router_key (s, a) v d)
        ≡ (if at_router s a snet address then some v else lookup router_key (snet, address) d)
  unfolding pair_key
  lookup-put_router s snet a address v d = lookup-put_key router_key (s, a) (snet, address) v d

  lookup-delete_router :
      (s snet : Option ℕ) (a address : Address) (d : Dict (Option ℕ × Address) V)
      → lookup router_key (snet, address) (delete_key router_key (s, a) d)
        ≡ (if at_router s a snet address then none else lookup router_key (snet, address) d)
  unfolding pair_key
  lookup-delete_router s snet a address d = lookup-delete_key router_key (s, a) (snet, address) d

pub at_path_same :
    (c : Cache) (s snet : Option ℕ) (n dnet : ℕ)
    → at_path s n snet dnet ≡ true
    → get_path_info c snet dnet ≡ get_path_info c s n
at_path_same c s snet n dnet h =
    let first : same_net s snet ≡ true = ground arith in
    let second : n == dnet ≡ true = ground arith in
    ap₂ (get_path_info c) (sym (net_key.sound_law s snet first)) (sym ((==_iff n dnet).0 second))

pub at_router_same :
    (c : Cache) (s snet : Option ℕ) (a address : Address)
    → at_router s a snet address ≡ true
    → get_router_dnets c snet address ≡ get_router_dnets c s a
at_router_same c s snet a address h =
    let first : same_net s snet ≡ true = ground arith in
    let second : same_address a address ≡ true = ground arith in
    ap₂ (get_router_dnets c) (sym (net_key.sound_law s snet first))
      (sym (address_key.sound_law a address second))

is_nets_lem :
    (o : Option Nets) (nets : Nets) (dnet : ℕ)
    → is_nets o nets ≡ true
    → member dnet (or_empty o) ≡ member dnet nets
is_nets_lem none nets dnet h = ground arith
is_nets_lem (some l) nets dnet h = same_nets_lem dnet l nets h

member_if :
    (t : Bool) (nets : Nets) (o : Option Nets) (dnet : ℕ)
    → member dnet (or_empty (if t then some nets else o))
      ≡ (if t then member dnet nets else member dnet (or_empty o))
member_if true nets o dnet = refl
member_if false nets o dnet = refl

-- A conditional whose test decides between equal values.
if_known :
    {A : Type 0} (t : Bool) (x y z : A)
    → (t ≡ true → x ≡ y)
    → (t ≡ false → x ≡ z)
    → x ≡ (if t then y else z)
if_known true x y z yes_case no_case = yes_case refl
if_known false x y z yes_case no_case = no_case refl

pub get_path_info-set_path_info :
    (c : Cache) (s snet : Option ℕ) (n dnet : ℕ) (address : Address) (status : RouterStatus)
    → get_path_info (set_path_info c s n address status).1 snet dnet
      ≡ (if at_path s n snet dnet then some (address, status) else get_path_info c snet dnet)
unfolding set_path_info
get_path_info-set_path_info c s snet n dnet address status =
    elim (Bool-cases (is_path (get_path_info c s n) address status)) [
      | inl kept ↦ rw kept (
          if_known (at_path s n snet dnet) (get_path_info c snet dnet) (some (address, status))
            (get_path_info c snet dnet)
            (λ h.
              at_path_same c s snet n dnet h
              ∙ is_path_sound (get_path_info c s n) address status kept)
            (λ h. refl))
      | inr changed ↦
          rw (changed, get_path_info) (lookup-put_path s snet n dnet (address, status) c.path_info)
    ]

pub get_path_info-delete_path_info :
    (c : Cache) (s snet : Option ℕ) (n dnet : ℕ)
    → get_path_info (delete_path_info c s n).1 snet dnet
      ≡ (if at_path s n snet dnet then none else get_path_info c snet dnet)
unfolding delete_path_info
get_path_info-delete_path_info c s snet n dnet = elim (Option-cases (get_path_info c s n)) [
  | inl missing ↦ rw missing (
      if_known (at_path s n snet dnet) (get_path_info c snet dnet) none (get_path_info c snet dnet)
        (λ h. at_path_same c s snet n dnet h ∙ missing) (λ h. refl))
  | inr (p, found) ↦ rw (found, get_path_info) (lookup-delete_path s snet n dnet c.path_info)
]

pub serves-set_router_dnets :
    (c : Cache) (s snet : Option ℕ) (a address : Address) (nets : Nets) (dnet : ℕ)
    → serves (set_router_dnets c s a nets).1 snet address dnet
      ≡ (if at_router s a snet address then member dnet nets else serves c snet address dnet)
unfolding serves set_router_dnets
serves-set_router_dnets c s snet a address nets dnet =
    elim (Bool-cases (is_nets (get_router_dnets c s a) nets)) [
      | inl kept ↦ rw kept (
          if_known (at_router s a snet address)
            (member dnet (or_empty (get_router_dnets c snet address))) (member dnet nets)
            (member dnet (or_empty (get_router_dnets c snet address)))
            (λ h.
              ap (λ o. member dnet (or_empty o)) (at_router_same c s snet a address h)
              ∙ is_nets_lem (get_router_dnets c s a) nets dnet kept)
            (λ h. refl))
      | inr changed ↦
          rw (changed, get_router_dnets, lookup-put_router s snet a address nets c.router_dnets)
            (member_if (at_router s a snet address) nets
              (lookup router_key (snet, address) c.router_dnets) dnet)
    ]

pub serves-delete_router_dnets :
    (c : Cache) (s snet : Option ℕ) (a address : Address) (dnet : ℕ)
    → serves (delete_router_dnets c s a).1 snet address dnet
      ≡ (if at_router s a snet address then false else serves c snet address dnet)
unfolding serves delete_router_dnets member
serves-delete_router_dnets c s snet a address dnet = elim (Option-cases (get_router_dnets c s a)) [
  | inl missing ↦ rw missing (
      if_known (at_router s a snet address)
        (member dnet (or_empty (get_router_dnets c snet address))) false
        (member dnet (or_empty (get_router_dnets c snet address)))
        (λ h. ap (λ o. member dnet (or_empty o)) (at_router_same c s snet a address h ∙ missing))
        (λ h. refl))
  | inr (nets, found) ↦
      rw (found, get_router_dnets, lookup-delete_router s snet a address c.router_dnets)
        (elim (Bool-cases (at_router s a snet address)) [ inl h ↦ rw h refl | inr h ↦ rw h refl ])
]

-- Each dictionary is left by what writes the other.
pub get_path_info-set_router_dnets :
    (c : Cache) (s snet : Option ℕ) (a : Address) (nets : Nets) (dnet : ℕ)
    → get_path_info (set_router_dnets c s a nets).1 snet dnet ≡ get_path_info c snet dnet
unfolding set_router_dnets get_path_info
get_path_info-set_router_dnets c s snet a nets dnet =
    elim (Bool-cases (is_nets (get_router_dnets c s a) nets)) [
      | inl e ↦ rw e refl
      | inr e ↦ rw e refl
    ]

pub get_path_info-delete_router_dnets :
    (c : Cache) (s snet : Option ℕ) (a : Address) (dnet : ℕ)
    → get_path_info (delete_router_dnets c s a).1 snet dnet ≡ get_path_info c snet dnet
unfolding delete_router_dnets get_path_info
get_path_info-delete_router_dnets c s snet a dnet =
    elim (Bool-cases (is_some (get_router_dnets c s a))) [ inl e ↦ rw e refl | inr e ↦ rw e refl ]

pub serves-set_path_info :
    (c : Cache) (s snet : Option ℕ) (n : ℕ) (a address : Address) (status : RouterStatus) (dnet : ℕ)
    → serves (set_path_info c s n a status).1 snet address dnet ≡ serves c snet address dnet
unfolding serves set_path_info get_router_dnets
serves-set_path_info c s snet n a address status dnet =
    elim (Bool-cases (is_path (get_path_info c s n) a status)) [
      | inl e ↦ rw e refl
      | inr e ↦ rw e refl
    ]

pub serves-delete_path_info :
    (c : Cache) (s snet : Option ℕ) (n : ℕ) (address : Address) (dnet : ℕ)
    → serves (delete_path_info c s n).1 snet address dnet ≡ serves c snet address dnet
unfolding serves delete_path_info get_router_dnets
serves-delete_path_info c s snet n address dnet =
    elim (Bool-cases (is_some (get_path_info c s n))) [ inl e ↦ rw e refl | inr e ↦ rw e refl ]

-- A set is stored, and no entry is left of an empty one.
pub serves-store_dnets :
    (c : Cache) (s snet : Option ℕ) (a address : Address) (nets : Nets) (dnet : ℕ)
    → serves (store_dnets s a nets c) snet address dnet
      ≡ (if at_router s a snet address then member dnet nets else serves c snet address dnet)
unfolding store_dnets member
serves-store_dnets c s snet a address [] dnet =
    let stored = serves-set_router_dnets c s snet a address [] dnet in
    let deleted = serves-delete_router_dnets (set_router_dnets c s a []).1 s snet a address dnet in
    elim (Bool-cases (at_router s a snet address)) [
      | inl e ↦ rw (deleted, e) refl
      | inr e ↦ rw (deleted, stored, e) refl
    ]
serves-store_dnets c s snet a address (n ∷ nets) dnet =
    serves-set_router_dnets c s snet a address (n ∷ nets) dnet

pub get_path_info-store_dnets :
    (c : Cache) (s snet : Option ℕ) (a : Address) (nets : Nets) (dnet : ℕ)
    → get_path_info (store_dnets s a nets c) snet dnet ≡ get_path_info c snet dnet
unfolding store_dnets
get_path_info-store_dnets c s snet a [] dnet =
    get_path_info-delete_router_dnets (set_router_dnets c s a []).1 s snet a dnet
    ∙ get_path_info-set_router_dnets c s snet a [] dnet
get_path_info-store_dnets c s snet a (n ∷ nets) dnet =
    get_path_info-set_router_dnets c s snet a (n ∷ nets) dnet
