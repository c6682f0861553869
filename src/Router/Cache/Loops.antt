-- ===== src/Router/Cache/Loops.antt =====
-- bacpypes3/netservice.py, the loops over networks: what they do to the paths and to the
-- sets of the routers.
use bacpypes.Prelude.{
  ℕ, ◌≡◌, refl, sym, ◌∙◌, ap, ap₂, Bool, true, false, ◌&&◌, not, Option, none, some, [], ◌∷◌, ◌==◌,
  ==_iff, Bool-cases, Option-cases, inl, inr, if◌then◌else◌, arith,
}
use bacpypes.Pdu.{ok}
use bacpypes.Address.{Address}
use bacpypes.Router.Keys.{net_key, address_key, same_net, same_address}
use bacpypes.Router.Nets.{Nets, member, remove, IsNetSet, member-remove}
use bacpypes.Router.Cache.{
  RouterStatus, RouterPath, Cache, get_path_info, set_path_info, get_router_dnets, for_each,
  store_dnets, release_old, release_path, release_net, set_paths,
}
use bacpypes.Router.Cache.Views.{
  or_empty, serves, leads_to, at_path, at_router, at_router_same, get_path_info-set_path_info,
  serves-set_path_info, serves-store_dnets, get_path_info-store_dnets,
}

-- Networks have been taken from their routers, and their paths are as before.
pub record Released (c d : Cache) (gone : Option ℕ → ℕ → Bool) : Type 0 where
  pub paths : (s : Option ℕ) (n : ℕ) → get_path_info d s n ≡ get_path_info c s n
  pub routers :
      (s : Option ℕ) (a : Address) (n : ℕ) → serves d s a n ≡ (serves c s a n && not (gone s n))

-- The path to a network leads to the router that has it.
abbrev pub Agrees : Cache → Option ℕ → ℕ → Type 0
Agrees c snet dnet = (a : Address) → serves c snet a dnet ≡ leads_to (get_path_info c snet dnet) a

pub serves_same :
    (c : Cache) (s snet : Option ℕ) (n dnet : ℕ) (a : Address)
    → at_path s n snet dnet ≡ true
    → serves c snet a dnet ≡ serves c s a n
serves_same c s snet n dnet a h =
    let first : same_net s snet ≡ true = ground arith in
    let second : n == dnet ≡ true = ground arith in
    ap₂ (λ t m. serves c t a m) (sym (net_key.sound_law s snet first))
      (sym ((==_iff n dnet).0 second))

-- A network without a path is in no set.
release_none :
    (c : Cache) (snet : Option ℕ) (dnet : ℕ)
    → Agrees c snet dnet
    → get_path_info c snet dnet ≡ none
    → Released c c (at_path snet dnet)
release_none c snet dnet agrees missing = record {
  paths = λ s n. refl;
  routers = λ s a n. elim (Bool-cases (at_path snet dnet s n)) [
    | inl e ↦
        let unserved : serves c s a n ≡ false =
          serves_same c snet s dnet n a e ∙ agrees a ∙ ap (λ o. leads_to o a) missing in
        rw (e, unserved) refl
    | inr e ↦ ground (arith, e)
  ];
}

pub serves_router :
    (c : Cache) (snet s : Option ℕ) (address a : Address) (n : ℕ)
    → at_router snet address s a ≡ true
    → serves c s a n ≡ serves c snet address n
unfolding serves
serves_router c snet s address a n e =
    ap (λ o. member n (or_empty o)) (at_router_same c snet s address a e)

pub serves_of :
    (c : Cache) (s : Option ℕ) (a : Address) (n : ℕ) (o : Option Nets)
    → get_router_dnets c s a ≡ o
    → serves c s a n ≡ member n (or_empty o)
unfolding serves
serves_of c s a n o e = ap (λ p. member n (or_empty p)) e

-- A network with a path is taken from the set of its router alone.
pub serves_taken :
    (c : Cache) (snet s : Option ℕ) (dnet n : ℕ) (p : RouterPath) (nets : Nets) (a : Address)
    → Agrees c snet dnet
    → get_path_info c snet dnet ≡ some p
    → get_router_dnets c snet p.0 ≡ some nets
    → (if at_router snet p.0 s a then member n (remove dnet nets) else serves c s a n)
      ≡ (serves c s a n && not (at_path snet dnet s n))
unfolding serves
serves_taken c snet s dnet n p nets a agrees found stored =
    elim (Bool-cases (at_router snet p.0 s a)) [
      | inl e ↦
          let had : serves c s a n ≡ member n nets =
            ap (λ o. member n (or_empty o)) (at_router_same c snet s p.0 a e ∙ stored) in
          rw e (member-remove dnet n nets ∙ ground (arith, e, had))
      | inr e ↦ rw e (elim (Bool-cases (at_path snet dnet s n)) [
        | inl h ↦
            let other : same_address p.0 a ≡ false = ground (arith, e, h) in
            let unserved : serves c s a n ≡ false =
              serves_same c snet s dnet n a h ∙ agrees a ∙ ap (λ o. leads_to o a) found ∙ other in
            ground (arith, h, unserved)
        | inr h ↦ ground (arith, h)
      ])
    ]

release_some :
    (c : Cache) (snet : Option ℕ) (dnet : ℕ) (p : RouterPath) (nets : Nets)
    → Agrees c snet dnet
    → get_path_info c snet dnet ≡ some p
    → get_router_dnets c snet p.0 ≡ some nets
    → Released c (store_dnets snet p.0 (remove dnet nets) c) (at_path snet dnet)
release_some c snet dnet p nets agrees found stored = record {
  paths = λ s n. get_path_info-store_dnets c snet s p.0 (remove dnet nets) n;
  routers = λ s a n.
      serves-store_dnets c snet s p.0 a (remove dnet nets) n
      ∙ serves_taken c snet s dnet n p nets a agrees found stored;
}

-- A path is held by the set of its router.
pub path_stored :
    (c : Cache) (snet : Option ℕ) (dnet : ℕ) (p : RouterPath)
    → Agrees c snet dnet
    → get_path_info c snet dnet ≡ some p
    → (nets : Nets) × (get_router_dnets c snet p.0 ≡ some nets) × (member dnet nets ≡ true)
unfolding member
path_stored c snet dnet p agrees found =
    let served : serves c snet p.0 dnet ≡ true =
      agrees p.0 ∙ ap (λ o. leads_to o p.0) found ∙ address_key.refl_law p.0 in
    elim (Option-cases (get_router_dnets c snet p.0)) [
      | inl none_stored ↦
          let unserved = serves_of c snet p.0 dnet none none_stored in
          absurd (ground (arith, served, unserved))
      | inr (nets, stored) ↦
          (nets, stored, sym (serves_of c snet p.0 dnet (some nets) stored) ∙ served)
    ]

release_net-Released :
    (c : Cache) (snet : Option ℕ) (dnet : ℕ)
    → Agrees c snet dnet
    → (d : Cache) × (release_net snet dnet c ≡ ok d) × Released c d (at_path snet dnet)
unfolding release_net release_path release_old
release_net-Released c snet dnet agrees = elim (Option-cases (get_path_info c snet dnet)) [
  | inl missing ↦ rw missing (c, refl, release_none c snet dnet agrees missing)
  | inr (p, found) ↦
      let (nets, stored, present) = path_stored c snet dnet p agrees found in
      rw (found, stored, present)
        (
          store_dnets snet p.0 (remove dnet nets) c,
          refl,
          release_some c snet dnet p nets agrees found stored,
        )
]

-- The networks of a loop.
abbrev pub among : Option ℕ → Nets → Option ℕ → ℕ → Bool
among snet dnets s n = same_net snet s && member n dnets

Released-next :
    (c d e : Cache) (snet : Option ℕ) (dnet : ℕ) (dnets : Nets)
    → Released c d (at_path snet dnet)
    → Released d e (among snet dnets)
    → Released c e (among snet (dnet ∷ dnets))
unfolding member
Released-next c d e snet dnet dnets first rest = record {
  paths = λ s n. rest.paths s n ∙ first.paths s n;
  routers = λ s a n. ground (arith, rest.routers s a n, first.routers s a n);
}

pub member_ne :
    (dnet n : ℕ) (dnets : Nets)
    → member dnet dnets ≡ false
    → member n dnets ≡ true
    → dnet == n ≡ false
member_ne dnet n dnets fresh later = elim (Bool-cases (dnet == n)) [
  | inl e ↦
      let same_number : member dnet dnets ≡ member n dnets =
        ap (λ k. member k dnets) ((==_iff dnet n).0 e) in
      absurd (ground (arith, same_number))
  | inr e ↦ e
]

Agrees-later :
    (c d : Cache) (snet : Option ℕ) (dnet : ℕ) (dnets : Nets) (n : ℕ)
    → Released c d (at_path snet dnet)
    → member dnet dnets ≡ false
    → member n dnets ≡ true
    → Agrees c snet n
    → Agrees d snet n
Agrees-later c d snet dnet dnets n released fresh later agrees = λ a.
    let other : dnet == n ≡ false = member_ne dnet n dnets fresh later in
    let kept : serves d snet a n ≡ serves c snet a n =
      ground (arith, released.routers snet a n, other) in
    kept ∙ agrees a ∙ ap (λ o. leads_to o a) (sym (released.paths snet n))

pub for_each-Released :
    (c : Cache) (snet : Option ℕ) (dnets : Nets)
    → IsNetSet dnets
    → ((n : ℕ) → member n dnets ≡ true → Agrees c snet n)
    → (d : Cache) × (for_each (release_net snet) dnets c ≡ ok d) × Released c d (among snet dnets)
unfolding for_each member
for_each-Released c snet [] s agrees =
    (c, refl, record { paths = λ s n. refl; routers = λ s a n. ground arith })
for_each-Released c snet (dnet ∷ dnets) (fresh, s) agrees =
    let here : member dnet (dnet ∷ dnets) ≡ true = ground arith in
    let (d, runs, first) = release_net-Released c snet dnet (agrees dnet here) in
    let (e, runs_on, rest) = for_each-Released d snet dnets s (λ n later.
      let still : member n (dnet ∷ dnets) ≡ true = ground (arith, later) in
      Agrees-later c d snet dnet dnets n first fresh later (agrees n still)) in
    (e, rw (runs, runs_on) refl, Released-next c d e snet dnet dnets first rest)

pub get_path_info-set_paths :
    (c : Cache) (snet : Option ℕ) (address : Address) (status : RouterStatus) (dnets : Nets)
    (s : Option ℕ) (n : ℕ)
    → get_path_info (set_paths snet address status dnets c) s n
      ≡ (if among snet dnets s n then some (address, status) else get_path_info c s n)
unfolding set_paths member
get_path_info-set_paths c snet address status [] s n = ground arith
get_path_info-set_paths c snet address status (dnet ∷ dnets) s n = ground (
  arith,
  get_path_info-set_paths ((set_path_info c snet dnet address status).1) snet address status dnets s
      n,
  get_path_info-set_path_info c snet s dnet n address status,
)

pub serves-set_paths :
    (c : Cache) (snet : Option ℕ) (address : Address) (status : RouterStatus) (dnets : Nets)
    (s : Option ℕ) (a : Address) (n : ℕ)
    → serves (set_paths snet address status dnets c) s a n ≡ serves c s a n
unfolding set_paths
serves-set_paths c snet address status [] s a n = refl
serves-set_paths c snet address status (dnet ∷ dnets) s a n =
    serves-set_paths ((set_path_info c snet dnet address status).1) snet address status dnets s a n
    ∙ serves-set_path_info c snet s dnet address a status n
