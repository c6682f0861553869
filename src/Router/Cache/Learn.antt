-- ===== src/Router/Cache/Learn.antt =====
-- bacpypes3/netservice.py, `RouterInfoCache.update_path_info` against the table of paths.
use bacpypes.Prelude.{
  ℕ, ◌≡◌, refl, sym, ◌∙◌, ap, true, false, Option, none, some, [], ◌∷◌, Bool-cases, inl, inr,
  if◌then◌else◌, arith,
}
use bacpypes.Pdu.{ok}
use bacpypes.Address.{Address}
use bacpypes.Router.Keys.{net_key, same_net}
use bacpypes.Router.Nets.{
  Nets, member, difference, union, IsNetSet, member-difference, member-union, difference-IsNetSet,
}
use bacpypes.Router.Cache.{
  available, Cache, get_router_dnets, set_router_dnets, continue, is_empty, set_paths, learn_nets,
  learn_from, update_path_info,
}
use bacpypes.Router.Cache.Views.{
  serves, leads_to, at_router, get_path_info-set_router_dnets, serves-set_router_dnets,
}
use bacpypes.Router.Cache.Loops.{
  Released, among, for_each-Released, get_path_info-set_paths, serves-set_paths, serves_of,
  serves_router,
}
use bacpypes.Router.Cache.Table.{Table, Implements, learn}

-- The table that is left once the new networks of a router have been learned.
unfoldable overwrite : Option ℕ → Address → Nets → Table → Table
overwrite snet address dnets t s n =
    if among snet dnets s n then some (address, available) else t s n

learned :
    (c d : Cache) (t : Table) (snet : Option ℕ) (address : Address) (nets dnets : Nets)
    → Implements c t
    → ((n : ℕ) → member n nets ≡ serves c snet address n)
    → Released c d (among snet dnets)
    → Implements
        (set_paths snet address available dnets
          ((set_router_dnets d snet address (union nets dnets)).1))
        (overwrite snet address dnets t)
unfolding overwrite
learned c d t snet address nets dnets i known r =
    let stored : Cache = (set_router_dnets d snet address (union nets dnets)).1 in
    record {
      paths = λ s n.
          get_path_info-set_paths stored snet address available dnets s n
          ∙ ap (λ o. if among snet dnets s n then some (address, available) else o)
              (get_path_info-set_router_dnets d snet s address (union nets dnets) n
                ∙ r.paths s n
                ∙ i.paths s n);
      routers = λ s a n.
          serves-set_paths stored snet address available dnets s a n
          ∙ serves-set_router_dnets d snet s address a (union nets dnets) n
          ∙ elim (Bool-cases (at_router snet address s a)) [
            | inl e ↦
                let had : serves c s a n ≡ serves c snet address n =
                  serves_router c snet s address a n e in
                ground (arith, e, had, known n, i.routers s a n, member-union n nets dnets)
            | inr e ↦ ground (arith, e, r.routers s a n, i.routers s a n)
          ];
    }

learn_nets-Implements :
    (c : Cache) (t : Table) (snet : Option ℕ) (address : Address) (nets dnets : Nets)
    → Implements c t
    → IsNetSet dnets
    → ((n : ℕ) → member n nets ≡ serves c snet address n)
    → (d : Cache) × (learn_nets snet address nets dnets c ≡ ok d)
      × Implements d (overwrite snet address dnets t)
unfolding learn_nets
learn_nets-Implements c t snet address nets dnets i distinct known =
    let (d, runs, r) =
      for_each-Released c snet dnets distinct
        (λ n later a. i.routers snet a n ∙ ap (λ o. leads_to o a) (sym (i.paths snet n))) in
    (
      set_paths snet address available dnets
          ((set_router_dnets d snet address (union nets dnets)).1),
      ap
          (λ e. continue e λ released. ok (
            set_paths snet address available dnets
              ((set_router_dnets released snet address (union nets dnets)).1)))
          runs,
      learned c d t snet address nets dnets i known r,
    )

pub Implements-same :
    (c : Cache) (t u : Table)
    → Implements c t
    → ((s : Option ℕ) (n : ℕ) → t s n ≡ u s n)
    → Implements c u
Implements-same c t u i same = record {
  paths = λ s n. i.paths s n ∙ same s n;
  routers = λ s a n. i.routers s a n ∙ ap (λ o. leads_to o a) (same s n);
}

-- What leads to a router, from the network that it is on.
pub leads_known :
    (c : Cache) (t : Table) (snet s : Option ℕ) (address : Address) (nets : Nets) (n : ℕ)
    → Implements c t
    → ((m : ℕ) → member m nets ≡ serves c snet address m)
    → same_net snet s ≡ true
    → leads_to (t s n) address ≡ member n nets
leads_known c t snet s address nets n i known same =
    sym (i.routers s address n)
    ∙ ap (λ r. serves c r address n) (sym (net_key.sound_law snet s same))
    ∙ sym (known n)

overwrite-difference :
    (c : Cache) (t : Table) (snet s : Option ℕ) (address : Address) (nets dnets : Nets) (n : ℕ)
    → Implements c t
    → ((m : ℕ) → member m nets ≡ serves c snet address m)
    → overwrite snet address (difference dnets nets) t s n ≡ learn snet address dnets t s n
unfolding overwrite learn
overwrite-difference c t snet s address nets dnets n i known = elim (Bool-cases (same_net snet s)) [
  | inl e ↦
      ground
        (arith, e, leads_known c t snet s address nets n i known e, member-difference n dnets nets)
  | inr e ↦ ground (arith, e)
]

overwrite_all :
    (c : Cache) (t : Table) (snet s : Option ℕ) (address : Address) (dnets : Nets) (n : ℕ)
    → Implements c t
    → ((m : ℕ) → member m [] ≡ serves c snet address m)
    → overwrite snet address dnets t s n ≡ learn snet address dnets t s n
unfolding overwrite learn member
overwrite_all c t snet s address dnets n i known = elim (Bool-cases (same_net snet s)) [
  | inl e ↦ ground (arith, e, leads_known c t snet s address [] n i known e)
  | inr e ↦ ground (arith, e)
]

is_empty_lem : (nets : Nets) (n : ℕ) → is_empty nets ≡ true → member n nets ≡ false
unfolding member
is_empty_lem [] n h = refl
is_empty_lem (m ∷ nets) n h = ground arith

overwrite_none :
    (t : Table) (snet s : Option ℕ) (address : Address) (dnets : Nets) (n : ℕ)
    → is_empty dnets ≡ true
    → t s n ≡ overwrite snet address dnets t s n
unfolding overwrite
overwrite_none t snet s address dnets n none_new = ground (arith, is_empty_lem dnets n none_new)

learn_from-Implements :
    (c : Cache) (t : Table) (snet : Option ℕ) (address : Address) (dnets : Nets) (o : Option Nets)
    → Implements c t
    → IsNetSet dnets
    → get_router_dnets c snet address ≡ o
    → (d : Cache) × (learn_from snet address dnets o c ≡ ok d)
      × Implements d (learn snet address dnets t)
unfolding learn_from
learn_from-Implements c t snet address dnets none i distinct stored =
    let known : (m : ℕ) → member m [] ≡ serves c snet address m =
      λ m. sym (serves_of c snet address m none stored) in
    let (d, runs, j) = learn_nets-Implements c t snet address [] dnets i distinct known in
    (d, runs, Implements-same d _ _ j (λ s n. overwrite_all c t snet s address dnets n i known))
learn_from-Implements c t snet address dnets (some nets) i distinct stored =
    let new_dnets : Nets = difference dnets nets in
    let known : (m : ℕ) → member m nets ≡ serves c snet address m =
      λ m. sym (serves_of c snet address m (some nets) stored) in
    let now : (s : Option ℕ) (n : ℕ)
        → overwrite snet address new_dnets t s n ≡ learn snet address dnets t s n =
      λ s n. overwrite-difference c t snet s address nets dnets n i known in
    elim (Bool-cases (is_empty new_dnets)) [
      | inl e ↦ rw e (
        c,
        refl,
        Implements-same c _ _ i (λ s n. overwrite_none t snet s address new_dnets n e ∙ now s n),
      )
      | inr e ↦
          let (d, runs, j) =
            learn_nets-Implements c t snet address nets new_dnets i
              (difference-IsNetSet dnets nets distinct) known in
          rw e (d, runs, Implements-same d _ _ j now)
    ]

-- Of a cache that implements a table of paths, `update_path_info` with a set of networks raises
-- nothing, and gives a cache that implements the table in which each network of the set, if it does
-- not lead to the router already, leads to it and is available.
pub update_path_info-Implements :
    (c : Cache) (t : Table) (snet : Option ℕ) (address : Address) (dnets : Nets)
    → Implements c t
    → IsNetSet dnets
    → (d : Cache) × (update_path_info snet address dnets c ≡ ok d)
      × Implements d (learn snet address dnets t)
unfolding update_path_info
update_path_info-Implements c t snet address dnets i distinct =
    learn_from-Implements c t snet address dnets (get_router_dnets c snet address) i distinct refl
