-- ===== src/Router/Cache/Forget.antt =====
-- bacpypes3/netservice.py, `RouterInfoCache.remove_path_info` and `update_router_status` against the
-- table of paths.
use bacpypes.Prelude.{
  ℕ, ◌≡◌, refl, sym, ◌∙◌, ap, true, false, Option, none, some, [], ◌∷◌, Bool-cases, Option-cases,
  inl, inr, if◌then◌else◌, arith,
}
use bacpypes.Pdu.{ok}
use bacpypes.Address.{Address}
use bacpypes.Router.Keys.{address_key, same_net, same_address}
use bacpypes.Router.Nets.{Nets, member, remove, difference, member-difference}
use bacpypes.Router.Cache.{
  RouterStatus, RouterPath, Cache, get_path_info, delete_path_info, get_router_dnets,
  set_router_dnets, delete_router_dnets, for_each, is_empty, delete_paths, forget_router,
  forget_old, forget_path, forget_net, remove_path_info, mark_nets, update_router_status,
}
use bacpypes.Router.Cache.Views.{
  serves, leads_to, at_path, at_path_same, get_path_info-delete_path_info,
  get_path_info-set_router_dnets, get_path_info-delete_router_dnets, serves-delete_path_info,
  serves-set_router_dnets, serves-delete_router_dnets,
}
use bacpypes.Router.Cache.Loops.{
  among, get_path_info-set_paths, serves-set_paths, serves_of, serves_taken, path_stored,
}
use bacpypes.Router.Cache.Table.{Table, Implements, forget, forget_nets, mark}
use bacpypes.Router.Cache.Learn.{leads_known, Implements-same}

-- What leads to a router leads to no other.
leads_as :
    (o : Option RouterPath) (address a : Address)
    → leads_to o address ≡ true
    → leads_to o a ≡ same_address address a
leads_as none address a h = ground arith
leads_as (some p) address a h = ap (λ b. same_address b a) (address_key.sound_law p.0 address h)

leads_same :
    (o : Option RouterPath) (address a : Address)
    → same_address address a ≡ true
    → leads_to o address ≡ leads_to o a
leads_same o address a h = ap (leads_to o) (address_key.sound_law address a h)

get_path_info-delete_paths :
    (c : Cache) (snet : Option ℕ) (dnets : Nets) (s : Option ℕ) (n : ℕ)
    → get_path_info (delete_paths snet dnets c) s n
      ≡ (if among snet dnets s n then none else get_path_info c s n)
unfolding delete_paths member
get_path_info-delete_paths c snet [] s n = ground arith
get_path_info-delete_paths c snet (dnet ∷ dnets) s n = ground (
  arith,
  get_path_info-delete_paths ((delete_path_info c snet dnet).1) snet dnets s n,
  get_path_info-delete_path_info c snet s dnet n,
)

serves-delete_paths :
    (c : Cache) (snet : Option ℕ) (dnets : Nets) (s : Option ℕ) (a : Address) (n : ℕ)
    → serves (delete_paths snet dnets c) s a n ≡ serves c s a n
unfolding delete_paths
serves-delete_paths c snet [] s a n = refl
serves-delete_paths c snet (dnet ∷ dnets) s a n =
    serves-delete_paths ((delete_path_info c snet dnet).1) snet dnets s a n
    ∙ serves-delete_path_info c snet s dnet a n

none_in : (nets : Nets) → ((n : ℕ) → member n nets ≡ false) → is_empty nets ≡ true
unfolding member
none_in [] h = refl
none_in (m ∷ nets) h = let first = h m in ground arith

difference_self : (nets : Nets) → is_empty (difference nets nets) ≡ true
difference_self nets =
    none_in (difference nets nets) (λ n. member-difference n nets nets ∙ ground arith)

forget_router-Implements :
    (c : Cache) (t : Table) (snet : Option ℕ) (address : Address) (o : Option Nets)
    → Implements c t
    → get_router_dnets c snet address ≡ o
    → (d : Cache) × (forget_router snet address o none c ≡ ok d)
      × Implements d (forget snet address t)
unfolding forget_router forget member
forget_router-Implements c t snet address none i stored = (
  c,
  refl,
  Implements-same c t _ i (λ s n. elim (Bool-cases (same_net snet s)) [
    | inl e ↦
        let known =
          leads_known c t snet s address [] n i (λ m. sym (serves_of c snet address m none stored))
            e in
        ground (arith, e, known)
    | inr e ↦ ground (arith, e)
  ]),
)
forget_router-Implements c t snet address (some nets) i stored =
    let deleted : Cache = delete_paths snet nets c in
    let known : (s : Option ℕ) (n : ℕ)
        → same_net snet s ≡ true
        → leads_to (t s n) address ≡ member n nets =
      λ s n.
        leads_known c t snet s address nets n i
          (λ m. sym (serves_of c snet address m (some nets) stored)) in
    (
      (delete_router_dnets deleted snet address).1,
      rw (difference_self nets) refl,
      record {
        paths = λ s n.
            get_path_info-delete_router_dnets deleted snet s address n
            ∙ get_path_info-delete_paths c snet nets s n
            ∙ elim (Bool-cases (same_net snet s)) [
              | inl e ↦ ground (arith, e, known s n e, i.paths s n)
              | inr e ↦ ground (arith, e, i.paths s n)
            ];
        routers = λ s a n.
            serves-delete_router_dnets deleted snet s address a n
            ∙ ground (
              arith,
              serves-delete_paths c snet nets s a n,
              i.routers s a n,
              leads_as (t s n) address a,
              leads_same (t s n) address a,
            );
      },
    )

-- Of a cache that implements a table of paths, `remove_path_info` with the address of a router and no
-- networks raises nothing, and gives a cache that implements the table without the paths to it.
pub remove_path_info-Implements :
    (c : Cache) (t : Table) (snet : Option ℕ) (address : Address)
    → Implements c t
    → (d : Cache) × (remove_path_info snet (some address) none c ≡ ok d)
      × Implements d (forget snet address t)
unfolding remove_path_info
remove_path_info-Implements c t snet address i =
    forget_router-Implements c t snet address (get_router_dnets c snet address) i refl

-- The paths to a network are forgotten.
unfoldable drop_path : Option ℕ → ℕ → Table → Table
drop_path snet dnet t s n = if at_path snet dnet s n then none else t s n

drop_missing :
    (c : Cache) (t : Table) (snet : Option ℕ) (dnet : ℕ)
    → Implements c t
    → get_path_info c snet dnet ≡ none
    → Implements c (drop_path snet dnet t)
unfolding drop_path
drop_missing c t snet dnet i missing = Implements-same c t _ i (λ s n.
    elim (Bool-cases (at_path snet dnet s n)) [
      | inl e ↦ rw e (sym (i.paths s n) ∙ at_path_same c snet s dnet n e ∙ missing)
      | inr e ↦ rw e refl
    ])

drop_taken :
    (c : Cache) (t : Table) (snet : Option ℕ) (dnet : ℕ) (p : RouterPath) (nets : Nets)
    → Implements c t
    → get_path_info c snet dnet ≡ some p
    → get_router_dnets c snet p.0 ≡ some nets
    → Implements
        ((delete_path_info (set_router_dnets c snet p.0 (remove dnet nets)).1 snet dnet).1)
        (drop_path snet dnet t)
unfolding drop_path
drop_taken c t snet dnet p nets i found stored =
    let taken : Cache = (set_router_dnets c snet p.0 (remove dnet nets)).1 in
    let agrees : (a : Address) → serves c snet a dnet ≡ leads_to (get_path_info c snet dnet) a =
      λ a. i.routers snet a dnet ∙ ap (λ o. leads_to o a) (sym (i.paths snet dnet)) in
    record {
      paths = λ s n.
          get_path_info-delete_path_info taken snet s dnet n
          ∙ ap (λ o. if at_path snet dnet s n then none else o)
              (get_path_info-set_router_dnets c snet s p.0 (remove dnet nets) n ∙ i.paths s n);
      routers = λ s a n.
          serves-delete_path_info taken snet s dnet a n
          ∙ serves-set_router_dnets c snet s p.0 a (remove dnet nets) n
          ∙ serves_taken c snet s dnet n p nets a agrees found stored
          ∙ ground (arith, i.routers s a n);
    }

forget_net-Implements :
    (c : Cache) (t : Table) (snet : Option ℕ) (dnet : ℕ)
    → Implements c t
    → (d : Cache) × (forget_net snet dnet c ≡ ok d) × Implements d (drop_path snet dnet t)
unfolding forget_net forget_path forget_old
forget_net-Implements c t snet dnet i = elim (Option-cases (get_path_info c snet dnet)) [
  | inl missing ↦ rw missing (c, refl, drop_missing c t snet dnet i missing)
  | inr (p, found) ↦
      let (nets, stored, present) =
        path_stored c snet dnet p
          (λ a. i.routers snet a dnet ∙ ap (λ o. leads_to o a) (sym (i.paths snet dnet))) found in
      rw (found, stored, present)
        (
          (delete_path_info (set_router_dnets c snet p.0 (remove dnet nets)).1 snet dnet).1,
          refl,
          drop_taken c t snet dnet p nets i found stored,
        )
]

-- Of a cache that implements a table of paths, `remove_path_info` with networks and no address raises
-- nothing, and gives a cache that implements the table without the paths to those networks.
pub remove_nets-Implements :
    (c : Cache) (t : Table) (snet : Option ℕ) (dnets : Nets)
    → Implements c t
    → (d : Cache) × (remove_path_info snet none (some dnets) c ≡ ok d)
      × Implements d (forget_nets snet dnets t)
unfolding remove_path_info for_each forget_nets member drop_path
remove_nets-Implements c t snet [] i = (c, refl, Implements-same c t _ i (λ s n. ground arith))
remove_nets-Implements c t snet (dnet ∷ dnets) i =
    let (d, runs, j) = forget_net-Implements c t snet dnet i in
    let (e, runs_on, k) = remove_nets-Implements d (drop_path snet dnet t) snet dnets j in
    (e, rw runs runs_on, Implements-same e _ _ k (λ s n. ground arith))

mark_nets-Implements :
    (c : Cache) (t : Table) (snet : Option ℕ) (address : Address) (status : RouterStatus)
    (o : Option Nets)
    → Implements c t
    → get_router_dnets c snet address ≡ o
    → Implements (mark_nets snet address status o c) (mark snet address status t)
unfolding mark_nets mark member
mark_nets-Implements c t snet address status none i stored = Implements-same c t _ i (λ s n.
    elim (Bool-cases (same_net snet s)) [
      | inl e ↦
          let known =
            leads_known c t snet s address [] n i
              (λ m. sym (serves_of c snet address m none stored)) e in
          ground (arith, e, known)
      | inr e ↦ ground (arith, e)
    ])
mark_nets-Implements c t snet address status (some nets) i stored =
    let known : (s : Option ℕ) (n : ℕ)
        → same_net snet s ≡ true
        → leads_to (t s n) address ≡ member n nets =
      λ s n.
        leads_known c t snet s address nets n i
          (λ m. sym (serves_of c snet address m (some nets) stored)) in
    record {
      paths = λ s n.
          get_path_info-set_paths c snet address status nets s n
          ∙ elim (Bool-cases (same_net snet s)) [
            | inl e ↦ ground (arith, e, known s n e, i.paths s n)
            | inr e ↦ ground (arith, e, i.paths s n)
          ];
      routers = λ s a n.
          serves-set_paths c snet address status nets s a n
          ∙ ground (arith, i.routers s a n, leads_as (t s n) address a);
    }

-- Of a cache that implements a table of paths, `update_router_status` gives a cache that implements
-- the table in which every path to the router has the new status.
pub update_router_status-Implements :
    (c : Cache) (t : Table) (snet : Option ℕ) (address : Address) (status : RouterStatus)
    → Implements c t
    → Implements (update_router_status snet address status c) (mark snet address status t)
unfolding update_router_status
update_router_status-Implements c t snet address status i =
    mark_nets-Implements c t snet address status (get_router_dnets c snet address) i refl
