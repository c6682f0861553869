-- ===== src/Router/Tests.antt =====
-- Runs of the router cache on concrete networks, and its theorems at concrete inputs.
use bacpypes.Prelude.{ℕ, ◌≡◌, refl, sym, ◌∙◌, ap, subst, none, some, [], ◌∷◌}
use bacpypes.Pdu.{Result, ok, err, name_error}
use bacpypes.Address.{Address, local_station}
use bacpypes.Router.Keys.{
  net_key, address_key, number_key, pair_key, by_discrete, Address-discrete, Net-discrete,
  ℕ_discrete,
}
use bacpypes.Router.Dict.{lookup, put_key, delete_key}
use bacpypes.Router.Nets.{member, remove, difference, union, is_subset, same_nets}
use bacpypes.Router.Cache.{
  available, busy, Cache, new_cache, get_path_info, set_path_info, get_router_dnets,
  set_router_dnets, delete_router_dnets, for_each, store_dnets, release_old, release_path,
  release_net, set_paths, learn_nets, learn_from, update_path_info, remove_path_info, forget_router,
  update_router_status,
}
use bacpypes.Router.Cache.Views.{serves}
use bacpypes.Router.Cache.Table.{Table, Implements, learn, forget, forget_nets, mark}
use bacpypes.Router.Cache.Learn.{update_path_info-Implements}
use bacpypes.Router.Cache.Forget.{
  remove_path_info-Implements, remove_nets-Implements, update_router_status-Implements,
}

abbrev no_paths : Table
no_paths s n = none

new_cache-Implements : Implements new_cache no_paths
unfolding get_path_info get_router_dnets serves lookup member
new_cache-Implements = record { paths = λ s n. refl; routers = λ s a n. refl }

abbrev router : ℕ → Address
router n = local_station (n ∷ [])

-- Network 6 is announced by a first router and then by a second.
abbrev first_cache : Cache
first_cache = record {
  path_info = ((some 1, 5), (router 7, available)) ∷ ((some 1, 6), (router 7, available)) ∷ [];
  router_dnets = ((some 1, router 7), 5 ∷ 6 ∷ []) ∷ [];
}

abbrev second_cache : Cache
second_cache = record {
  path_info = ((some 1, 5), (router 7, available)) ∷ ((some 1, 6), (router 8, available)) ∷ [];
  router_dnets = ((some 1, router 7), 5 ∷ []) ∷ ((some 1, router 8), 6 ∷ []) ∷ [];
}

first_update : update_path_info (some 1) (router 7) (5 ∷ 6 ∷ []) new_cache ≡ ok first_cache
unfolding update_path_info learn_from learn_nets for_each release_net release_path release_old
    store_dnets set_paths set_path_info get_path_info get_router_dnets set_router_dnets
    delete_router_dnets lookup put_key delete_key member remove difference union is_subset same_nets
    pair_key net_key address_key number_key by_discrete Address-discrete Net-discrete ℕ_discrete
first_update = refl

second_update : update_path_info (some 1) (router 8) (6 ∷ []) first_cache ≡ ok second_cache
unfolding update_path_info learn_from learn_nets for_each release_net release_path release_old
    store_dnets set_paths set_path_info get_path_info get_router_dnets set_router_dnets
    delete_router_dnets lookup put_key delete_key member remove difference union is_subset same_nets
    pair_key net_key address_key number_key by_discrete Address-discrete Net-discrete ℕ_discrete
second_update = refl

-- Networks given with the address of a known router.
raises_name_error :
    remove_path_info (some 1) (some (router 7)) (some (5 ∷ [])) first_cache ≡ err name_error
unfolding remove_path_info forget_router get_router_dnets lookup pair_key net_key address_key
    by_discrete Address-discrete Net-discrete ℕ_discrete
raises_name_error = refl

cache_or : Cache → Result Cache → Cache
cache_or c (ok d) = d
cache_or c (err e) = c

Implements-run :
    (r : Result Cache) (c : Cache) (t : Table)
    → r ≡ ok c
    → (d : Cache) × (r ≡ ok d) × Implements d t
    → Implements c t
unfolding cache_or
Implements-run r c t run (d, ran, i) =
    subst (λ e. Implements e t) (ap (cache_or c) (sym ran ∙ run)) i

abbrev first_table : Table
first_table = learn (some 1) (router 7) (5 ∷ 6 ∷ []) no_paths

first_cache-Implements : Implements first_cache first_table
unfolding member
first_cache-Implements = Implements-run _ first_cache first_table first_update (
    update_path_info-Implements new_cache no_paths (some 1) (router 7) (5 ∷ 6 ∷ [])
      new_cache-Implements (refl, (refl, tt)))

update_path_info-Implements_example :
    (d : Cache) × (update_path_info (some 1) (router 8) (6 ∷ []) first_cache ≡ ok d)
    × Implements d (learn (some 1) (router 8) (6 ∷ []) first_table)
unfolding member
update_path_info-Implements_example =
    update_path_info-Implements first_cache first_table (some 1) (router 8) (6 ∷ [])
      first_cache-Implements (refl, tt)

remove_path_info-Implements_example :
    (d : Cache) × (remove_path_info (some 1) (some (router 7)) none first_cache ≡ ok d)
    × Implements d (forget (some 1) (router 7) first_table)
remove_path_info-Implements_example =
    remove_path_info-Implements first_cache first_table (some 1) (router 7) first_cache-Implements

remove_nets-Implements_example :
    (d : Cache) × (remove_path_info (some 1) none (some (6 ∷ [])) first_cache ≡ ok d)
    × Implements d (forget_nets (some 1) (6 ∷ []) first_table)
remove_nets-Implements_example =
    remove_nets-Implements first_cache first_table (some 1) (6 ∷ []) first_cache-Implements

update_router_status-Implements_example :
    Implements
      (update_router_status (some 1) (router 7) busy first_cache)
      (mark (some 1) (router 7) busy first_table)
update_router_status-Implements_example =
    update_router_status-Implements first_cache first_table (some 1) (router 7) busy
      first_cache-Implements
