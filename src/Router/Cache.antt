-- ===== src/Router/Cache.antt =====
-- bacpypes3/netservice.py, class RouterInfoCache: the two dictionaries and the methods that read and
-- write them. What a method wrote before it raised is not kept.
pub mod Views
pub mod Table
pub mod Loops
pub mod Learn
pub mod Forget
use bacpypes.Prelude.{
  ℕ, Bool, true, false, ◌&&◌, Option, none, some, List, [], ◌∷◌, is_some, if◌then◌else◌,
}
use bacpypes.Pdu.{Result, ok, err, runtime_error, key_error, name_error}
use bacpypes.Address.{Address}
use bacpypes.Router.Keys.{Key, net_key, address_key, number_key, pair_key, same_net, same_address}
use bacpypes.Router.Dict.{Dict, lookup, put_key, delete_key}
use bacpypes.Router.Nets.{Nets, member, remove, difference, union, same_nets}

-- RouterEntryStatus
pub data RouterStatus : Type 0 where
  available busy disconnected : RouterStatus

abbrev pub RouterPath : Type 0
RouterPath = Address × RouterStatus

abbrev pub path_key : Key (Option ℕ × ℕ)
path_key = pair_key net_key number_key

abbrev pub router_key : Key (Option ℕ × Address)
router_key = pair_key net_key address_key

pub record Cache : Type 0 where
  pub path_info : Dict (Option ℕ × ℕ) RouterPath
  pub router_dnets : Dict (Option ℕ × Address) Nets

-- `RouterInfoCache()`
abbrev pub new_cache : Cache
new_cache = record { path_info = []; router_dnets = [] }

abbrev pub same_status : RouterStatus → RouterStatus → Bool
same_status available available = true
same_status busy busy = true
same_status disconnected disconnected = true
same_status _ _ = false

-- `path_info == (address, status)`
abbrev pub is_path : Option RouterPath → Address → RouterStatus → Bool
is_path none address status = false
is_path (some p) address status = same_address p.0 address && same_status p.1 status

-- `get_path_info`
unfoldable pub get_path_info : Cache → Option ℕ → ℕ → Option RouterPath
unfolding lookup
get_path_info c snet dnet = lookup path_key (snet, dnet) c.path_info

-- `set_path_info`, and whether the cache has changed
unfoldable pub set_path_info : Cache → Option ℕ → ℕ → Address → RouterStatus → Bool × Cache
unfolding get_path_info put_key
set_path_info c snet dnet address status =
    if is_path (get_path_info c snet dnet) address status then (false, c) else (
      true,
      record c { path_info = put_key path_key (snet, dnet) (address, status) c.path_info },
    )

-- `delete_path_info`
unfoldable pub delete_path_info : Cache → Option ℕ → ℕ → Bool × Cache
unfolding get_path_info delete_key
delete_path_info c snet dnet =
    if is_some (get_path_info c snet dnet)
    then (true, record c { path_info = delete_key path_key (snet, dnet) c.path_info })
    else (false, c)

-- `get_router_dnets`
unfoldable pub get_router_dnets : Cache → Option ℕ → Address → Option Nets
unfolding lookup
get_router_dnets c snet address = lookup router_key (snet, address) c.router_dnets

abbrev pub is_nets : Option Nets → Nets → Bool
is_nets none dnets = false
is_nets (some nets) dnets = same_nets nets dnets

-- `set_router_dnets`
unfoldable pub set_router_dnets : Cache → Option ℕ → Address → Nets → Bool × Cache
unfolding get_router_dnets put_key same_nets
set_router_dnets c snet address dnets =
    if is_nets (get_router_dnets c snet address) dnets
    then (false, c)
    else (true, record c { router_dnets = put_key router_key (snet, address) dnets c.router_dnets })

-- `delete_router_dnets`
unfoldable pub delete_router_dnets : Cache → Option ℕ → Address → Bool × Cache
unfolding get_router_dnets delete_key
delete_router_dnets c snet address =
    if is_some (get_router_dnets c snet address)
    then (true, record c { router_dnets = delete_key router_key (snet, address) c.router_dnets })
    else (false, c)

abbrev pub continue : Result Cache → (Cache → Result Cache) → Result Cache
continue (ok c) f = f c
continue (err e) f = err e

-- `for dnet in dnets`
unfoldable pub for_each : (ℕ → Cache → Result Cache) → Nets → Cache → Result Cache
for_each f [] c = ok c
for_each f (dnet ∷ dnets) c = let next = for_each f dnets in continue (f dnet c) next

abbrev pub is_empty : Nets → Bool
is_empty [] = true
is_empty (n ∷ nets) = false

-- The set of a router is stored, and the router forgotten where it is empty.
unfoldable pub store_dnets : Option ℕ → Address → Nets → Cache → Cache
unfolding set_router_dnets delete_router_dnets
store_dnets snet address nets c =
    let stored : Cache = (set_router_dnets c snet address nets).1 in
    if is_empty nets then (delete_router_dnets stored snet address).1 else stored

unfoldable pub release_old : Option ℕ → ℕ → Address → Option Nets → Cache → Result Cache
unfolding store_dnets member remove
release_old snet dnet old none c = err runtime_error
release_old snet dnet old (some nets) c =
    if member dnet nets then ok (store_dnets snet old (remove dnet nets) c) else err runtime_error

-- The first loop of `update_path_info`: a network that has a path is taken from its router.
unfoldable pub release_path : Option ℕ → ℕ → Option RouterPath → Cache → Result Cache
unfolding release_old get_router_dnets
release_path snet dnet none c = ok c
release_path snet dnet (some p) c = release_old snet dnet p.0 (get_router_dnets c snet p.0) c

unfoldable pub release_net : Option ℕ → ℕ → Cache → Result Cache
unfolding release_path get_path_info
release_net snet dnet c = release_path snet dnet (get_path_info c snet dnet) c

-- The loop that sets the path to each network.
unfoldable pub set_paths : Option ℕ → Address → RouterStatus → Nets → Cache → Cache
unfolding set_path_info
set_paths snet address status [] c = c
set_paths snet address status (dnet ∷ dnets) c =
    set_paths snet address status dnets ((set_path_info c snet dnet address status).1)

unfoldable pub learn_nets : Option ℕ → Address → Nets → Nets → Cache → Result Cache
unfolding for_each release_net set_router_dnets set_paths union
learn_nets snet address nets new_dnets c =
    continue (for_each (release_net snet) new_dnets c) λ released. ok (
      set_paths snet address available new_dnets
        ((set_router_dnets released snet address (union nets new_dnets)).1))

unfoldable pub learn_from : Option ℕ → Address → Nets → Option Nets → Cache → Result Cache
unfolding learn_nets difference
learn_from snet address dnets none c = learn_nets snet address [] dnets c
learn_from snet address dnets (some nets) c =
    let new_dnets : Nets = difference dnets nets in
    if is_empty new_dnets then ok c else learn_nets snet address nets new_dnets c

-- `update_path_info`
unfoldable pub update_path_info : Option ℕ → Address → Nets → Cache → Result Cache
unfolding learn_from get_router_dnets
update_path_info snet address dnets c =
    learn_from snet address dnets (get_router_dnets c snet address) c

-- The loop that deletes the path to each network.
unfoldable pub delete_paths : Option ℕ → Nets → Cache → Cache
unfolding delete_path_info
delete_paths snet [] c = c
delete_paths snet (dnet ∷ dnets) c = delete_paths snet dnets ((delete_path_info c snet dnet).1)

-- `remove_path_info` with an address: `dnets &= router_dents` names no variable.
unfoldable pub forget_router : Option ℕ → Address → Option Nets → Option Nets → Cache → Result Cache
unfolding delete_paths difference set_router_dnets delete_router_dnets
forget_router snet address none dnets c = ok c
forget_router snet address (some nets) (some dnets) c = err name_error
forget_router snet address (some nets) none c =
    let deleted : Cache = delete_paths snet nets c in
    let left : Nets = difference nets nets in
    ok (
      if is_empty left
      then (delete_router_dnets deleted snet address).1
      else (set_router_dnets deleted snet address left).1)

unfoldable pub forget_old : Option ℕ → ℕ → Address → Option Nets → Cache → Result Cache
unfolding member remove set_router_dnets delete_path_info
forget_old snet dnet old none c = err runtime_error
forget_old snet dnet old (some nets) c =
    if member dnet nets
    then ok ((delete_path_info (set_router_dnets c snet old (remove dnet nets)).1 snet dnet).1)
    else err runtime_error

unfoldable pub forget_path : Option ℕ → ℕ → Option RouterPath → Cache → Result Cache
unfolding forget_old get_router_dnets
forget_path snet dnet none c = ok c
forget_path snet dnet (some p) c = forget_old snet dnet p.0 (get_router_dnets c snet p.0) c

-- The loop of `remove_path_info` without an address. Where the set of a router is empty then, the
-- entry of `(snet, address)` is deleted with `address` None, and no entry has that key.
unfoldable pub forget_net : Option ℕ → ℕ → Cache → Result Cache
unfolding forget_path get_path_info
forget_net snet dnet c = forget_path snet dnet (get_path_info c snet dnet) c

-- `remove_path_info`
unfoldable pub remove_path_info : Option ℕ → Option Address → Option Nets → Cache → Result Cache
unfolding forget_router forget_net for_each get_router_dnets
remove_path_info snet (some address) dnets c =
    forget_router snet address (get_router_dnets c snet address) dnets c
remove_path_info snet none none c = err runtime_error
remove_path_info snet none (some dnets) c = for_each (forget_net snet) dnets c

unfoldable pub mark_nets : Option ℕ → Address → RouterStatus → Option Nets → Cache → Cache
unfolding set_paths
mark_nets snet address status none c = c
mark_nets snet address status (some nets) c = set_paths snet address status nets c

-- `update_router_status`
unfoldable pub update_router_status : Option ℕ → Address → RouterStatus → Cache → Cache
unfolding mark_nets get_router_dnets
update_router_status snet address status c =
    mark_nets snet address status (get_router_dnets c snet address) c

-- `update_source_network`: the paths of one router, then the routers in turn.
unfoldable pub move_path : Option ℕ → Option ℕ → ℕ → Option RouterPath → Cache → Result Cache
unfolding put_key delete_key
move_path old_snet new_snet dnet none c = err key_error
move_path old_snet new_snet dnet (some p) c = ok (record c {
  path_info =
      put_key path_key (new_snet, dnet) p (delete_key path_key (old_snet, dnet) c.path_info);
})

unfoldable pub move_net : Option ℕ → Option ℕ → ℕ → Cache → Result Cache
unfolding move_path get_path_info
move_net old_snet new_snet dnet c =
    move_path old_snet new_snet dnet (get_path_info c old_snet dnet) c

unfoldable pub move_router : Option ℕ → Option ℕ → Address → Nets → Cache → Result Cache
unfolding put_key delete_key for_each move_net
move_router old_snet new_snet address nets c =
    for_each (move_net old_snet new_snet) nets (record c {
      router_dnets =
          put_key router_key (new_snet, address) nets
            (delete_key router_key (old_snet, address) c.router_dnets);
    })

unfoldable pub move_routers :
    Option ℕ → Option ℕ → Dict (Option ℕ × Address) Nets → Cache → Result Cache
unfolding move_router
move_routers old_snet new_snet [] c = ok c
move_routers old_snet new_snet (e ∷ items) c =
    let next = move_routers old_snet new_snet items in
    continue (if same_net e.0.0 old_snet then move_router old_snet new_snet e.0.1 e.1 c else ok c)
      next

unfoldable pub update_source_network : Option ℕ → Option ℕ → Cache → Result Cache
unfolding move_routers
update_source_network old_snet new_snet c = move_routers old_snet new_snet c.router_dnets c
