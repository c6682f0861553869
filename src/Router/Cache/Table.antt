-- ===== src/Router/Cache/Table.antt =====
-- bacpypes3/netservice.py, class RouterInfoCache: the table of paths that the two dictionaries stand
-- for, and what each method does to it.
use bacpypes.Prelude.{ℕ, ◌≡◌, ◌&&◌, not, Option, none, some, if◌then◌else◌}
use bacpypes.Address.{Address}
use bacpypes.Router.Keys.{same_net}
use bacpypes.Router.Nets.{Nets, member}
use bacpypes.Router.Cache.{RouterStatus, available, RouterPath, Cache, get_path_info}
use bacpypes.Router.Cache.Views.{serves, leads_to}

-- From the network of an adapter and a destination network to the router on the way.
abbrev pub Table : Type 0
Table = Option ℕ → ℕ → Option RouterPath

-- A cache with this table: the sets of the routers hold just the networks whose path leads to them.
pub record Implements (c : Cache) (t : Table) : Type 0 where
  pub paths : (snet : Option ℕ) (dnet : ℕ) → get_path_info c snet dnet ≡ t snet dnet
  pub routers :
      (snet : Option ℕ) (address : Address) (dnet : ℕ)
      → serves c snet address dnet ≡ leads_to (t snet dnet) address

-- A router announces networks: those that do not lead to it already do so now.
unfoldable pub learn : Option ℕ → Address → Nets → Table → Table
learn snet address dnets t s d =
    if same_net snet s && (member d dnets && not (leads_to (t s d) address))
    then some (address, available)
    else t s d

-- A router is forgotten, with every path to it.
unfoldable pub forget : Option ℕ → Address → Table → Table
forget snet address t s d = if same_net snet s && leads_to (t s d) address then none else t s d

-- The paths to some networks are forgotten.
unfoldable pub forget_nets : Option ℕ → Nets → Table → Table
forget_nets snet dnets t s d = if same_net snet s && member d dnets then none else t s d

-- A router has a new status.
unfoldable pub mark : Option ℕ → Address → RouterStatus → Table → Table
mark snet address status t s d =
    if same_net snet s && leads_to (t s d) address then some (address, status) else t s d
