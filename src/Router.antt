-- ===== src/Router.antt =====
-- bacpypes3/netservice.py: the cache of routers, and the routing of network PDUs between adapters.
pub mod Keys
pub mod Dict
pub mod Nets
pub mod Cache
pub mod Routing
pub mod Outgoing
mod Tests
