-- ===== src/Ssm.antt =====
-- bacpypes3/appservice.py: the segmentation state machines, class SSM and its subclasses
-- ClientSSM and ServerSSM.
pub mod Types
pub mod Monad
pub mod Reason
pub mod Steps
pub mod Client
pub mod Server
pub mod Keeps
pub mod Segments
pub mod Window
mod Tests
