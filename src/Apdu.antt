-- ===== src/Apdu.antt =====
-- bacpypes3/apdu.py: the application layer's header (class APCI), the limits that it carries, and
-- the generic APDU classes.
pub mod Limits
pub mod Apci
mod Tests
