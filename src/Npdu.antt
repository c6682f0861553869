-- ===== src/Npdu.antt =====
-- bacpypes3/npdu.py: the network layer's header (class NPCI), its messages and its codec.
--
-- The fields of PCI that the codec only copies (source, destination, user data) are left out.
pub mod Npci
pub mod Classes
pub mod Message
mod Tests
