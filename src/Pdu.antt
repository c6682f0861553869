-- ===== src/Pdu.antt =====
-- bacpypes3/pdu.py, class PDUData: a PDU's octets, taken from the front and put at the end, and
-- the exceptions that the codecs raise.
--
-- An operation gets the content of `pduData` and returns its result with the new content, or the
-- exception. An exception leaves through the codec's caller, which drops the PDU, so no content
-- goes with it. An octet is a number below 256; Python's ints are naturals here (a negative one
-- is refused by `bytes` as a large one is).
mod Defs
mod Laws
pub mod Yields
pub mod Shortens
unfoldable pub use Defs.*
pub use Laws.*
