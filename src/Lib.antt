-- ===== src/Lib.antt =====
-- BACpypes3 is a BACnet stack. An application's confirmed request goes down through a transaction of
-- the application service access point (bacpypes3/appservice.py), which cuts it into segments, is
-- encoded as an APDU (bacpypes3/apdu.py), gets a network layer header (bacpypes3/npdu.py) and is sent
-- by a link layer; what arrives goes up the same way, where the network adapter
-- (bacpypes3/netservice.py) tells network layer messages from application messages, and the network
-- service access point sends on what is for other networks, by the paths in its router cache. The
-- parameters of a service are lists of tags (bacpypes3/primitivedata.py).
--
-- The files, by the part they model:
--   Prelude, Prelude/Lists, Prelude/Tests: numbers, lists and Boolean tests that the parts share.
--   Pdu: class PDUData (bacpypes3/pdu.py). `Pdu/Defs` has put, get and their kin on a list of octets:
--     an Action takes the octets of the PDU and gives a value with the octets that it leaves, or
--     the exception. `Pdu/Yields` says what an Action returns, where it returns.
--   Address: the addresses RemoteStation, RemoteBroadcast and GlobalBroadcast (bacpypes3/pdu.py).
--   Npdu/Npci: class NPCI with `encode` and `decode` (bacpypes3/npdu.py). Its children have the
--     layout of a valid header, the control octet, and the two directions of the round trip.
--   Npdu/Classes: the message classes WhoIsRouterToNetwork to NetworkNumberIs, each with its `encode`
--     and `decode`. Npdu/Message: the table npdu_types, NetworkAdapter.confirmation
--     (bacpypes3/netservice.py) and NetworkCodec.confirmation (bacpypes3/npdu.py).
--   Apdu/Limits: the encodings of the segments and of the length that a device accepts.
--   Apdu/Apci: class APCI with `encode` and `decode`, and class APDU (bacpypes3/apdu.py).
--   Ssm/Types, Ssm/Monad, Ssm/Steps: class SSM (bacpypes3/appservice.py), its attributes, its methods
--     as changes of a World (the attributes and what was sent) that may raise, the timer, the cutting
--     of an APDU into segments, and the window.
--   Ssm/Client: class ClientSSM. `indication` is in Client/Request with the state SEGMENTED_REQUEST,
--     and the answer's states are in Client/Answer; `confirmation` and `timer_expired` choose by the
--     state.
--   Ssm/Server: class ServerSSM. The request's states are in Server/Request, and the response's with
--     `confirmation` in Server/Response; `indication` and `timer_expired` choose by the state.
--   Ssm/Keeps, Ssm/Client/Live and Ssm/Server/Live are about the invariant IsLive; Ssm/Segments,
--     Ssm/Window, Ssm/Client/Reassembly and Ssm/Server/Reassembly about the cutting of an APDU into
--     segments, the window in which they are sent, and putting them together.
--   Sap: class ApplicationServiceAccessPoint, its lists of client and server transactions, and the
--     calls by which a PDU arrives, the application asks or answers, and a timer expires. `Sap/Lists`,
--     `Sap/Calls` and `Sap/Live` are about the lists after any history of such calls, and `Sap/Others`
--     and `Sap/Answers` about the transaction that takes an answer, and the others.
--   Primitive/Tag, Primitive/TagList: class Tag with `encode`, `decode`, `app_to_context` and
--     `context_to_app`, and class TagList with `encode`, `decode` and `pop_context`
--     (bacpypes3/primitivedata.py). `Tag/Wire` has the octets of a valid tag, and `TagList/Nested` the
--     grammar of nested tags.
--   Primitive/Atomic, Primitive/Unsigned, Primitive/Integer, Primitive/BitString, Primitive/Simple:
--     the atomic classes Null, Boolean, Unsigned, Integer, Enumerated, OctetString, BitString, Date,
--     Time and ObjectIdentifier, each with its `encode` and `decode`; the limits of a class and its
--     context are arguments.
--   Router/Keys, Router/Dict, Router/Nets: Python's dict, in the order in which its keys were set, and
--     its set of network numbers, as lists.
--   Router/Cache: class RouterInfoCache (bacpypes3/netservice.py). `Cache/Views` has what is read after
--     each write, `Cache/Table` the table of paths that the two dictionaries stand for, and
--     `Cache/Learn` and `Cache/Forget` compare the methods with it.
--   Router/Routing: NetworkServiceAccessPoint.process_npdu, as the events that it causes and the cache
--     that it leaves; `Routing/Forward`, `Routing/Journey` and `Routing/Learns` are about the PDUs that
--     are sent on, their way over several routers, and the cache. Router/Outgoing: `indication`,
--     `bind` and `update_router_references`; `Outgoing/Reaches` and `Outgoing/Fresh` are about where
--     an application message goes.
--   Bvll: the codec of BACnet/IPv4 messages (bacpypes3/ipv4/bvll.py), with class LPCI, the twelve
--     message classes and BVLLCodec. `Bvll/Entries` and `Bvll/RoundTrip` have the octets of a message.
--   The Tests modules run the definitions and the theorems on concrete input.
--
-- Exceptions are values of type Error. Numbers are natural numbers, but for class Integer: what
-- Python would do with a negative number in a field is not modelled, and where a field is too large
-- for its octets, the ValueError of `bytes` is written out. The device information cache and
-- whether the network layer takes a segment are arguments of `indication` and `timer_expired`, and
-- so is, for a server, whether APCISequence.decode takes the parameters of a request.
--
-- The loops on fuel are those that read a list of networks, a list of tags, and a table of a BVLL
-- message, to the end of the PDU. They have one round for each octet, and a round takes at least
-- two octets of a network, one of a tag and ten of an entry of a table. `count_set_bits` has one
-- round for each of the 32 bits, and a round clears a bit.
--
-- Not modelled: the network service element with its searches for routers, Real, Double and
-- CharacterString, whose octets are Python's, the constructed data of the application layer, most
-- of the link layers, and the objects and services. asyncio's scheduling is left out: a timer is
-- the time it was last started with, or none, and its expiry is a call of `timer_expired`, which
-- begins with no timer, since the handle has fired. That `stop_timer` cancels the task of an
-- expiry, which matters only where that task suspends, is left out. The handlers of the service
-- element are an argument of `process_npdu`: the cache that they leave and the exception that they
-- raise; that a Network-Number-Is changes the adapters is left out. Debugging output and the
-- printing of contents are left out.
pub mod Prelude
pub mod Pdu
pub mod Address
pub mod Npdu
pub mod Apdu
pub mod Primitive
pub mod Router
pub mod Bvll
pub mod Ssm
pub mod Sap
