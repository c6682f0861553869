-- ===== src/Npdu/Message.antt =====
-- bacpypes3/npdu.py, the network layer messages: what each class puts behind the header, and
-- reads. bacpypes3/netservice.py (NetworkAdapter.confirmation) and class NetworkCodec decode a
-- whole PDU.
pub mod Wire
pub mod RoundTrip
pub mod Codec
use bacpypes.Npdu.Classes.{
  put_networks, put_entries, put_table, get_networks, get_all_networks, get_entries, get_table,
  decode_who_is, encode_who_is, encode_i_am, decode_i_am, encode_i_could_be, decode_i_could_be,
  encode_reject, decode_reject, encode_busy, decode_busy, encode_available, decode_available,
  encode_initialize, decode_initialize, encode_initialize_ack, decode_initialize_ack,
  encode_establish, decode_establish, encode_disconnect, decode_disconnect, encode_what_is,
  decode_what_is, encode_number_is, decode_number_is, RoutingTableEntry, Message,
  who_is_router_to_network, i_am_router_to_network, i_could_be_router_to_network,
  reject_message_to_network, router_busy_to_network, router_available_to_network,
  initialize_routing_table, initialize_routing_table_ack, establish_connection_to_network,
  disconnect_connection_to_network, what_is_network_number, network_number_is,
}
use bacpypes.Prelude.{
  ℕ, zero, suc, ◌+◌, Bool, true, false, Option, none, some, List, [], ◌∷◌, length, ◌==◌,
  if◌then◌else◌,
}
use bacpypes.Pdu.{
  Bytes, Action, Result, ok, err, pure, raise, ◌>>=◌, ◌>>◌, get, get_data, get_short, put, put_data,
  put_short, out_of_fuel, runtime_error,
}
use bacpypes.Npdu.Npci.{Npci, new_npci, encode, decode}

-- `pduType` of each class, which its constructor assigns to `npduNetMessage`.
unfoldable pub pdu_type : Message → ℕ
pdu_type (who_is_router_to_network net) = 0x00
pdu_type (i_am_router_to_network nets) = 0x01
pdu_type (i_could_be_router_to_network net index) = 0x02
pdu_type (reject_message_to_network reason dnet) = 0x03
pdu_type (router_busy_to_network nets) = 0x04
pdu_type (router_available_to_network nets) = 0x05
pdu_type (initialize_routing_table table) = 0x06
pdu_type (initialize_routing_table_ack table) = 0x07
pdu_type (establish_connection_to_network dnet time) = 0x08
pdu_type (disconnect_connection_to_network dnet) = 0x09
pdu_type what_is_network_number = 0x12
pdu_type (network_number_is net flag) = 0x13

-- What follows the header in `encode` of each class.
unfoldable pub encode_body : Message → Action (Unit {0})
encode_body (who_is_router_to_network net) = encode_who_is net
encode_body (i_am_router_to_network nets) = encode_i_am nets
encode_body (i_could_be_router_to_network net index) = encode_i_could_be net index
encode_body (reject_message_to_network reason dnet) = encode_reject reason dnet
encode_body (router_busy_to_network nets) = encode_busy nets
encode_body (router_available_to_network nets) = encode_available nets
encode_body (initialize_routing_table table) = encode_initialize table
encode_body (initialize_routing_table_ack table) = encode_initialize_ack table
encode_body (establish_connection_to_network dnet time) = encode_establish dnet time
encode_body (disconnect_connection_to_network dnet) = encode_disconnect dnet
encode_body what_is_network_number = encode_what_is
encode_body (network_number_is net flag) = encode_number_is net flag

-- The whole message: a header whose message type is the class's, and the body.
unfoldable pub encode_message_pdu : Npci → Message → Action Npci
encode_message_pdu h m = do
  h' ← encode (record h { net_message = some (pdu_type m) })
  encode_body m
  pure h'

-- `npdu_types`: the registered classes by their type, each with its `decode`.
unfoldable pub npdu_types : List (ℕ × Action Message)
npdu_types =
    (0x00, decode_who_is)
    ∷ (0x01, decode_i_am)
    ∷ (0x02, decode_i_could_be)
    ∷ (0x03, decode_reject)
    ∷ (0x04, decode_busy)
    ∷ (0x05, decode_available)
    ∷ (0x06, decode_initialize)
    ∷ (0x07, decode_initialize_ack)
    ∷ (0x08, decode_establish)
    ∷ (0x09, decode_disconnect)
    ∷ (0x12, decode_what_is)
    ∷ (0x13, decode_number_is)
    ∷ []

unfoldable pub find_type : ℕ → List (ℕ × Action Message) → Option (Action Message)
find_type t [] = none
find_type t ((u, decode) ∷ classes) = if t == u then some decode else find_type t classes

-- What goes up: the data of an application message, or a network layer message.
pub data Upstream : Type 0 where
  application : Npci → Bytes → Upstream
  network : Npci → Message → Upstream

-- `npdu.put_data(pdu.pduData)`
abbrev pub remaining : Action Bytes
remaining b = ok (b, b)

unfoldable pub decode_class : Npci → Option (Action Message) → Action Upstream
decode_class h none = raise runtime_error
decode_class h (some decode_body) = do m ← decode_body; pure (network h m)

unfoldable pub adapter_dispatch : Npci → Option ℕ → Action Upstream
unfolding decode_class
adapter_dispatch h none = do octets ← remaining; pure (application h octets)
adapter_dispatch h (some t) = decode_class h (find_type t npdu_types)

-- `NetworkAdapter.confirmation`: the header read is copied to the message (`NPCI.update`).
unfoldable pub adapter_confirmation : Action Upstream
unfolding adapter_dispatch
adapter_confirmation = do h ← decode; adapter_dispatch h h.net_message

unfoldable pub codec_dispatch : Npci → Option ℕ → Action Upstream
unfolding decode_class
codec_dispatch h none = do octets ← remaining; pure (application h octets)
codec_dispatch h (some zero) = do octets ← remaining; pure (application h octets)
codec_dispatch h (some (suc t)) =
    decode_class (record new_npci { net_message = some (suc t) }) (find_type (suc t) npdu_types)

-- `NetworkCodec.confirmation`: the type is tested as a truth value, and the message keeps the
-- header of its constructor.
unfoldable pub codec_confirmation : Action Upstream
unfolding codec_dispatch
codec_confirmation = do h ← decode; codec_dispatch h h.net_message
