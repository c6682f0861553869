-- ===== src/Npdu/Classes.antt =====
-- bacpypes3/npdu.py, the classes of network layer messages: their fields, what each puts behind the
-- header, and what it reads.
use bacpypes.Prelude.{ℕ, zero, suc, Option, none, some, List, [], ◌∷◌, length}
use bacpypes.Pdu.{
  Bytes, Action, ok, err, pure, ◌>>=◌, ◌>>◌, get, get_data, get_short, put, put_data, put_short,
  out_of_fuel,
}

-- `RoutingTableEntry`
pub record RoutingTableEntry : Type 0 where
  pub dnet : ℕ
  pub port_id : ℕ
  pub port_info : Bytes

pub data Message : Type 0 where
  who_is_router_to_network : Option ℕ → Message
  i_am_router_to_network : List ℕ → Message
  i_could_be_router_to_network : ℕ → ℕ → Message
  reject_message_to_network : ℕ → ℕ → Message
  router_busy_to_network : List ℕ → Message
  router_available_to_network : List ℕ → Message
  initialize_routing_table : List RoutingTableEntry → Message
  initialize_routing_table_ack : List RoutingTableEntry → Message
  establish_connection_to_network : ℕ → ℕ → Message
  disconnect_connection_to_network : ℕ → Message
  what_is_network_number : Message
  network_number_is : ℕ → ℕ → Message

-- `for net in network_list: pdu.put_short(net)`
unfoldable pub put_networks : List ℕ → Action (Unit {0})
put_networks [] = pure tt
put_networks (net ∷ nets) = do put_short net; put_networks nets

unfoldable pub put_entries : List RoutingTableEntry → Action (Unit {0})
put_entries [] = pure tt
put_entries (rte ∷ table) = do
  put_short rte.dnet
  put rte.port_id
  put (length rte.port_info)
  put_data rte.port_info
  put_entries table

unfoldable pub put_table : List RoutingTableEntry → Action (Unit {0})
unfolding put_entries
put_table table = do put (length table); put_entries table

-- `while pdu.pduData: network_list.append(pdu.get_short())`. Each round takes two octets, so one
-- round for each octet is more than enough.
unfoldable pub get_networks : ℕ → Action (List ℕ)
get_networks fuel [] = ok ([], [])
get_networks zero (a ∷ b) = err out_of_fuel
get_networks (suc fuel) (a ∷ b) =
    let rest : Action (List ℕ) = get_networks fuel in
    (do net ← get_short; nets ← rest; pure (net ∷ nets)) (a ∷ b)

unfoldable pub get_all_networks : Action (List ℕ)
unfolding get_networks
get_all_networks b = get_networks (length b) b

-- `for i in range(rtLength)`
unfoldable pub get_entries : ℕ → Action (List RoutingTableEntry)
get_entries zero = pure []
get_entries (suc n) = do
  dnet ← get_short
  port_id ← get
  port_info_len ← get
  port_info ← get_data port_info_len
  table ← get_entries n
  pure (record { dnet = dnet; port_id = port_id; port_info = port_info } ∷ table)

unfoldable pub get_table : Action (List RoutingTableEntry)
unfolding get_entries
get_table = do n ← get; get_entries n

unfoldable pub decode_who_is : Action Message
decode_who_is [] = ok (who_is_router_to_network none, [])
decode_who_is (a ∷ b) = (do net ← get_short; pure (who_is_router_to_network (some net))) (a ∷ b)

-- Each class: what its `encode` puts behind the header, and its `decode`.
abbrev pub encode_who_is : Option ℕ → Action (Unit {0})
encode_who_is none = pure tt
encode_who_is (some net) = put_short net

abbrev pub encode_i_am : List ℕ → Action (Unit {0})
encode_i_am nets = put_networks nets

abbrev pub decode_i_am : Action Message
decode_i_am = do nets ← get_all_networks; pure (i_am_router_to_network nets)

abbrev pub encode_i_could_be : ℕ → ℕ → Action (Unit {0})
encode_i_could_be net index = do put_short net; put index

abbrev pub decode_i_could_be : Action Message
decode_i_could_be = do net ← get_short; index ← get; pure (i_could_be_router_to_network net index)

abbrev pub encode_reject : ℕ → ℕ → Action (Unit {0})
encode_reject reason dnet = do put reason; put_short dnet

abbrev pub decode_reject : Action Message
decode_reject = do reason ← get; dnet ← get_short; pure (reject_message_to_network reason dnet)

abbrev pub encode_busy : List ℕ → Action (Unit {0})
encode_busy nets = put_networks nets

abbrev pub decode_busy : Action Message
decode_busy = do nets ← get_all_networks; pure (router_busy_to_network nets)

abbrev pub encode_available : List ℕ → Action (Unit {0})
encode_available nets = put_networks nets

abbrev pub decode_available : Action Message
decode_available = do nets ← get_all_networks; pure (router_available_to_network nets)

abbrev pub encode_initialize : List RoutingTableEntry → Action (Unit {0})
encode_initialize table = put_table table

abbrev pub decode_initialize : Action Message
decode_initialize = do table ← get_table; pure (initialize_routing_table table)

abbrev pub encode_initialize_ack : List RoutingTableEntry → Action (Unit {0})
encode_initialize_ack table = put_table table

abbrev pub decode_initialize_ack : Action Message
decode_initialize_ack = do table ← get_table; pure (initialize_routing_table_ack table)

abbrev pub encode_establish : ℕ → ℕ → Action (Unit {0})
encode_establish dnet time = do put_short dnet; put time

abbrev pub decode_establish : Action Message
decode_establish = do dnet ← get_short; time ← get; pure (establish_connection_to_network dnet time)

abbrev pub encode_disconnect : ℕ → Action (Unit {0})
encode_disconnect dnet = put_short dnet

abbrev pub decode_disconnect : Action Message
decode_disconnect = do dnet ← get_short; pure (disconnect_connection_to_network dnet)

abbrev pub encode_what_is : Action (Unit {0})
encode_what_is = pure tt

abbrev pub decode_what_is : Action Message
decode_what_is = pure what_is_network_number

abbrev pub encode_number_is : ℕ → ℕ → Action (Unit {0})
encode_number_is net flag = do put_short net; put flag

abbrev pub decode_number_is : Action Message
decode_number_is = do net ← get_short; flag ← get; pure (network_number_is net flag)
