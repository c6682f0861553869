-- ===== src/Npdu/Message/Wire.antt =====
-- The octets of a message body as a plain function, and that `encode` puts just these.
use bacpypes.Prelude.{
  ℕ, ◌%◌, ◌^◌, ◌<◌, ◌≡◌, refl, ◌∙◌, none, some, List, [], ◌∷◌, ◌++◌, append_assoc, append-nil,
  length, All,
}
use bacpypes.Pdu.{Bytes, IsByte, ok, pack_be, put_lem, put, put_data, put_short, ◌>>◌}
use bacpypes.Npdu.Classes.{
  Message, RoutingTableEntry, who_is_router_to_network, i_am_router_to_network,
  i_could_be_router_to_network, reject_message_to_network, router_busy_to_network,
  router_available_to_network, initialize_routing_table, initialize_routing_table_ack,
  establish_connection_to_network, disconnect_connection_to_network, what_is_network_number,
  network_number_is, put_networks, put_entries, put_table,
}
use bacpypes.Npdu.Message.{encode_body}

abbrev pub IsNetwork : ℕ → Type 0
IsNetwork net = net < 2 ^ 16

abbrev pub EntryFits : RoutingTableEntry → Type 0
EntryFits e = IsNetwork e.dnet × (e.port_id < 256) × (length e.port_info < 256)

abbrev pub TableFits : List RoutingTableEntry → Type 0
TableFits table = (length table < 256) × All EntryFits table

-- Every network number fits two octets, and every other number and length one.
abbrev pub Fits : Message → Type 0
Fits (who_is_router_to_network none) = Unit
Fits (who_is_router_to_network (some net)) = IsNetwork net
Fits (i_am_router_to_network nets) = All IsNetwork nets
Fits (i_could_be_router_to_network net index) = IsNetwork net × IsByte index
Fits (reject_message_to_network reason dnet) = IsByte reason × IsNetwork dnet
Fits (router_busy_to_network nets) = All IsNetwork nets
Fits (router_available_to_network nets) = All IsNetwork nets
Fits (initialize_routing_table table) = TableFits table
Fits (initialize_routing_table_ack table) = TableFits table
Fits (establish_connection_to_network dnet time) = IsNetwork dnet × IsByte time
Fits (disconnect_connection_to_network dnet) = IsNetwork dnet
Fits what_is_network_number = Unit
Fits (network_number_is net flag) = IsNetwork net × IsByte flag

abbrev pub network_wire : ℕ → Bytes
network_wire net = pack_be 2 (net % 2 ^ 16)

abbrev pub networks_wire : List ℕ → Bytes
networks_wire [] = []
networks_wire (net ∷ nets) = network_wire net ++ networks_wire nets

abbrev pub entries_wire : List RoutingTableEntry → Bytes
entries_wire [] = []
entries_wire (e ∷ table) =
    network_wire e.dnet ++ (e.port_id ∷ length e.port_info ∷ e.port_info ++ entries_wire table)

abbrev pub table_wire : List RoutingTableEntry → Bytes
table_wire table = length table ∷ entries_wire table

abbrev pub body_wire : Message → Bytes
body_wire (who_is_router_to_network none) = []
body_wire (who_is_router_to_network (some net)) = network_wire net
body_wire (i_am_router_to_network nets) = networks_wire nets
body_wire (i_could_be_router_to_network net index) = network_wire net ++ (index ∷ [])
body_wire (reject_message_to_network reason dnet) = reason ∷ network_wire dnet
body_wire (router_busy_to_network nets) = networks_wire nets
body_wire (router_available_to_network nets) = networks_wire nets
body_wire (initialize_routing_table table) = table_wire table
body_wire (initialize_routing_table_ack table) = table_wire table
body_wire (establish_connection_to_network dnet time) = network_wire dnet ++ (time ∷ [])
body_wire (disconnect_connection_to_network dnet) = network_wire dnet
body_wire what_is_network_number = []
body_wire (network_number_is net flag) = network_wire net ++ (flag ∷ [])

put_networks_lem :
    (nets : List ℕ) (b : Bytes) → put_networks nets b ≡ ok (tt, b ++ networks_wire nets)
unfolding put_networks put_short
put_networks_lem [] b = rw append-nil
put_networks_lem (net ∷ nets) b = put_networks_lem nets (b ++ network_wire net) ∙ rw append_assoc

put_entries_lem :
    (table : List RoutingTableEntry) (b : Bytes)
    → All EntryFits table
    → put_entries table b ≡ ok (tt, b ++ entries_wire table)
unfolding put_entries put_short put_data
put_entries_lem [] b h = rw append-nil
put_entries_lem (e ∷ table) b ((hn, hp, hl), hs) =
    rw (put_lem e.port_id _ hp, put_lem (length e.port_info) _ hl, put_entries_lem table _ hs)
      (simp append_assoc)

put_table_lem :
    (table : List RoutingTableEntry) (b : Bytes)
    → TableFits table
    → put_table table b ≡ ok (tt, b ++ table_wire table)
unfolding put_table
put_table_lem table b h =
    rw (put_lem (length table) b h.0, put_entries_lem table _ h.1) (simp append_assoc)

put_network_octet :
    (net n : ℕ) (b : Bytes)
    → IsByte n
    → (put_short net >> put n) b ≡ ok (tt, b ++ (network_wire net ++ (n ∷ [])))
unfolding put_short
put_network_octet net n b h = rw (put_lem n (b ++ network_wire net) h) (simp append_assoc)

-- `encode` puts the octets of the body at the end of the PDU.
pub encode_body-wire :
    (m : Message) (b : Bytes) → Fits m → encode_body m b ≡ ok (tt, b ++ body_wire m)
unfolding encode_body
encode_body-wire (who_is_router_to_network none) b h = rw append-nil
encode_body-wire (who_is_router_to_network (some net)) b h = unfold put_short in refl
encode_body-wire (i_am_router_to_network nets) b h = put_networks_lem nets b
encode_body-wire (i_could_be_router_to_network net index) b h = put_network_octet net index b h.1
encode_body-wire (reject_message_to_network reason dnet) b h =
    rw (put_lem reason b h.0) (unfold put_short in rw append_assoc)
encode_body-wire (router_busy_to_network nets) b h = put_networks_lem nets b
encode_body-wire (router_available_to_network nets) b h = put_networks_lem nets b
encode_body-wire (initialize_routing_table table) b h = put_table_lem table b h
encode_body-wire (initialize_routing_table_ack table) b h = put_table_lem table b h
encode_body-wire (establish_connection_to_network dnet time) b h = put_network_octet dnet time b h.1
encode_body-wire (disconnect_connection_to_network dnet) b h = unfold put_short in refl
encode_body-wire what_is_network_number b h = rw append-nil
encode_body-wire (network_number_is net flag) b h = put_network_octet net flag b h.1
