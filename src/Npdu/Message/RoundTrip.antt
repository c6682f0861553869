-- ===== src/Npdu/Message/RoundTrip.antt =====
-- The encoding of a network layer message (bacpypes3/npdu.py), and its decoding by the adapter
-- (bacpypes3/netservice.py).
use bacpypes.Prelude.{
  ℕ, zero, suc, ◌≤◌, ◌≡◌, refl, none, some, List, [], ◌∷◌, ◌++◌, append_assoc, append-nil, length,
  arith, All,
}
use bacpypes.Pdu.{Bytes, ok, get, get_short, get_short_masked, get_data-append, ◌>>=◌, pure}
use bacpypes.Npdu.Npci.{Npci}
use bacpypes.Npdu.Npci.Wire.{IsValid, wire, encoded, encode-wire}
use bacpypes.Npdu.Npci.RoundTrip.{decode-wire}
use bacpypes.Npdu.Classes.{
  Message, RoutingTableEntry, who_is_router_to_network, i_am_router_to_network,
  i_could_be_router_to_network, reject_message_to_network, router_busy_to_network,
  router_available_to_network, initialize_routing_table, initialize_routing_table_ack,
  establish_connection_to_network, disconnect_connection_to_network, what_is_network_number,
  network_number_is, get_networks, get_all_networks, get_entries, get_table, decode_who_is,
}
use bacpypes.Npdu.Message.{
  pdu_type, find_type, npdu_types, decode_class, adapter_confirmation, encode_message_pdu, network,
}
use bacpypes.Npdu.Message.Wire.{
  IsNetwork, EntryFits, TableFits, Fits, network_wire, networks_wire, entries_wire, table_wire,
  body_wire, encode_body-wire,
}

get_networks_lem :
    (nets : List ℕ) (fuel : ℕ)
    → All IsNetwork nets
    → length (networks_wire nets) ≤ fuel
    → get_networks fuel (networks_wire nets) ≡ ok (nets, [])
unfolding get_networks
get_networks_lem [] fuel h f = refl
get_networks_lem (net ∷ nets) zero h f = absurd (omega arith)
get_networks_lem (net ∷ nets) (suc fuel) h f =
    rw (get_short_masked net (networks_wire nets) h.0, get_networks_lem nets fuel h.1 (omega arith))

get_all_networks_lem :
    (nets : List ℕ) → All IsNetwork nets → get_all_networks (networks_wire nets) ≡ ok (nets, [])
unfolding get_all_networks
get_all_networks_lem nets h = get_networks_lem nets _ h (omega arith)

get_entries_lem :
    (table : List RoutingTableEntry) (rest : Bytes)
    → All EntryFits table
    → get_entries (length table) (entries_wire table ++ rest) ≡ ok (table, rest)
unfolding get_entries get
get_entries_lem [] rest h = refl
get_entries_lem (e ∷ table) rest (he, hs) = rw (
  append_assoc e.port_info (entries_wire table) rest,
  get_short_masked e.dnet _ he.0,
  get_data-append e.port_info (entries_wire table ++ rest),
  get_entries_lem table rest hs,
)

get_table_lem :
    (table : List RoutingTableEntry)
    → TableFits table
    → get_table (table_wire table) ≡ ok (table, [])
unfolding get_table get
get_table_lem table h = rw (← append-nil (entries_wire table)) (get_entries_lem table [] h.1)

get_network_octet :
    {B : Type 0} (net n : ℕ) (f : ℕ → ℕ → B)
    → IsNetwork net
    → (get_short >>= λ a. get >>= λ c. pure (f a c)) (network_wire net ++ (n ∷ []))
      ≡ ok (f net n, [])
unfolding get
get_network_octet net n f h = rw (get_short_masked net (n ∷ []) h)

-- The registered class of a message decodes its octets.
pub decode_class-body :
    (h : Npci) (m : Message)
    → Fits m
    → decode_class h (find_type (pdu_type m) npdu_types) (body_wire m) ≡ ok (network h m, [])
unfolding decode_class find_type npdu_types pdu_type decode_who_is get
decode_class-body h (who_is_router_to_network none) p = refl
decode_class-body h (who_is_router_to_network (some net)) p = rw (get_short_masked net [] p)
decode_class-body h (i_am_router_to_network nets) p = rw (get_all_networks_lem nets p)
decode_class-body h (i_could_be_router_to_network net index) p =
    rw (get_short_masked net (index ∷ []) p.0)
decode_class-body h (reject_message_to_network reason dnet) p = rw (get_short_masked dnet [] p.1)
decode_class-body h (router_busy_to_network nets) p = rw (get_all_networks_lem nets p)
decode_class-body h (router_available_to_network nets) p = rw (get_all_networks_lem nets p)
decode_class-body h (initialize_routing_table table) p = rw (get_table_lem table p)
decode_class-body h (initialize_routing_table_ack table) p = rw (get_table_lem table p)
decode_class-body h (establish_connection_to_network dnet time) p =
    rw (get_short_masked dnet (time ∷ []) p.0)
decode_class-body h (disconnect_connection_to_network dnet) p = rw (get_short_masked dnet [] p)
decode_class-body h what_is_network_number p = refl
decode_class-body h (network_number_is net flag) p = rw (get_short_masked net (flag ∷ []) p.0)

-- The header of a message: the fields given, and the message's type.
abbrev pub header : Npci → Message → Npci
header h m = record h { net_message = some (pdu_type m) }

encode_message_pdu-wire :
    (h : Npci) (m : Message)
    → IsValid (header h m)
    → Fits m
    → encode_message_pdu h m [] ≡ ok (encoded (header h m), wire (header h m) ++ body_wire m)
unfolding encode_message_pdu
encode_message_pdu-wire h m v p =
    rw (encode-wire (header h m) [] v, encode_body-wire m (wire (header h m)) p)

-- A network layer message of any class, with a valid header and with numbers and lengths that fit their
-- octets (16 bits for a network, 8 for the others), is encoded, and `NetworkAdapter.confirmation` gives
-- the message back with that header.
pub adapter_confirmation-encode :
    (h : Npci) (m : Message)
    → IsValid (header h m)
    → Fits m
    → (b : Bytes) × (encode_message_pdu h m [] ≡ ok (encoded (header h m), b))
      × (adapter_confirmation b ≡ ok (network (encoded (header h m)) m, []))
unfolding adapter_confirmation
adapter_confirmation-encode h m v p = (
  wire (header h m) ++ body_wire m,
  encode_message_pdu-wire h m v p,
  rw (decode-wire (header h m) (body_wire m) v, adapter_confirmation)
      (decode_class-body (encoded (header h m)) m p),
)
