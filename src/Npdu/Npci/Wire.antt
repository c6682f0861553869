-- ===== src/Npdu/Npci/Wire.antt =====
-- The octets of a header as a plain function, and that `encode` puts just these.
use bacpypes.Prelude.{
  ℕ, ◌%◌, ◌^◌, ◌<◌, ◌≡◌, refl, Bool, true, false, Option, none, some, [], ◌∷◌, ◌++◌, append_assoc,
  append-nil, length, arith,
}
use bacpypes.Pdu.{Bytes, ok, pack_be, put_lem, put, put_data, put_short, when, ◌>>◌}
use bacpypes.Address.{
  Address, null_address, local_broadcast, global_broadcast, local_station, remote_station,
  remote_broadcast,
}
use bacpypes.Npdu.Npci.{
  Npci, encode, encode_dadr, encode_sadr, encode_hop_count, encode_message, is_proprietary,
  control_of, put_attribute,
}
use bacpypes.Npdu.Npci.Control.{control_octet-Fields}

-- A network number and the octets of a station there. 0xffff is no network, and no octets mean a
-- broadcast.
abbrev pub IsStation : ℕ → Bytes → Type 0
IsStation net addr = (net < 65535) × (0 < length addr) × (length addr < 256)

abbrev pub IsDestination : Option Address → Type 0
IsDestination none = Unit
IsDestination (some (remote_station net addr)) = IsStation net addr
IsDestination (some (remote_broadcast net)) = net < 65535
IsDestination (some global_broadcast) = Unit
IsDestination (some null_address) = ⊥
IsDestination (some local_broadcast) = ⊥
IsDestination (some (local_station addr)) = ⊥

abbrev pub IsSource : Option Address → Type 0
IsSource none = Unit
IsSource (some (remote_station net addr)) = IsStation net addr
IsSource (some (remote_broadcast net)) = ⊥
IsSource (some global_broadcast) = ⊥
IsSource (some null_address) = ⊥
IsSource (some local_broadcast) = ⊥
IsSource (some (local_station addr)) = ⊥

-- A hop count stands in a header exactly with a destination.
abbrev pub HopsFit : Option Address → Option ℕ → Type 0
HopsFit none none = Unit
HopsFit none (some n) = ⊥
HopsFit (some a) none = ⊥
HopsFit (some a) (some n) = n < 256

-- A vendor ID stands in a header exactly with a proprietary message type.
abbrev pub VendorFits : Bool → Option ℕ → Type 0
VendorFits true none = ⊥
VendorFits true (some v) = v < 2 ^ 16
VendorFits false none = Unit
VendorFits false (some v) = ⊥

abbrev pub MessageFits : Option ℕ → Option ℕ → Type 0
MessageFits none vendor = VendorFits false vendor
MessageFits (some message) vendor = (message < 256) × VendorFits (is_proprietary message) vendor

pub record IsValid (h : Npci) : Type 0 where
  pub version_one : h.version ≡ 1
  pub priority_fits : h.network_priority < 4
  pub destination_fits : IsDestination h.dadr
  pub source_fits : IsSource h.sadr
  pub hops_fit : HopsFit h.dadr h.hop_count
  pub message_fits : MessageFits h.net_message h.vendor_id

abbrev pub station_wire : ℕ → Bytes → Bytes
station_wire net addr = pack_be 2 (net % 2 ^ 16) ++ (length addr ∷ addr)

abbrev pub address_wire : Option Address → Bytes
address_wire none = []
address_wire (some (remote_station net addr)) = station_wire net addr
address_wire (some (remote_broadcast net)) = station_wire net []
address_wire (some global_broadcast) = station_wire 0xffff []
address_wire (some null_address) = []
address_wire (some local_broadcast) = []
address_wire (some (local_station addr)) = []

abbrev pub octet_wire : Option ℕ → Bytes
octet_wire none = []
octet_wire (some n) = n ∷ []

abbrev pub short_wire : Option ℕ → Bytes
short_wire none = []
short_wire (some n) = pack_be 2 (n % 2 ^ 16)

abbrev pub wire : Npci → Bytes
wire h =
    h.version ∷ control_of h ∷ address_wire h.dadr
    ++ (address_wire h.sadr
        ++ (octet_wire h.hop_count ++ (octet_wire h.net_message ++ short_wire h.vendor_id)))

encode_station :
    (net : ℕ) (addr b : Bytes)
    → length addr < 256
    → (put_short net >> (put (length addr) >> put_data addr)) b
      ≡ ok (tt, b ++ station_wire net addr)
unfolding put_short put_data
encode_station net addr b h = rw (put_lem _ _ h, append_assoc, append_assoc)

encode_broadcast :
    (net : ℕ) (b : Bytes) → (put_short net >> put 0) b ≡ ok (tt, b ++ station_wire net [])
unfolding put_short
encode_broadcast net b = rw (put_lem 0 (b ++ pack_be 2 (net % 2 ^ 16)) (omega arith), append_assoc)

encode_dadr_lem :
    (a : Option Address) (b : Bytes)
    → IsDestination a
    → encode_dadr a b ≡ ok (tt, b ++ address_wire a)
unfolding encode_dadr
encode_dadr_lem none b h = rw append-nil
encode_dadr_lem (some (remote_station net addr)) b h = encode_station net addr b h.2
encode_dadr_lem (some (remote_broadcast net)) b h = encode_broadcast net b
encode_dadr_lem (some global_broadcast) b h = encode_broadcast 0xffff b
encode_dadr_lem (some null_address) b h = absurd h
encode_dadr_lem (some local_broadcast) b h = absurd h
encode_dadr_lem (some (local_station addr)) b h = absurd h

encode_sadr_lem :
    (a : Option Address) (b : Bytes) → IsSource a → encode_sadr a b ≡ ok (tt, b ++ address_wire a)
unfolding encode_sadr
encode_sadr_lem none b h = rw append-nil
encode_sadr_lem (some (remote_station net addr)) b h = encode_station net addr b h.2
encode_sadr_lem (some (remote_broadcast net)) b h = absurd h
encode_sadr_lem (some global_broadcast) b h = absurd h
encode_sadr_lem (some null_address) b h = absurd h
encode_sadr_lem (some local_broadcast) b h = absurd h
encode_sadr_lem (some (local_station addr)) b h = absurd h

encode_hop_count_lem :
    (a : Option Address) (hops : Option ℕ) (b : Bytes)
    → HopsFit a hops
    → encode_hop_count a hops b ≡ ok (tt, b ++ octet_wire hops)
unfolding encode_hop_count
encode_hop_count_lem none none b h = rw append-nil
encode_hop_count_lem none (some n) b h = absurd h
encode_hop_count_lem (some a) none b h = absurd h
encode_hop_count_lem (some a) (some n) b h = put_lem n b h

encode_vendor_lem :
    (c : Bool) (vendor : Option ℕ) (b : Bytes)
    → VendorFits c vendor
    → when c (put_attribute vendor put_short) b ≡ ok (tt, b ++ short_wire vendor)
unfolding put_attribute put_short
encode_vendor_lem true none b h = absurd h
encode_vendor_lem true (some v) b h = refl
encode_vendor_lem false none b h = rw append-nil
encode_vendor_lem false (some v) b h = absurd h

encode_message_lem :
    (message vendor : Option ℕ) (b : Bytes)
    → MessageFits message vendor
    → encode_message message vendor b ≡ ok (tt, b ++ (octet_wire message ++ short_wire vendor))
unfolding encode_message
encode_message_lem none none b h = rw append-nil
encode_message_lem none (some v) b h = absurd h
encode_message_lem (some m) vendor b h =
    rw (
      put_lem m b h.0,
      encode_vendor_lem (is_proprietary m) vendor (b ++ (m ∷ [])) h.1,
      append_assoc,
    )

-- The header as `encode` leaves it.
abbrev pub encoded : Npci → Npci
encoded h = record h { control = some (control_of h) }

control_of_fits : (h : Npci) → IsValid h → control_of h < 256
unfolding control_of
control_of_fits h v = (control_octet-Fields _ _ _ _ h.network_priority v.priority_fits).0

-- `encode` of a valid header puts its octets at the end of the PDU.
pub encode-wire : (h : Npci) (b : Bytes) → IsValid h → encode h b ≡ ok (encoded h, b ++ wire h)
unfolding encode
encode-wire h b v =
    rw
      (
        put_lem h.version b (omega arith),
        put_lem (control_of h) (b ++ (h.version ∷ [])) (control_of_fits h v),
        encode_dadr_lem h.dadr _ v.destination_fits,
        encode_sadr_lem h.sadr _ v.source_fits,
        encode_hop_count_lem h.dadr h.hop_count _ v.hops_fit,
        encode_message_lem h.net_message h.vendor_id _ v.message_fits,
      )
      (simp append_assoc)
