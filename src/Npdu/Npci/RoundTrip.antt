-- ===== src/Npdu/Npci/RoundTrip.antt =====
-- bacpypes3/npdu.py: `NPCI.encode`, and `NPCI.decode` on what it writes.
use bacpypes.Prelude.{
  ℕ, ◌^◌, ◌<◌, ◌≡◌, refl, ◌∙◌, Bool, true, false, not, Option, none, some, [], ◌∷◌, ◌++◌,
  append_assoc, length, arith, is_some, leb, ◌==◌,
}
use bacpypes.Pdu.{
  Bytes, ok, get, get_data, get_data-append, get_short_masked, get_short, ◌>>=◌, Action,
}
use bacpypes.Address.{
  Address, null_address, local_broadcast, global_broadcast, local_station, remote_station,
  remote_broadcast, new_remote_station, new_remote_broadcast,
}
use bacpypes.Npdu.Npci.{
  Npci, encode, decode, decode_dadr, decode_sadr, decode_hop_count, decode_message, decode_vendor,
  destination, check_length, control_of,
}
use bacpypes.Npdu.Npci.Control.{Fields, control_octet-Fields}
use bacpypes.Npdu.Npci.Wire.{
  IsStation, IsDestination, IsSource, HopsFit, VendorFits, MessageFits, IsValid, address_wire,
  station_wire, octet_wire, short_wire, wire, encoded, encode-wire,
}

destination_lem :
    (net : ℕ) (addr : Bytes) (b : Bytes)
    → IsStation net addr
    → destination net (length addr) addr b ≡ ok (remote_station net addr, b)
unfolding destination new_remote_station
destination_lem net addr b h = ground arith

destination_broadcast :
    (net : ℕ) (b : Bytes) → net < 65535 → destination net 0 [] b ≡ ok (remote_broadcast net, b)
unfolding destination new_remote_broadcast
destination_broadcast net b h = ground arith

-- A network number, a length and as many octets, handed to what follows.
read_station :
    {B : Type 0} (net : ℕ) (addr rest : Bytes) (k : ℕ → ℕ → Bytes → Action B)
    → net < 2 ^ 16
    → (get_short >>= λ n. get >>= λ l. get_data l >>= λ a. k n l a) (station_wire net addr ++ rest)
      ≡ k net (length addr) addr rest
unfolding get
read_station net addr rest k h =
    rw (get_short_masked net (length addr ∷ addr ++ rest) h, get_data-append addr rest)

decode_dadr_lem :
    (a : Option Address) (rest : Bytes)
    → IsDestination a
    → decode_dadr (is_some a) (address_wire a ++ rest) ≡ ok (a, rest)
unfolding decode_dadr
decode_dadr_lem none rest h = refl
decode_dadr_lem (some (remote_station net addr)) rest h =
    read_station net addr rest _ (omega arith) ∙ rw (destination_lem net addr rest h)
decode_dadr_lem (some (remote_broadcast net)) rest h =
    read_station net [] rest _ (omega arith) ∙ rw (destination_broadcast net rest h)
decode_dadr_lem (some global_broadcast) rest h =
    read_station 0xffff [] rest _ (omega arith) ∙ unfold destination in refl
decode_dadr_lem (some null_address) rest h = absurd h
decode_dadr_lem (some local_broadcast) rest h = absurd h
decode_dadr_lem (some (local_station addr)) rest h = absurd h

-- The tests that `decode` makes on a source.
source_tests :
    (net : ℕ) (addr : Bytes)
    → IsStation net addr
    → ((net == 0xffff) ≡ false) × ((length addr == 0) ≡ false) × (leb 65535 net ≡ false)
source_tests net addr h = ground arith

decode_sadr_lem :
    (a : Option Address) (rest : Bytes)
    → IsSource a
    → decode_sadr (is_some a) (address_wire a ++ rest) ≡ ok (a, rest)
unfolding decode_sadr new_remote_station
decode_sadr_lem none rest h = refl
decode_sadr_lem (some (remote_station net addr)) rest h =
    let (a, b, c) = source_tests net addr h in
    read_station net addr rest _ (omega arith) ∙ rw (a, b, new_remote_station, c)
decode_sadr_lem (some (remote_broadcast net)) rest h = absurd h
decode_sadr_lem (some global_broadcast) rest h = absurd h
decode_sadr_lem (some null_address) rest h = absurd h
decode_sadr_lem (some local_broadcast) rest h = absurd h
decode_sadr_lem (some (local_station addr)) rest h = absurd h

decode_hop_count_lem :
    (a : Option Address) (hops : Option ℕ) (rest : Bytes)
    → HopsFit a hops
    → decode_hop_count (is_some a) (octet_wire hops ++ rest) ≡ ok (hops, rest)
unfolding decode_hop_count get
decode_hop_count_lem none none rest h = refl
decode_hop_count_lem none (some n) rest h = absurd h
decode_hop_count_lem (some a) none rest h = absurd h
decode_hop_count_lem (some a) (some n) rest h = refl

decode_vendor_lem :
    (c : Bool) (vendor : Option ℕ) (rest : Bytes)
    → VendorFits c vendor
    → decode_vendor c (short_wire vendor ++ rest) ≡ ok (vendor, rest)
unfolding decode_vendor
decode_vendor_lem true none rest h = absurd h
decode_vendor_lem true (some v) rest h = rw (get_short_masked v rest h)
decode_vendor_lem false none rest h = refl
decode_vendor_lem false (some v) rest h = absurd h

decode_message_lem :
    (message vendor : Option ℕ) (rest : Bytes)
    → MessageFits message vendor
    → decode_message (is_some message) ((octet_wire message ++ short_wire vendor) ++ rest)
      ≡ ok ((message, vendor), rest)
unfolding decode_message get
decode_message_lem none none rest h = refl
decode_message_lem none (some v) rest h = absurd h
decode_message_lem (some m) vendor rest h = rw (decode_vendor_lem _ vendor rest h.1)

check_length_lem : (a c : ℕ) (b : Bytes) → check_length (a ∷ c ∷ b) ≡ ok (tt, a ∷ c ∷ b)
unfolding check_length
check_length_lem a c b = ground arith

control_of-Fields :
    (h : Npci)
    → IsValid h
    → Fields
        (control_of h)
        (is_some h.net_message)
        (is_some h.dadr)
        (is_some h.sadr)
        h.expecting_reply
        h.network_priority
unfolding control_of
control_of-Fields h v = control_octet-Fields _ _ _ _ h.network_priority v.priority_fits

version_test : (version : ℕ) → version ≡ 1 → not (version == 1) ≡ false
version_test version h = ground arith

pub decode-wire :
    (h : Npci) (rest : Bytes) → IsValid h → decode (wire h ++ rest) ≡ ok (encoded h, rest)
unfolding decode get
decode-wire h rest v =
    let (low, message, dnet, snet, reply, priority) = control_of-Fields h v in
    rw (
      append_assoc,
      append_assoc,
      append_assoc,
      check_length_lem h.version (control_of h) _,
      decode,
      version_test h.version v.version_one,
      message,
      dnet,
      snet,
      reply,
      priority,
      decode_dadr_lem h.dadr _ v.destination_fits,
      decode_sadr_lem h.sadr _ v.source_fits,
      decode_hop_count_lem h.dadr h.hop_count _ v.hops_fit,
      decode_message_lem h.net_message h.vendor_id rest v.message_fits,
    )

-- `encode` of a valid header succeeds; `decode` of what it wrote, whatever follows, gives the
-- header as `encode` left it, and the octets that follow.
pub decode-encode :
    (h : Npci)
    → IsValid h
    → (b : Bytes) × (encode h [] ≡ ok (encoded h, b))
      × ((rest : Bytes) → decode (b ++ rest) ≡ ok (encoded h, rest))
decode-encode h v = (wire h, encode-wire h [] v, λ rest. decode-wire h rest v)
