-- ===== src/Npdu/Tests.antt =====
-- Runs of the network layer's codec on concrete PDUs, and its theorems at concrete inputs.
use bacpypes.Prelude.{◌≡◌, refl, true, some, [], ◌∷◌, ◌++◌, All, arith}
use bacpypes.Pdu.{Bytes, IsByte, ok, err, decoding_error, get, get_data, get_short}
use bacpypes.Address.{remote_station, global_broadcast}
use bacpypes.Npdu.Npci.{
  Npci, new_npci, encode, decode, decode_dadr, decode_sadr, decode_hop_count, decode_message,
  decode_vendor, destination, check_length,
}
use bacpypes.Npdu.Npci.Wire.{IsValid, encoded}
use bacpypes.Npdu.Npci.RoundTrip.{decode-encode}
use bacpypes.Npdu.Npci.Sound.{decode-IsValid, decode_again}
use bacpypes.Npdu.Classes.{network_number_is, get_all_networks}
use bacpypes.Npdu.Message.{
  application, network, pdu_type, adapter_confirmation, codec_confirmation, encode_message_pdu,
}
use bacpypes.Npdu.Message.RoundTrip.{header, adapter_confirmation-encode}
use bacpypes.Npdu.Message.Codec.{ReadAll, get_all_networks-ReadAll}

-- A routed confirmed request: a destination station, a source station and a hop count.
abbrev routed : Npci
routed = record new_npci {
  expecting_reply = true;
  network_priority = 2;
  dadr = some (remote_station 5 (7 ∷ []));
  sadr = some (remote_station 300 (1 ∷ 2 ∷ []));
  hop_count = some 254;
}

routed-IsValid : IsValid routed
routed-IsValid = record {
  version_one = refl;
  priority_fits = omega arith;
  destination_fits = omega arith;
  source_fits = omega arith;
  hops_fit = omega arith;
  message_fits = tt;
}

decode-encode_example :
    (b : Bytes) × (encode routed [] ≡ ok (encoded routed, b))
    × ((rest : Bytes) → decode (b ++ rest) ≡ ok (encoded routed, rest))
decode-encode_example = decode-encode routed routed-IsValid

-- A global broadcast with reserved control bits set, and two octets behind the header.
abbrev broadcast_octets : Bytes
broadcast_octets = 1 ∷ 0x70 ∷ 0xff ∷ 0xff ∷ 0 ∷ 255 ∷ 0x10 ∷ 8 ∷ []

abbrev broadcast_header : Npci
broadcast_header = record new_npci {
  control = some 0x70;
  dadr = some global_broadcast;
  hop_count = some 255;
}

decode_broadcast : decode broadcast_octets ≡ ok (broadcast_header, 0x10 ∷ 8 ∷ [])
unfolding decode decode_dadr decode_sadr decode_hop_count decode_message destination check_length
    get get_data get_short
decode_broadcast = refl

decode-IsValid_example : IsValid broadcast_header × All IsByte (0x10 ∷ 8 ∷ [])
decode-IsValid_example = decode-IsValid broadcast_octets (omega arith) decode_broadcast

decode_again_example :
    (c : Bytes) × (encode broadcast_header [] ≡ ok (encoded broadcast_header, c))
    × (decode (c ++ (0x10 ∷ 8 ∷ [])) ≡ ok (encoded broadcast_header, 0x10 ∷ 8 ∷ []))
decode_again_example = decode_again broadcast_octets (omega arith) decode_broadcast

decode_version_two : decode (2 ∷ 0 ∷ []) ≡ err decoding_error
unfolding decode check_length get
decode_version_two = refl

number_header-IsValid : IsValid (header new_npci (network_number_is 12 1))
unfolding pdu_type
number_header-IsValid = record {
  version_one = refl;
  priority_fits = omega arith;
  destination_fits = tt;
  source_fits = tt;
  hops_fit = tt;
  message_fits = (omega arith, tt);
}

adapter_confirmation-encode_example :
    (b : Bytes) × (encode_message_pdu new_npci (network_number_is 12 1) []
      ≡ ok (encoded (header new_npci (network_number_is 12 1)), b))
    × (adapter_confirmation b
        ≡ ok (
          network (encoded (header new_npci (network_number_is 12 1))) (network_number_is 12 1),
          [],
        ))
adapter_confirmation-encode_example =
    adapter_confirmation-encode new_npci (network_number_is 12 1) number_header-IsValid
      (omega arith)

get_all_networks-ReadAll_example :
    ReadAll (0 ∷ 5 ∷ 1 ∷ 2 ∷ []) (get_all_networks (0 ∷ 5 ∷ 1 ∷ 2 ∷ []))
get_all_networks-ReadAll_example = get_all_networks-ReadAll (0 ∷ 5 ∷ 1 ∷ 2 ∷ []) (omega arith)

abbrev who_is_octets : Bytes
who_is_octets = 1 ∷ 0x80 ∷ 0 ∷ 0 ∷ 9 ∷ []

decode_who_is :
    decode who_is_octets
    ≡ ok (record new_npci { control = some 0x80; net_message = some 0 }, 0 ∷ 9 ∷ [])
unfolding decode decode_dadr decode_sadr decode_hop_count decode_message decode_vendor check_length
    get
decode_who_is = refl

-- A Who-Is-Router-To-Network is handed up undecoded.
codec_confirmation_who_is :
    codec_confirmation who_is_octets
    ≡ ok (
      application (record new_npci { control = some 0x80; net_message = some 0 }) (0 ∷ 9 ∷ []),
      0 ∷ 9 ∷ [],
    )
unfolding codec_confirmation
codec_confirmation_who_is = rw decode_who_is refl
