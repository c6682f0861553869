-- ===== src/Npdu/Message/Codec.antt =====
-- The decoders of a whole network PDU, NetworkAdapter.confirmation (bacpypes3/netservice.py) and
-- NetworkCodec.confirmation (bacpypes3/npdu.py), and the loops of the message classes.
use bacpypes.Prelude.{
  ℕ, zero, suc, ◌+◌, ◌≤◌, ◌≡◌, refl, List, [], ◌∷◌, ◌++◌, length, All, ◌*◌, ◌%◌, ◌/◌, ◌^◌, arith,
}
use bacpypes.Pdu.{
  Bytes, Result, ok, err, decoding_error, get_short, get_data, get_short_octets, IsByte, continue,
  pure,
}
use bacpypes.Npdu.Classes.{get_networks, get_all_networks}
use bacpypes.Npdu.Message.Wire.{network_wire, networks_wire}
use mathlib.Core.Path.{ap₂}

-- What the loop of a network list gives: networks whose octets are those that were read, or a
-- DecodingError. It never runs out of rounds.
abbrev pub ReadAll : Bytes → Result (List ℕ × Bytes) → Type 0
ReadAll b (ok (nets, rest)) = (rest ≡ []) × (networks_wire nets ≡ b)
ReadAll b (err decoding_error) = Unit
ReadAll b (err e) = ⊥

network_wire_octets : (a c : ℕ) → IsByte a → IsByte c → network_wire (a * 256 + c) ≡ a ∷ c ∷ []
network_wire_octets a c ha hc =
    ap₂ (λ (x y : ℕ). x ∷ y ∷ []) {x = (a * 256 + c) % 2 ^ 16 / 256 % 256} (omega arith)
      (omega arith)

ReadAll-cons :
    (a c : ℕ) (b : Bytes) (r : Result (List ℕ × Bytes))
    → IsByte a
    → IsByte c
    → ReadAll b r
    → ReadAll (a ∷ c ∷ b) (continue r (λ nets. pure ((a * 256 + c) ∷ nets)))
ReadAll-cons a c b (ok (nets, rest)) ha hc h = (h.0, ap₂ ◌++◌ (network_wire_octets a c ha hc) h.1)
ReadAll-cons a c b (err decoding_error) ha hc h = tt
ReadAll-cons a c b (err _) ha hc h = absurd h

get_networks-ReadAll :
    (fuel : ℕ) (b : Bytes) → All IsByte b → length b ≤ fuel → ReadAll b (get_networks fuel b)
unfolding get_networks
get_networks-ReadAll fuel [] hb f = (refl, refl)
get_networks-ReadAll zero (a ∷ b) hb f = absurd (omega arith)
get_networks-ReadAll (suc fuel) (a ∷ []) hb f = unfold get_short get_data in tt
get_networks-ReadAll (suc fuel) (a ∷ c ∷ b) hb f = rw (get_short_octets a c b) (
    ReadAll-cons a c b (get_networks fuel b) hb.0 hb.1.0
      (get_networks-ReadAll fuel b hb.1.1 (omega arith)))

-- A network list is read from any octets without running out of rounds: to its end, giving the
-- numbers whose two octets each stand there, or to a DecodingError.
pub get_all_networks-ReadAll : (b : Bytes) → All IsByte b → ReadAll b (get_all_networks b)
unfolding get_all_networks
get_all_networks-ReadAll b hb = get_networks-ReadAll (length b) b hb (omega arith)
