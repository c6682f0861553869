-- ===== src/Bvll/Tests.antt =====
-- Messages of bacpypes3/ipv4/bvll.py.
use bacpypes.Prelude.{◌≡◌, refl, [], ◌∷◌, arith}
use bacpypes.Pdu.{Bytes, ok, put, put_short, put_data}
use bacpypes.Bvll.{
  BdtEntry, Lpdu, write_bdt, original_unicast, encode_lpdu, bvll_confirmation, count_set_bits,
}
use bacpypes.Bvll.RoundTrip.{bvll_confirmation-encode_lpdu}

abbrev first_entry : BdtEntry
first_entry = record { bdt_addr = 10 ∷ 0 ∷ 0 ∷ 1 ∷ []; bdt_port = 47808; bdt_prefix = 24 }

abbrev second_entry : BdtEntry
second_entry = record { bdt_addr = 10 ∷ 0 ∷ 1 ∷ 1 ∷ []; bdt_port = 47809; bdt_prefix = 32 }

abbrev two_entries : Lpdu
two_entries = write_bdt (first_entry ∷ second_entry ∷ [])

count_set_bits_of_mask : count_set_bits 32 0xffffff00 ≡ 24
unfolding count_set_bits
count_set_bits_of_mask = refl

-- A mask whose bits are not together has the count of one whose bits are.
count_set_bits_of_holes : count_set_bits 32 0xff00ff00 ≡ 16
unfolding count_set_bits
count_set_bits_of_holes = refl

unicast_octets :
    encode_lpdu (original_unicast (1 ∷ 32 ∷ [])) [] ≡ ok (tt, 0x81 ∷ 0x0a ∷ 0 ∷ 6 ∷ 1 ∷ 32 ∷ [])
unfolding encode_lpdu put put_short put_data
unicast_octets = refl

bvll_confirmation-encode_lpdu_example :
    (b : Bytes) × (encode_lpdu two_entries [] ≡ ok (tt, b))
    × (bvll_confirmation b ≡ ok (two_entries, []))
bvll_confirmation-encode_lpdu_example =
    bvll_confirmation-encode_lpdu two_entries
      ((refl, omega arith, omega arith), ((refl, omega arith, omega arith), tt)) (omega arith)
