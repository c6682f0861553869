-- ===== src/Npdu/Npci/Control.antt =====
-- The control octet of NPCI: what `encode` packs into it, `decode` reads back.
use bacpypes.Prelude.{
  ℕ, ◌≡◌, ◌<◌, refl, Bool, true, ◌&&◌, bit_and, has_bits, arith, ltb, ◌==◌, same, same→eq,
  all_flags, all_flags_sound, all_below, all_below_sound,
}
use bacpypes.Npdu.Npci.{control_octet}

-- Each of the five fields of the octet, for a priority of two bits.
abbrev pub Fields : ℕ → Bool → Bool → Bool → Bool → ℕ → Type 0
Fields octet message dnet snet reply priority =
    (octet < 256)
    × (has_bits octet 0x80 ≡ message)
    × (has_bits octet 0x20 ≡ dnet)
    × (has_bits octet 0x08 ≡ snet)
    × (has_bits octet 0x04 ≡ reply)
    × (bit_and octet 0x03 ≡ priority)

test_fields : ℕ → Bool → Bool → Bool → Bool → ℕ → Bool
test_fields octet message dnet snet reply priority =
    ltb octet 256
    && same (has_bits octet 0x80) message
    && same (has_bits octet 0x20) dnet
    && same (has_bits octet 0x08) snet
    && same (has_bits octet 0x04) reply
    && (bit_and octet 0x03 == priority)

test_fields→Fields :
    (octet : ℕ) (m d s r : Bool) (priority : ℕ)
    → test_fields octet m d s r priority ≡ true
    → Fields octet m d s r priority
unfolding test_fields
test_fields→Fields octet m d s r priority h = ground (
  arith,
  same→eq (has_bits octet 0x80) m,
  same→eq (has_bits octet 0x20) d,
  same→eq (has_bits octet 0x08) s,
  same→eq (has_bits octet 0x04) r,
)

abbrev row : ℕ → Bool → Bool → Bool → Bool → Bool
row priority m d s r = test_fields (control_octet m d s r priority) m d s r priority

table : all_below 4 (λ p. all_flags (row p)) ≡ true
unfolding all_below test_fields control_octet
table = refl

pub control_octet-Fields :
    (m d s r : Bool) (priority : ℕ)
    → priority < 4
    → Fields (control_octet m d s r priority) m d s r priority
control_octet-Fields m d s r priority h = test_fields→Fields _ m d s r priority (
    all_flags_sound (row priority) m d s r
      (all_below_sound 4 (λ p. all_flags (row p)) priority table h))
