-- ===== src/Apdu/Apci/Octets.antt =====
-- The first octet of an APDU: the type and the flags that `encode` packs into it come out again.
use bacpypes.Prelude.{
  ℕ, ◌/◌, ◌%◌, ◌≡◌, ◌<◌, refl, Bool, true, ◌&&◌, has_bits, arith, ltb, ◌==◌, same, same→eq,
  all_flags, all_flags_sound, all_below, all_below_sound,
}
use bacpypes.Apdu.Apci.{first_octet}

abbrev pub Fields : ℕ → ℕ → Bool → Bool → Bool → Bool → Type 0
Fields octet t b3 b2 b1 b0 =
    (octet < 256)
    × (octet / 16 % 16 ≡ t)
    × (has_bits octet 0x08 ≡ b3)
    × (has_bits octet 0x04 ≡ b2)
    × (has_bits octet 0x02 ≡ b1)
    × (has_bits octet 0x01 ≡ b0)

test_fields : ℕ → ℕ → Bool → Bool → Bool → Bool → Bool
test_fields octet t b3 b2 b1 b0 =
    ltb octet 256
    && (octet / 16 % 16 == t)
    && same (has_bits octet 0x08) b3
    && same (has_bits octet 0x04) b2
    && same (has_bits octet 0x02) b1
    && same (has_bits octet 0x01) b0

test_fields→Fields :
    (octet t : ℕ) (b3 b2 b1 b0 : Bool)
    → test_fields octet t b3 b2 b1 b0 ≡ true
    → Fields octet t b3 b2 b1 b0
unfolding test_fields
test_fields→Fields octet t b3 b2 b1 b0 h = ground (
  arith,
  same→eq (has_bits octet 0x08) b3,
  same→eq (has_bits octet 0x04) b2,
  same→eq (has_bits octet 0x02) b1,
  same→eq (has_bits octet 0x01) b0,
)

abbrev row : ℕ → Bool → Bool → Bool → Bool → Bool
row t b3 b2 b1 b0 = test_fields (first_octet t b3 b2 b1 b0) t b3 b2 b1 b0

table : all_below 16 (λ t. all_flags (row t)) ≡ true
unfolding all_below test_fields first_octet
table = refl

pub first_octet-Fields :
    (t : ℕ) (b3 b2 b1 b0 : Bool) → t < 16 → Fields (first_octet t b3 b2 b1 b0) t b3 b2 b1 b0
first_octet-Fields t b3 b2 b1 b0 h =
    test_fields→Fields _ t b3 b2 b1 b0 (
      all_flags_sound (row t) b3 b2 b1 b0 (all_below_sound 16 (λ t'. all_flags (row t')) t table h))
