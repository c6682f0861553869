-- ===== src/Prelude/Tests.antt =====
-- Boolean tests on the native numbers, the conditional, and splits on computed values.
use Prim.Native.Nat.{ℕ, zero, suc, ◌≤◌, ◌<◌, compare, Ordering, bit_and}
use mathlib.Core.Path.{◌≡◌, refl}
use mathlib.Core.Logic.{◌↔◌, ◌⊎◌, inl, inr}
use mathlib.Core.Bool.{Bool, true, false, not, ◌&&◌}
use mathlib.Core.Option.{Option, none, some}
use native.Mathlib.Omega.{arith}

abbrev pub ltb : ℕ → ℕ → Bool
ltb a b = elim (compare a b) [ Ordering.lt ↦ true | _ ↦ false ]

abbrev pub leb : ℕ → ℕ → Bool
leb a b = elim (compare a b) [ Ordering.gt ↦ false | _ ↦ true ]

infix 50 ◌==◌
abbrev pub ◌==◌ : ℕ → ℕ → Bool
a == b = elim (compare a b) [ Ordering.eq ↦ true | _ ↦ false ]

infix 1 if◌then◌else◌
abbrev pub if◌then◌else◌ {ℓ} : {A : Type ℓ} → Bool → A → A → A
if true then x else y = x
if false then x else y = y

-- `octet & mask` read as a condition.
abbrev pub has_bits : ℕ → ℕ → Bool
has_bits octet mask = not (bit_and octet mask == 0)

-- `is not None`
abbrev pub is_some {ℓ} : {A : Type ℓ} → Option A → Bool
is_some none = false
is_some (some a) = true

pub ltb→lt : (a b : ℕ) → ltb a b ≡ true → a < b
ltb→lt a b h = ground arith

pub lt→ltb : (a b : ℕ) → a < b → ltb a b ≡ true
lt→ltb a b h = ground arith

pub leb→le : (a b : ℕ) → leb a b ≡ true → a ≤ b
leb→le a b h = ground arith

pub le→leb : (a b : ℕ) → a ≤ b → leb a b ≡ true
le→leb a b h = ground arith

pub ==_iff : (a b : ℕ) → ((a == b) ≡ true) ↔ (a ≡ b)
==_iff a b = ground arith

pub Bool-cases : (b : Bool) → (b ≡ true) ⊎ (b ≡ false)
Bool-cases true = inl refl
Bool-cases false = inr refl

pub Option-cases {ℓ} : {A : Type ℓ} (o : Option A) → (o ≡ none) ⊎ ((a : A) × (o ≡ some a))
Option-cases none = inl refl
Option-cases (some a) = inr (a, refl)

-- Over a small range a property is checked by evaluation.
unfoldable pub all_below : ℕ → (ℕ → Bool) → Bool
all_below zero test = true
all_below (suc bound) test = test bound && all_below bound test

pub all_below_sound :
    (bound : ℕ) (test : ℕ → Bool) (i : ℕ) → all_below bound test ≡ true → i < bound → test i ≡ true
unfolding all_below
all_below_sound zero test i all inside = absurd (omega arith)
all_below_sound (suc bound) test i all inside = ground (arith, all_below_sound bound test i)

-- A property of a Boolean is checked at both.
abbrev pub all_bools : (Bool → Bool) → Bool
all_bools p = p true && p false

pub all_bools_sound : (p : Bool → Bool) (b : Bool) → all_bools p ≡ true → p b ≡ true
all_bools_sound p true h = ground arith
all_bools_sound p false h = ground arith

abbrev pub all_flags : (Bool → Bool → Bool → Bool → Bool) → Bool
all_flags p = all_bools (λ a. all_bools (λ b. all_bools (λ c. all_bools (p a b c))))

pub all_flags_sound :
    (p : Bool → Bool → Bool → Bool → Bool) (a b c d : Bool) → all_flags p ≡ true → p a b c d ≡ true
all_flags_sound p a b c d h = all_bools_sound (p a b c) d (
    all_bools_sound (λ c'. all_bools (p a b c')) c
      (all_bools_sound (λ b'. all_bools (λ c'. all_bools (p a b' c'))) b
        (all_bools_sound (λ a'. all_bools (λ b'. all_bools (λ c'. all_bools (p a' b' c')))) a h)))

-- Equality of Booleans, as a test.
abbrev pub same : Bool → Bool → Bool
same true b = b
same false b = not b

pub same→eq : (a b : Bool) → same a b ≡ true → a ≡ b
same→eq true b h = ground arith
same→eq false b h = ground arith
