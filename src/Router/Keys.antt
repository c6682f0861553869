-- ===== src/Router/Keys.antt =====
-- Python's `==` on the keys of dictionaries, as a test with its laws.
use bacpypes.Prelude.{
  ℕ, ◌≡◌, refl, sym, ◌∙◌, ap₂, Bool, true, false, ◌&&◌, Option, ◌==◌, ==_iff, arith,
}
use bacpypes.Address.{Address}
unfoldable pub use native.Mathlib.Decide.{ℕ_discrete}

pub record Key (K : Type 0) : Type 0 where
  pub same_key : K → K → Bool
  pub refl_law : (k : K) → same_key k k ≡ true
  pub sound_law : (j k : K) → same_key j k ≡ true → j ≡ k

abbrev pub by_dec : {A : Type 0} → Dec A → Bool
by_dec (yes p) = true
by_dec (no p) = false

pub by_dec_refl : {A : Type 0} (d : Dec A) → A → by_dec d ≡ true
by_dec_refl (yes p) a = refl
by_dec_refl (no p) a = absurd (p a)

pub by_dec_sound : {A : Type 0} (d : Dec A) → by_dec d ≡ true → A
by_dec_sound (yes p) h = p
by_dec_sound (no p) h = ground arith

unfoldable pub by_discrete : {K : Type 0} → Discrete K → Key K
by_discrete dec = record {
  same_key = λ j k. by_dec (dec j k);
  refl_law = λ k. by_dec_refl (dec k k) refl;
  sound_law = λ j k h. by_dec_sound (dec j k) h;
}

unfoldable pub Address-discrete : Discrete Address
Address-discrete = hlevel ℕ_discrete

unfoldable pub Net-discrete : Discrete (Option ℕ)
Net-discrete = hlevel ℕ_discrete

unfoldable pub address_key : Key Address
unfolding by_discrete Address-discrete
address_key = by_discrete Address-discrete

unfoldable pub number_key : Key ℕ
number_key = record {
  same_key = ◌==◌;
  refl_law = λ k. (==_iff k k).1 refl;
  sound_law = λ j k h. (==_iff j k).0 h;
}

-- A network number, or None where it is not known.
unfoldable pub net_key : Key (Option ℕ)
unfolding by_discrete Net-discrete
net_key = by_discrete Net-discrete

abbrev pub same_net : Option ℕ → Option ℕ → Bool
same_net = net_key.same_key

abbrev pub same_address : Address → Address → Bool
same_address = address_key.same_key

module _ {A B : Type 0} (first : Key A) (second : Key B) where
  abbrev pub same_pair : A × B → A × B → Bool
  same_pair p q = first.same_key p.0 q.0 && second.same_key p.1 q.1

  pub same_pair_refl : (p : A × B) → same_pair p p ≡ true
  same_pair_refl p = rw (first.refl_law p.0, second.refl_law p.1) refl

  pub same_pair_sound : (p q : A × B) → same_pair p q ≡ true → p ≡ q
  same_pair_sound p q h =
      let same_first : first.same_key p.0 q.0 ≡ true = ground arith in
      let same_second : second.same_key p.1 q.1 ≡ true = ground arith in
      ap₂ (λ a b. (a, b)) (first.sound_law p.0 q.0 same_first)
        (second.sound_law p.1 q.1 same_second)

  unfoldable pub pair_key : Key (A × B)
  pair_key = record { same_key = same_pair; refl_law = same_pair_refl; sound_law = same_pair_sound }

module _ {K : Type 0} (key : Key K) where
  -- Two keys that are the same as a third are the same.
  pub same_both :
      (j k q : K) → key.same_key j q ≡ true → key.same_key k q ≡ true → key.same_key j k ≡ true
  same_both j k q a b =
      let as_q : j ≡ k = key.sound_law j q a ∙ sym (key.sound_law k q b) in rw as_q (key.refl_law k)
