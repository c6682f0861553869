-- ===== src/Pdu/Shortens.antt =====
-- How many octets a reader takes at least, and that it raises DecodingError at most, with a rule for
-- each way to build one.
use bacpypes.Prelude.{
  ℕ, ◌+◌, ◌≤◌, ◌≡◌, refl, Bool, true, false, [], ◌∷◌, length, length-drop, ltb, arith,
  if◌then◌else◌, Bool-cases, inl, inr,
}
use bacpypes.Pdu.Defs.{
  Result, ok, err, Bytes, Action, pure, continue, ◌>>=◌, get, get_data, get_short, get_long,
  unpack_be, decoding_error,
}

-- On a return at least `k` of the `n` octets have been taken; what is raised is DecodingError.
abbrev pub Leaves : {A : Type 0} → ℕ → ℕ → Result (A × Bytes) → Type 0
Leaves k n (ok (a, b)) = length b + k ≤ n
Leaves k n (err e) = e ≡ decoding_error

abbrev pub Shortens : {A : Type 0} → ℕ → Action A → Type 0
Shortens k m = (b : Bytes) → Leaves k (length b) (m b)

module _ {A B : Type 0} (j k : ℕ) (f : A → Action B) where
  Leaves-weaken :
      (n : ℕ) (r : Result (B × Bytes)) (l : ℕ) → l + j ≤ n → Leaves k l r → Leaves (j + k) n r
  Leaves-weaken n (ok (a, b)) l h g = omega arith
  Leaves-weaken n (err e) l h g = g

  Leaves-continue :
      (r : Result (A × Bytes)) (n : ℕ)
      → Leaves j n r
      → ((a : A) → Shortens k (f a))
      → Leaves (j + k) n (continue r f)
  Leaves-continue (ok (a, b)) n h g = Leaves-weaken n (f a b) (length b) h (g a b)
  Leaves-continue (err e) n h g = h

  pub Shortens-bind :
      (m : Action A) → Shortens j m → ((a : A) → Shortens k (f a)) → Shortens (j + k) (m >>= f)
  Shortens-bind m h g b = Leaves-continue (m b) (length b) (h b) g

pub Shortens-pure : {A : Type 0} (a : A) → Shortens 0 (pure a)
Shortens-pure a b = omega arith

pub Shortens-if :
    {A : Type 0} (k : ℕ) (c : Bool) (m n : Action A)
    → Shortens k m
    → Shortens k n
    → Shortens k (if c then m else n)
Shortens-if k true m n hm hn = hm
Shortens-if k false m n hm hn = hn

pub get-Shortens : Shortens 1 get
unfolding get
get-Shortens [] = refl
get-Shortens (a ∷ b) = omega arith

pub get_data-Shortens : (n : ℕ) → Shortens 0 (get_data n)
unfolding get_data
get_data-Shortens n b = elim (Bool-cases (ltb (length b) n)) [
  | inl short ↦ rw short refl
  | inr enough ↦ rw enough (omega (arith, length-drop n b))
]

pub get_short-Shortens : Shortens 0 get_short
unfolding get_short
get_short-Shortens =
    Shortens-bind 0 0 (λ d. pure (unpack_be d)) (get_data 2) (get_data-Shortens 2)
      λ d. Shortens-pure (unpack_be d)

pub get_long-Shortens : Shortens 0 get_long
unfolding get_long
get_long-Shortens =
    Shortens-bind 0 0 (λ d. pure (unpack_be d)) (get_data 4) (get_data-Shortens 4)
      λ d. Shortens-pure (unpack_be d)

pub get-Shortens_any : Shortens 0 get
unfolding get
get-Shortens_any [] = refl
get-Shortens_any (a ∷ b) = omega arith
