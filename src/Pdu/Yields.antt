-- ===== src/Pdu/Yields.antt =====
-- What a reader's results satisfy when the PDU holds octets, with a rule for each way to build one.
use bacpypes.Prelude.{
  ℕ, ◌^◌, ◌<◌, ◌≡◌, refl, Bool, true, false, [], ◌∷◌, length, All, All-take, All-drop, length-take,
  ltb, arith, if◌then◌else◌, Bool-cases, inl, inr,
}
use bacpypes.Pdu.Defs.{
  Error, Result, ok, err, Bytes, IsByte, Action, pure, raise, raise_if, continue, ◌>>=◌, get,
  get_data, get_short, unpack_be,
}

-- On a return the result satisfies `P` and octets are left.
abbrev pub OnReturn : {A : Type 0} → (A → Type 0) → Result (A × Bytes) → Type 0
OnReturn P (ok (a, b)) = P a × All IsByte b
OnReturn P (err e) = Unit

abbrev pub Yields : {A : Type 0} → (A → Type 0) → Action A → Type 0
Yields P m = (b : Bytes) → All IsByte b → OnReturn P (m b)

module _ {A B : Type 0} (P : A → Type 0) (Q : B → Type 0) (f : A → Action B) where
  OnReturn-continue :
      (r : Result (A × Bytes))
      → OnReturn P r
      → ((a : A) → P a → Yields Q (f a))
      → OnReturn Q (continue r f)
  OnReturn-continue (ok (a, b)) h k = k a h.0 b h.1
  OnReturn-continue (err e) h k = tt

  pub Yields-bind :
      (m : Action A) → Yields P m → ((a : A) → P a → Yields Q (f a)) → Yields Q (m >>= f)
  Yields-bind m h k b hb = OnReturn-continue (m b) (h b hb) k

pub Yields-pure : {A : Type 0} (P : A → Type 0) (a : A) → P a → Yields P (pure a)
Yields-pure P a h b hb = (h, hb)

-- A test that raises gives its failure to what follows.
pub Yields-raise_if : (c : Bool) (e : Error) → Yields (λ _. c ≡ false) (raise_if c e)
Yields-raise_if true e b hb = tt
Yields-raise_if false e b hb = (refl, hb)

pub get-Yields : Yields IsByte get
unfolding get
get-Yields [] h = tt
get-Yields (a ∷ b) h = h

pub get_data-Yields : (n : ℕ) → Yields (λ d. (length d ≡ n) × All IsByte d) (get_data n)
unfolding get_data
get_data-Yields n b h = elim (Bool-cases (ltb (length b) n)) [
  | inl short ↦ rw short tt
  | inr enough ↦
      rw enough ((ground (arith, length-take n b), All-take IsByte n b h), All-drop IsByte n b h)
]

unpack_short-lt : (d : Bytes) → length d ≡ 2 → All IsByte d → unpack_be d < 2 ^ 16
unpack_short-lt [] e h = absurd (omega arith)
unpack_short-lt (a ∷ []) e h = absurd (omega arith)
unpack_short-lt (a ∷ c ∷ []) e h = omega arith
unpack_short-lt (a ∷ c ∷ d ∷ r) e h = absurd (omega arith)

pub get_short-Yields : Yields (λ n. n < 2 ^ 16) get_short
unfolding get_short
get_short-Yields =
    Yields-bind (λ d. (length d ≡ 2) × All IsByte d) (λ n. n < 2 ^ 16) (λ d. pure (unpack_be d))
      (get_data 2) (get_data-Yields 2)
      λ d h. Yields-pure (λ n. n < 2 ^ 16) (unpack_be d) (unpack_short-lt d h.0 h.1)

pub Yields-if :
    {A : Type 0} (P : A → Type 0) (c : Bool) (m n : Action A)
    → Yields P m
    → Yields P n
    → Yields P (if c then m else n)
Yields-if P true m n hm hn = hm
Yields-if P false m n hm hn = hn

pub Yields-raise : {A : Type 0} (P : A → Type 0) (e : Error) → Yields P (raise e)
Yields-raise P e b hb = tt
