-- ===== src/Router/Nets.antt =====
-- Python's set of network numbers, as a list without repetition. The order, in which a loop takes the
-- numbers, is that of the list.
use bacpypes.Prelude.{
  ℕ, ◌≡◌, refl, ap, Bool, true, false, not, ◌&&◌, ◌||◌, List, [], ◌∷◌, ◌++◌, ◌==◌, ==_iff,
  Bool-cases, inl, inr, if◌then◌else◌, arith,
}

abbrev pub Nets : Type 0
Nets = List ℕ

-- `d in nets`
unfoldable pub member : ℕ → Nets → Bool
member d [] = false
member d (n ∷ nets) = if n == d then true else member d nets

-- `nets.remove(d)` of a member, `nets -= other` and `nets |= other`
unfoldable pub remove : ℕ → Nets → Nets
remove d [] = []
remove d (n ∷ nets) = let rest = remove d nets in if n == d then rest else n ∷ rest

unfoldable pub difference : Nets → Nets → Nets
unfolding member
difference [] other = []
difference (n ∷ nets) other =
    let rest = difference nets other in if member n other then rest else n ∷ rest

unfoldable pub union : Nets → Nets → Nets
unfolding difference
union nets other = nets ++ difference other nets

-- `nets == other`
unfoldable pub is_subset : Nets → Nets → Bool
unfolding member
is_subset [] other = true
is_subset (n ∷ nets) other = member n other && is_subset nets other

unfoldable pub same_nets : Nets → Nets → Bool
unfolding is_subset
same_nets nets other = is_subset nets other && is_subset other nets

-- No number stands twice.
abbrev pub IsNetSet : Nets → Type 0
IsNetSet [] = Unit
IsNetSet (n ∷ nets) = (member n nets ≡ false) × IsNetSet nets

pub member-remove :
    (x d : ℕ) (nets : Nets) → member d (remove x nets) ≡ (not (x == d) && member d nets)
unfolding member remove
member-remove x d [] = ground arith
member-remove x d (n ∷ nets) = ground (arith, member-remove x d nets)

pub member-difference :
    (d : ℕ) (nets other : Nets)
    → member d (difference nets other) ≡ (member d nets && not (member d other))
unfolding member difference
member-difference d [] other = refl
member-difference d (n ∷ nets) other = elim (Bool-cases (n == d)) [
  | inl hit ↦
      let same_number : member n other ≡ member d other =
        ap (λ k. member k other) ((==_iff n d).0 hit) in
      ground (arith, hit, same_number, member-difference d nets other)
  | inr miss ↦ ground (arith, miss, member-difference d nets other)
]

member-append :
    (d : ℕ) (nets other : Nets) → member d (nets ++ other) ≡ (member d nets || member d other)
unfolding member
member-append d [] other = refl
member-append d (n ∷ nets) other = ground (arith, member-append d nets other)

pub member-union :
    (d : ℕ) (nets other : Nets) → member d (union nets other) ≡ (member d nets || member d other)
unfolding union
member-union d nets other =
    ground (arith, member-append d nets (difference other nets), member-difference d other nets)

is_subset_lem :
    (d : ℕ) (nets other : Nets)
    → is_subset nets other ≡ true
    → member d nets ≡ true
    → member d other ≡ true
unfolding member is_subset
is_subset_lem d [] other s m = ground arith
is_subset_lem d (n ∷ nets) other s m = elim (Bool-cases (n == d)) [
  | inl hit ↦
      let same_number : member n other ≡ member d other =
        ap (λ k. member k other) ((==_iff n d).0 hit) in
      ground (arith, s, same_number)
  | inr miss ↦
      let rest : is_subset nets other ≡ true = ground arith in
      let later : member d nets ≡ true = ground arith in is_subset_lem d nets other rest later
]

pub same_nets_lem :
    (d : ℕ) (nets other : Nets) → same_nets nets other ≡ true → member d nets ≡ member d other
unfolding same_nets
same_nets_lem d nets other s =
    let one : is_subset nets other ≡ true = ground arith in
    let two : is_subset other nets ≡ true = ground arith in
    ground (arith, is_subset_lem d nets other one, is_subset_lem d other nets two)

pub difference-IsNetSet : (nets other : Nets) → IsNetSet nets → IsNetSet (difference nets other)
unfolding difference
difference-IsNetSet [] other s = tt
difference-IsNetSet (n ∷ nets) other (fresh, s) = elim (Bool-cases (member n other)) [
  | inl hit ↦ rw hit (difference-IsNetSet nets other s)
  | inr miss ↦
      let still : member n (difference nets other) ≡ false =
        ground (arith, fresh, member-difference n nets other) in
      rw miss (still, difference-IsNetSet nets other s)
]
