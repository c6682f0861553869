-- ===== src/Router/Dict.antt =====
-- Python's dict, as a list of items in the order in which the keys were first set.
use bacpypes.Prelude.{
  ◌≡◌, refl, sym, ap, Option, none, some, List, [], ◌∷◌, Bool-cases, inl, inr, if◌then◌else◌, arith,
}
use bacpypes.Router.Keys.{Key, same_both}

abbrev pub Dict : Type 0 → Type 0 → Type 0
Dict K V = List (K × V)

module _ {K V : Type 0} (key : Key K) where
  -- `d.get(k, None)`
  unfoldable pub lookup : K → Dict K V → Option V
  lookup k [] = none
  lookup k (e ∷ d) = if key.same_key e.0 k then some e.1 else lookup k d

  -- `d[k] = v`
  unfoldable pub put_key : K → V → Dict K V → Dict K V
  put_key k v [] = (k, v) ∷ []
  put_key k v (e ∷ d) =
      let rest = put_key k v d in if key.same_key e.0 k then (e.0, v) ∷ d else e ∷ rest

  -- `del d[k]`
  unfoldable pub delete_key : K → Dict K V → Dict K V
  delete_key k [] = []
  delete_key k (e ∷ d) = let rest = delete_key k d in if key.same_key e.0 k then rest else e ∷ rest

  pub lookup-put_key :
      (k q : K) (v : V) (d : Dict K V)
      → lookup q (put_key k v d) ≡ (if key.same_key k q then some v else lookup q d)
  unfolding lookup put_key
  lookup-put_key k q v [] = refl
  lookup-put_key k q v (e ∷ d) = elim (Bool-cases (key.same_key e.0 k)) [
    | inl hit ↦
        let same_entry : key.same_key k q ≡ key.same_key e.0 q =
          ap (λ j. key.same_key j q) (sym (key.sound_law e.0 k hit)) in
        ground (arith, hit, same_entry)
    | inr miss ↦ ground (arith, miss, lookup-put_key k q v d, same_both key e.0 k q)
  ]

  pub lookup-delete_key :
      (k q : K) (d : Dict K V)
      → lookup q (delete_key k d) ≡ (if key.same_key k q then none else lookup q d)
  unfolding lookup delete_key
  lookup-delete_key k q [] = ground arith
  lookup-delete_key k q (e ∷ d) = elim (Bool-cases (key.same_key e.0 k)) [
    | inl hit ↦
        let same_entry : key.same_key k q ≡ key.same_key e.0 q =
          ap (λ j. key.same_key j q) (sym (key.sound_law e.0 k hit)) in
        ground (arith, hit, same_entry, lookup-delete_key k q d)
    | inr miss ↦ ground (arith, miss, lookup-delete_key k q d, same_both key e.0 k q)
  ]
