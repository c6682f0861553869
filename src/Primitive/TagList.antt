-- ===== src/Primitive/TagList.antt =====
-- bacpypes3/primitivedata.py, class TagList: `encode`, `decode` and `pop_context` on the list of
-- tags.
pub mod Codec
pub mod Nested
use bacpypes.Prelude.{
  ℕ, zero, suc, ◌+◌, ◌-◌, ◌==◌, Bool, true, false, List, [], ◌∷◌, ◌++◌, length, take, drop,
  if◌then◌else◌,
}
use bacpypes.Pdu.{
  Result, ok, err, Bytes, Action, pure, ◌>>=◌, ◌>>◌, continue, put_data, invalid_tag, out_of_fuel,
}
use bacpypes.Primitive.Tag.{TagClass, application, context, opening, closing, Tag, encode, decode}

-- `pdu_data.put_data(tag.encode().pduData)`: a tag is encoded to a PDU of its own.
unfoldable pub put_encoded : Result (Unit {0} × Bytes) → Action (Unit {0})
put_encoded (ok (u, octets)) b = put_data octets b
put_encoded (err e) b = err e

-- `TagList.encode`
unfoldable pub encode_list : List Tag → Action (Unit {0})
unfolding put_encoded
encode_list [] = pure tt
encode_list (tag ∷ tags) = do put_encoded (encode tag []); encode_list tags

-- The loop of `TagList.decode`. Each round takes an octet at least, so one round for each octet is
-- enough.
unfoldable pub decode_tags : ℕ → Action (List Tag)
decode_tags fuel [] = ok ([], [])
decode_tags zero (a ∷ b) = err out_of_fuel
decode_tags (suc fuel) (a ∷ b) =
    let rest : Action (List Tag) = decode_tags fuel in
    (do tag ← decode; tags ← rest; pure (tag ∷ tags)) (a ∷ b)

-- `TagList.decode`
unfoldable pub decode_list : Action (List Tag)
unfolding decode_tags
decode_list b = decode_tags (length b) b

-- The forward pass of `pop_context`: the index at which it stops, and the level there. It begins at
-- an opening tag, so the level is never below 0.
unfoldable pub forward : ℕ → ℕ → List Tag → ℕ × ℕ
forward i lvl [] = (i, lvl)
forward i lvl (tag ∷ tags) = elim tag.tag_class [
  | application ↦ forward (i + 1) lvl tags
  | context ↦ forward (i + 1) lvl tags
  | opening ↦ forward (i + 1) (lvl + 1) tags
  | closing ↦ elim (lvl - 1 == 0) [ true ↦ (i, 0) | false ↦ forward (i + 1) (lvl - 1) tags ]
]

-- The tags up to the index, if the levels match there, and what is left of the list.
abbrev pub cut_at : List Tag → ℕ × ℕ → Result (List Tag × List Tag)
cut_at tags (i, lvl) =
    if lvl == 0 then ok (take (i + 1) tags, drop (i + 1) tags) else err invalid_tag

unfoldable pub pop_class : TagClass → Tag → List Tag → Result (List Tag × List Tag)
unfolding forward
pop_class application tag tags = ok (tag ∷ [], tags)
pop_class context tag tags = ok (tag ∷ [], tags)
pop_class closing tag tags = ok ([], tag ∷ tags)
pop_class opening tag tags = cut_at (tag ∷ tags) (forward 0 0 (tag ∷ tags))

-- `TagList.pop_context`: the tags that it returns, and those that it leaves.
unfoldable pub pop_context : List Tag → Result (List Tag × List Tag)
unfolding pop_class
pop_context [] = ok ([], [])
pop_context (tag ∷ tags) = pop_class tag.tag_class tag tags
