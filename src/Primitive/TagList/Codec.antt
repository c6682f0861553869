-- ===== src/Primitive/TagList/Codec.antt =====
-- bacpypes3/primitivedata.py: `TagList.decode` on what `TagList.encode` writes, and on any octets.
use bacpypes.Prelude.{
  ℕ, zero, suc, ◌+◌, ◌/◌, ◌%◌, ◌≡◌, ◌≤◌, refl, List, [], ◌∷◌, ◌++◌, append-nil, append_assoc,
  length, All, arith, ◌==◌, length-append, if◌then◌else◌, ◌&&◌,
}
use bacpypes.Pdu.{Bytes, Result, ok, err, Action, ◌>>=◌, continue, pure, get, put_data, invalid_tag}
use bacpypes.Pdu.Shortens.{
  Leaves, Shortens, Shortens-bind, Shortens-pure, Shortens-if, get-Shortens, get_data-Shortens,
  get-Shortens_any, get_short-Shortens, get_long-Shortens,
}
use bacpypes.Primitive.Tag.{
  TagClass, application, context, opening, closing, Tag, boolean_number, is_application, decode,
  decode_fields, as_invalid_tag, get_number, get_lvt, get_extended, get_tag_data,
}
use bacpypes.Primitive.Tag.Wire.{IsValid, wire, encode-wire}
use bacpypes.Primitive.Tag.RoundTrip.{decode-wire}
use bacpypes.Primitive.TagList.{encode_list, put_encoded, decode_tags, decode_list}

list_wire : List Tag → Bytes
list_wire [] = []
list_wire (tag ∷ tags) = wire tag ++ list_wire tags

encode_list_lem :
    (tags : List Tag) (b : Bytes)
    → All IsValid tags
    → encode_list tags b ≡ ok (tt, b ++ list_wire tags)
unfolding encode_list put_encoded list_wire put_data
encode_list_lem [] b h = rw append-nil
encode_list_lem (tag ∷ tags) b h =
    rw (encode-wire tag [] h.0, encode_list_lem tags (b ++ wire tag) h.1) (rw append_assoc)

decode_tags_lem :
    (tags : List Tag) (fuel : ℕ)
    → length (list_wire tags) ≤ fuel
    → All IsValid tags
    → decode_tags fuel (list_wire tags) ≡ ok (tags, [])
unfolding decode_tags list_wire
decode_tags_lem [] zero enough h = refl
decode_tags_lem [] (suc fuel) enough h = refl
decode_tags_lem (tag ∷ tags) zero enough h = absurd (omega arith)
decode_tags_lem (tag ∷ tags) (suc fuel) enough h =
    rw
      (
        decode-wire tag (list_wire tags) h.0,
        decode_tags_lem tags fuel (omega (arith, length-append (wire tag) (list_wire tags))) h.1,
      )
      refl

-- A list of valid tags is encoded, and `decode` of its octets gives the list back, in order.
pub decode_list-encode_list :
    (tags : List Tag)
    → All IsValid tags
    → (b : Bytes) × (encode_list tags [] ≡ ok (tt, b)) × (decode_list b ≡ ok (tags, []))
unfolding decode_list
decode_list-encode_list tags h = (
  list_wire tags,
  encode_list_lem tags [] h,
  decode_tags_lem tags (length (list_wire tags)) (omega arith) h,
)

get_extended-Shortens : (lvt : ℕ) → Shortens 0 (get_extended lvt)
unfolding get_extended
get_extended-Shortens lvt =
    Shortens-if 0 (lvt == 254) _ _ get_short-Shortens
      (Shortens-if 0 (lvt == 255) _ _ get_long-Shortens (Shortens-pure lvt))

get_lvt-Shortens : (c : TagClass) (lvt : ℕ) → Shortens 0 (get_lvt c lvt)
unfolding get_lvt
get_lvt-Shortens c lvt =
    Shortens-if 0 (lvt == 5) _ _
      (Shortens-bind 0 0 (λ first. get_extended first >>= λ whole. pure (c, whole)) get
        get-Shortens_any
        λ first.
          Shortens-bind 0 0 (λ whole. pure (c, whole)) (get_extended first)
            (get_extended-Shortens first) λ whole. Shortens-pure {A = TagClass × ℕ} (c, whole))
      (Shortens-if 0 (lvt == 6) _ _ (Shortens-pure {A = TagClass × ℕ} (opening, 0)) (
        Shortens-if 0 (lvt == 7) _ _ (Shortens-pure {A = TagClass × ℕ} (closing, 0))
          (Shortens-pure {A = TagClass × ℕ} (c, lvt))))

get_tag_data-Shortens : (c : TagClass) (number lvt : ℕ) → Shortens 0 (get_tag_data c number lvt)
unfolding get_tag_data
get_tag_data-Shortens c number lvt =
    Shortens-if 0 (is_application c && number == boolean_number) _ _ (Shortens-pure {A = Bytes} [])
      (get_data-Shortens lvt)

get_number-Shortens : (number : ℕ) → Shortens 0 (get_number number)
unfolding get_number
get_number-Shortens number =
    Shortens-if 0 (number == 15) _ _ get-Shortens_any (Shortens-pure number)

decode_fields-Shortens : Shortens 1 decode_fields
unfolding decode_fields
decode_fields-Shortens = Shortens-bind 1 0 _ get get-Shortens λ octet.
    Shortens-bind 0 0 _ (get_number (octet / 16)) (get_number-Shortens (octet / 16)) λ number.
      Shortens-bind 0 0 _
        (get_lvt (if octet / 8 % 2 == 1 then context else application) (octet % 8))
        (get_lvt-Shortens _ (octet % 8))
        λ fields.
          Shortens-bind 0 0 _ (get_tag_data fields.0 number fields.1)
            (get_tag_data-Shortens fields.0 number fields.1)
            λ d. Shortens-pure {A = Tag} (record {
              tag_class = fields.0;
              tag_number = number;
              tag_lvt = fields.1;
              tag_data = d;
            })

-- A tag is read from an octet at least, or InvalidTag is raised.
abbrev Takes : ℕ → Result (Tag × Bytes) → Type 0
Takes n (ok (tag, rest)) = length rest + 1 ≤ n
Takes n (err e) = e ≡ invalid_tag

as_invalid_tag-Takes :
    (n : ℕ) (r : Result (Tag × Bytes)) → Leaves 1 n r → Takes n (as_invalid_tag r)
as_invalid_tag-Takes n (ok (tag, rest)) h = h
as_invalid_tag-Takes n (err e) h = rw h refl

decode-Takes : (b : Bytes) → Takes (length b) (decode b)
unfolding decode
decode-Takes b = as_invalid_tag-Takes (length b) (decode_fields b) (decode_fields-Shortens b)

abbrev pub ReadsToEnd : Result (List Tag × Bytes) → Type 0
ReadsToEnd (ok (tags, rest)) = rest ≡ []
ReadsToEnd (err e) = e ≡ invalid_tag

ReadsToEnd-cons :
    (tag : Tag) (r : Result (List Tag × Bytes))
    → ReadsToEnd r
    → ReadsToEnd (continue r λ tags. pure (tag ∷ tags))
ReadsToEnd-cons tag (ok (tags, rest)) h = h
ReadsToEnd-cons tag (err e) h = h

-- One round: what follows the tag that was read.
ReadsToEnd-round :
    (n fuel : ℕ) (r : Result (Tag × Bytes)) (next : Action (List Tag))
    → n ≤ suc fuel
    → Takes n r
    → ((b : Bytes) → length b ≤ fuel → ReadsToEnd (next b))
    → ReadsToEnd (continue r λ tag. next >>= λ tags. pure (tag ∷ tags))
ReadsToEnd-round n fuel (ok (tag, rest)) next enough h k =
    ReadsToEnd-cons tag (next rest) (k rest (omega arith))
ReadsToEnd-round n fuel (err e) next enough h k = h

decode_tags-ReadsToEnd : (fuel : ℕ) (b : Bytes) → length b ≤ fuel → ReadsToEnd (decode_tags fuel b)
unfolding decode_tags
decode_tags-ReadsToEnd zero [] h = refl
decode_tags-ReadsToEnd zero (a ∷ b) h = absurd (omega arith)
decode_tags-ReadsToEnd (suc fuel) [] h = refl
decode_tags-ReadsToEnd (suc fuel) (a ∷ b) h =
    ReadsToEnd-round (length (a ∷ b)) fuel (decode (a ∷ b)) (decode_tags fuel) h
      (decode-Takes (a ∷ b)) λ c. decode_tags-ReadsToEnd fuel c

-- `TagList.decode` ends on any octets: it reads tags to the end of the PDU, or raises InvalidTag.
pub decode_list-ReadsToEnd : (b : Bytes) → ReadsToEnd (decode_list b)
unfolding decode_list
decode_list-ReadsToEnd b = decode_tags-ReadsToEnd (length b) b (omega arith)
