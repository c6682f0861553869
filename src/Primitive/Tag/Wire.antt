-- ===== src/Primitive/Tag/Wire.antt =====
-- bacpypes3/primitivedata.py: the octets of a tag that can be encoded.
use bacpypes.Prelude.{
  ℕ, ◌%◌, ◌^◌, ◌<◌, ◌≡◌, [], ◌∷◌, ◌++◌, append-nil, append_assoc, length, ltb, leb, ◌==◌,
  if◌then◌else◌, Bool-cases, inl, inr, arith,
}
use bacpypes.Pdu.{Bytes, IsByte, ok, put, put_lem, put_data, put_short, put_long, pack_be, when}
use bacpypes.Primitive.Tag.{
  TagClass, application, context, opening, closing, Tag, boolean_number, initial_octet, put_lvt,
  encode,
}

-- The length that goes with the data, by the class of the tag.
abbrev pub LvtFits : TagClass → ℕ → ℕ → Bytes → Type 0
LvtFits application number lvt d = if number == boolean_number then (d ≡ []) else (lvt ≡ length d)
LvtFits context number lvt d = lvt ≡ length d
LvtFits opening number lvt d = (lvt ≡ 0) × (d ≡ [])
LvtFits closing number lvt d = (lvt ≡ 0) × (d ≡ [])

-- A tag that its octets can tell: number and length fit theirs, and the length is that of the data,
-- which only an application-tagged Boolean has not.
pub record IsValid (tag : Tag) : Type 0 where
  pub number_fits : IsByte tag.tag_number
  pub lvt_fits : tag.tag_lvt < 2 ^ 32
  pub lvt_is_length : LvtFits tag.tag_class tag.tag_number tag.tag_lvt tag.tag_data

abbrev pub number_wire : ℕ → Bytes
number_wire number = if leb 15 number then number ∷ [] else []

abbrev pub lvt_wire : ℕ → Bytes
lvt_wire lvt =
    if ltb lvt 5
    then []
    else if leb lvt 253
    then lvt ∷ []
    else if leb lvt 65535
    then 254 ∷ pack_be 2 (lvt % 2 ^ 16)
    else 255 ∷ pack_be 4 (lvt % 2 ^ 32)

abbrev pub wire : Tag → Bytes
wire tag =
    initial_octet tag.tag_class tag.tag_number tag.tag_lvt
    ∷ (number_wire tag.tag_number ++ (lvt_wire tag.tag_lvt ++ tag.tag_data))

initial_octet-IsByte :
    (c : TagClass) (number lvt : ℕ) (d : Bytes)
    → LvtFits c number lvt d
    → IsByte (initial_octet c number lvt)
unfolding initial_octet
initial_octet-IsByte application number lvt d h = ground arith
initial_octet-IsByte context number lvt d h = ground arith
initial_octet-IsByte opening number lvt d h = ground arith
initial_octet-IsByte closing number lvt d h = ground arith

put_number_lem :
    (number : ℕ) (b : Bytes)
    → IsByte number
    → when (leb 15 number) (put number) b ≡ ok (tt, b ++ number_wire number)
put_number_lem number b h = elim (Bool-cases (leb 15 number)) [
  | inl e ↦ rw e (put_lem number b h)
  | inr e ↦ rw e (rw append-nil)
]

put_lvt_lem : (lvt : ℕ) (b : Bytes) → put_lvt lvt b ≡ ok (tt, b ++ lvt_wire lvt)
unfolding put_lvt put_short put_long
put_lvt_lem lvt b = elim (Bool-cases (ltb lvt 5)) [
  | inl e ↦ rw e (rw append-nil)
  | inr e ↦ rw e (elim (Bool-cases (leb lvt 253)) [
    | inl f ↦ rw f (put_lem lvt b (ground arith))
    | inr f ↦ rw f (elim (Bool-cases (leb lvt 65535)) [
      | inl g ↦ rw g (rw (put_lem 254 b (omega arith)) (rw append_assoc))
      | inr g ↦ rw g (rw (put_lem 255 b (omega arith)) (rw append_assoc))
    ])
  ])
]

-- `encode` puts the octets of a valid tag at the end of the PDU.
pub encode-wire : (tag : Tag) (b : Bytes) → IsValid tag → encode tag b ≡ ok (tt, b ++ wire tag)
unfolding encode put_data
encode-wire tag b v =
    let first =
      initial_octet-IsByte tag.tag_class tag.tag_number tag.tag_lvt tag.tag_data v.lvt_is_length in
    rw
      (
        put_lem (initial_octet tag.tag_class tag.tag_number tag.tag_lvt) b first,
        put_number_lem tag.tag_number
            (b ++ (initial_octet tag.tag_class tag.tag_number tag.tag_lvt ∷ [])) v.number_fits,
        put_lvt_lem tag.tag_lvt (
            (b ++ (initial_octet tag.tag_class tag.tag_number tag.tag_lvt ∷ []))
            ++ number_wire tag.tag_number),
      )
      (simp append_assoc)
