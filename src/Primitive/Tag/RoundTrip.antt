-- ===== src/Primitive/Tag/RoundTrip.antt =====
-- bacpypes3/primitivedata.py: `Tag.decode` on what `Tag.encode` writes.
use bacpypes.Prelude.{
  ℕ, ◌/◌, ◌%◌, ◌^◌, ◌<◌, ◌≡◌, refl, true, false, [], ◌++◌, append_assoc, length, ltb, leb, ◌==◌,
  if◌then◌else◌, Bool-cases, inl, inr, arith,
}
use bacpypes.Pdu.{Bytes, IsByte, ok, get, get_data-append, get_short_masked, get_long_lem}
use bacpypes.Primitive.Tag.{
  TagClass, application, context, opening, closing, Tag, boolean_number, initial_octet, encode,
  get_number, get_extended, get_lvt, get_tag_data, decode_fields, decode,
}
use bacpypes.Primitive.Tag.Wire.{LvtFits, IsValid, number_wire, lvt_wire, wire, encode-wire}

-- What the first octet has of a number and of a length.
abbrev short_number : ℕ → ℕ
short_number number = if ltb number 15 then number else 15

abbrev short_lvt : ℕ → ℕ
short_lvt lvt = if ltb lvt 5 then lvt else 5

abbrev low_bits : TagClass → ℕ → ℕ
low_bits application lvt = short_lvt lvt
low_bits context lvt = short_lvt lvt
low_bits opening lvt = 6
low_bits closing lvt = 7

abbrev class_bit : TagClass → ℕ
class_bit application = 0
class_bit context = 1
class_bit opening = 1
class_bit closing = 1

abbrev Parts : TagClass → ℕ → ℕ → Type 0
Parts c number lvt =
    (initial_octet c number lvt / 16 ≡ short_number number)
    × (initial_octet c number lvt / 8 % 2 ≡ class_bit c)
    × (initial_octet c number lvt % 8 ≡ low_bits c lvt)

initial_octet-Parts :
    (c : TagClass) (number lvt : ℕ) (d : Bytes) → LvtFits c number lvt d → Parts c number lvt
unfolding initial_octet
initial_octet-Parts application number lvt d h = ground arith
initial_octet-Parts context number lvt d h = ground arith
initial_octet-Parts opening number lvt d h = ground arith
initial_octet-Parts closing number lvt d h = ground arith

get_number_lem :
    (number : ℕ) (rest : Bytes)
    → IsByte number
    → get_number (short_number number) (number_wire number ++ rest) ≡ ok (number, rest)
unfolding get_number get
get_number_lem number rest h = elim (Bool-cases (ltb number 15)) [
  | inl e ↦
      let short : leb 15 number ≡ false = ground arith in
      let plain : number == 15 ≡ false = ground arith in rw (e, short, plain) refl
  | inr e ↦ let long : leb 15 number ≡ true = ground arith in rw (e, long) refl
]

-- A length on its own, for the two classes that have one.
get_lvt_lem :
    (c : TagClass) (lvt : ℕ) (rest : Bytes)
    → lvt < 2 ^ 32
    → get_lvt c (short_lvt lvt) (lvt_wire lvt ++ rest) ≡ ok ((c, lvt), rest)
unfolding get_lvt get_extended get
get_lvt_lem c lvt rest h = elim (Bool-cases (ltb lvt 5)) [
  | inl e ↦
      let a : lvt == 5 ≡ false = ground arith in
      let b : lvt == 6 ≡ false = ground arith in
      let d : lvt == 7 ≡ false = ground arith in rw (e, a, b, d) refl
  | inr e ↦ rw e (elim (Bool-cases (leb lvt 253)) [
    | inl f ↦
        let a : lvt == 254 ≡ false = ground arith in
        let b : lvt == 255 ≡ false = ground arith in rw (f, a, b) refl
    | inr f ↦ rw f (elim (Bool-cases (leb lvt 65535)) [
      | inl g ↦ rw (g, get_short_masked lvt rest (ground arith)) refl
      | inr g ↦
          let whole : lvt % 2 ^ 32 ≡ lvt = omega arith in
          rw (g, whole, get_long_lem lvt rest h) refl
    ])
  ])
]

-- What `get_lvt` makes of the low bits and the class bit of the first octet.
get_class_lem :
    (c : TagClass) (number lvt : ℕ) (d rest : Bytes)
    → lvt < 2 ^ 32
    → LvtFits c number lvt d
    → get_lvt
        (if class_bit c == 1 then context else application)
        (low_bits c lvt)
        (lvt_wire lvt ++ rest)
      ≡ ok ((c, lvt), rest)
get_class_lem application number lvt d rest h f = get_lvt_lem application lvt rest h
get_class_lem context number lvt d rest h f = get_lvt_lem context lvt rest h
get_class_lem opening number lvt d rest h f = rw (f.0) (unfold get_lvt in refl)
get_class_lem closing number lvt d rest h f = rw (f.0) (unfold get_lvt in refl)

get_tag_data_lem :
    (c : TagClass) (number lvt : ℕ) (d rest : Bytes)
    → LvtFits c number lvt d
    → get_tag_data c number lvt (d ++ rest) ≡ ok (d, rest)
unfolding get_tag_data
get_tag_data_lem application number lvt d rest f = elim (Bool-cases (number == boolean_number)) [
  | inl e ↦ let none : d ≡ [] = (rw e at f) in rw (e, none) refl
  | inr e ↦ let whole : lvt ≡ length d = (rw e at f) in rw (e, whole) (get_data-append d rest)
]
get_tag_data_lem context number lvt d rest f = rw f (get_data-append d rest)
get_tag_data_lem opening number lvt d rest f = rw (f.0, f.1) (get_data-append [] rest)
get_tag_data_lem closing number lvt d rest f = rw (f.0, f.1) (get_data-append [] rest)

decode_fields-wire :
    (c : TagClass) (number lvt : ℕ) (d rest : Bytes)
    → IsValid (record { tag_class = c; tag_number = number; tag_lvt = lvt; tag_data = d })
    → decode_fields
        (wire (record { tag_class = c; tag_number = number; tag_lvt = lvt; tag_data = d }) ++ rest)
      ≡ ok (record { tag_class = c; tag_number = number; tag_lvt = lvt; tag_data = d }, rest)
unfolding decode_fields get
decode_fields-wire c number lvt d rest v =
    let (high, bit, low) = initial_octet-Parts c number lvt d v.lvt_is_length in
    rw
      (
        append_assoc (number_wire number) (lvt_wire lvt ++ d) rest,
        append_assoc (lvt_wire lvt) d rest,
        high,
        get_number_lem number (lvt_wire lvt ++ (d ++ rest)) v.number_fits,
        bit,
        low,
        get_class_lem c number lvt d (d ++ rest) v.lvt_fits v.lvt_is_length,
        get_tag_data_lem c number lvt d rest v.lvt_is_length,
      )
      refl

pub decode-wire :
    (tag : Tag) (rest : Bytes) → IsValid tag → decode (wire tag ++ rest) ≡ ok (tag, rest)
unfolding decode
decode-wire tag rest v =
    rw (decode_fields-wire tag.tag_class tag.tag_number tag.tag_lvt tag.tag_data rest v) refl

-- A valid tag is encoded, and `decode` of its octets, whatever follows them, gives it back and
-- leaves what follows.
pub decode-encode_tag :
    (tag : Tag) (rest : Bytes)
    → IsValid tag
    → (b : Bytes) × (encode tag [] ≡ ok (tt, b)) × (decode (b ++ rest) ≡ ok (tag, rest))
decode-encode_tag tag rest v = (wire tag, encode-wire tag [] v, decode-wire tag rest v)
