-- ===== src/Primitive/Tag.antt =====
-- bacpypes3/primitivedata.py, class Tag: `encode`, `decode`, and the change between application and
-- context tags.
pub mod Wire
pub mod RoundTrip
pub mod Convert
use bacpypes.Prelude.{
  ℕ, ◌+◌, ◌*◌, ◌/◌, ◌%◌, Bool, true, false, ◌&&◌, Option, List, [], ◌∷◌, length, ltb, leb, ◌==◌,
  if◌then◌else◌,
}
use bacpypes.Pdu.{
  Error, Result, ok, err, Bytes, Action, pure, ◌>>=◌, ◌>>◌, continue, when, get, get_data,
  get_short, get_long, put, put_data, put_short, put_long, decoding_error, invalid_tag, value_error,
  struct_error,
}

pub data TagClass : Type 0 where
  application context opening closing : TagClass

pub record Tag : Type 0 where
  pub tag_class : TagClass
  pub tag_number : ℕ
  pub tag_lvt : ℕ
  pub tag_data : Bytes

-- `TagNumber.boolean`
abbrev pub boolean_number : ℕ
boolean_number = 1

-- `ApplicationTag(tnum, tdata)`, `ContextTag(context, data)`, `OpeningTag(context)` and
-- `ClosingTag(context)`
abbrev pub new_application_tag : ℕ → Bytes → Tag
new_application_tag tnum tdata = record {
  tag_class = application;
  tag_number = tnum;
  tag_lvt = length tdata;
  tag_data = tdata;
}

abbrev pub new_context_tag : ℕ → Bytes → Tag
new_context_tag number tdata = record {
  tag_class = context;
  tag_number = number;
  tag_lvt = length tdata;
  tag_data = tdata;
}

abbrev pub new_opening_tag : ℕ → Tag
new_opening_tag number = record {
  tag_class = opening;
  tag_number = number;
  tag_lvt = 0;
  tag_data = [];
}

abbrev pub new_closing_tag : ℕ → Tag
new_closing_tag number = record {
  tag_class = closing;
  tag_number = number;
  tag_lvt = 0;
  tag_data = [];
}

abbrev pub class_bits : TagClass → ℕ
class_bits application = 0x00
class_bits context = 0x08
class_bits opening = 0x0e
class_bits closing = 0x0f

-- The first octet: class, number and length, the last two as far as they fit.
unfoldable pub initial_octet : TagClass → ℕ → ℕ → ℕ
initial_octet c number lvt =
    class_bits c + (if ltb number 15 then number * 16 else 0xf0) + (if ltb lvt 5 then lvt else 5)

-- The length behind the first octet, for one of 5 and more.
unfoldable pub put_lvt : ℕ → Action (Unit {0})
put_lvt lvt =
    if ltb lvt 5
    then pure tt
    else if leb lvt 253
    then put lvt
    else if leb lvt 65535
    then put 254 >> put_short lvt
    else put 255 >> put_long lvt

-- `Tag.encode`
unfoldable pub encode : Tag → Action (Unit {0})
unfolding put_lvt initial_octet
encode tag = do
  put (initial_octet tag.tag_class tag.tag_number tag.tag_lvt)
  when (leb 15 tag.tag_number) (put tag.tag_number)
  put_lvt tag.tag_lvt
  put_data tag.tag_data

-- The number in the first octet, or where that is 15 in the next.
unfoldable pub get_number : ℕ → Action ℕ
get_number number = if number == 15 then get else pure number

unfoldable pub get_extended : ℕ → Action ℕ
get_extended lvt = if lvt == 254 then get_short else if lvt == 255 then get_long else pure lvt

-- Class and length, from the class bit and the low bits of the first octet.
unfoldable pub get_lvt : TagClass → ℕ → Action (TagClass × ℕ)
unfolding get_extended
get_lvt c lvt =
    if lvt == 5
    then (do first ← get; whole ← get_extended first; pure (c, whole))
    else if lvt == 6
    then pure (opening, 0)
    else if lvt == 7
    then pure (closing, 0)
    else pure (c, lvt)

abbrev pub is_application : TagClass → Bool
is_application application = true
is_application context = false
is_application opening = false
is_application closing = false

-- An application-tagged Boolean has its value in place of a length, and no data.
unfoldable pub get_tag_data : TagClass → ℕ → ℕ → Action Bytes
get_tag_data c number lvt =
    if is_application c && number == boolean_number then pure [] else get_data lvt

unfoldable pub decode_fields : Action Tag
unfolding get_number get_lvt get_tag_data
decode_fields = do
  octet ← get
  number ← get_number (octet / 16)
  fields ← get_lvt (if octet / 8 % 2 == 1 then context else application) (octet % 8)
  tag_data ← get_tag_data fields.0 number fields.1
  pure (record {
    tag_class = fields.0;
    tag_number = number;
    tag_lvt = fields.1;
    tag_data = tag_data;
  })

-- `except DecodingError as err: raise InvalidTag`
abbrev pub as_invalid_tag : {A : Type 0} → Result A → Result A
as_invalid_tag (ok a) = ok a
as_invalid_tag (err decoding_error) = err invalid_tag
as_invalid_tag (err e) = err e

-- `Tag.decode`
unfoldable pub decode : Action Tag
unfolding decode_fields
decode b = as_invalid_tag (decode_fields b)

-- `Tag.app_to_context`, by class and number. `bytearray([v])` is a ValueError for a value that is no
-- octet.
unfoldable pub to_context : TagClass → ℕ → Tag → Result Tag
to_context application number tag =
    if tag.tag_number == boolean_number
    then if ltb tag.tag_lvt 256
      then ok (new_context_tag number (tag.tag_lvt ∷ []))
      else err value_error
    else ok (new_context_tag number tag.tag_data)
to_context context number tag = err value_error
to_context opening number tag = err value_error
to_context closing number tag = err value_error

unfoldable pub app_to_context : ℕ → Tag → Result Tag
unfolding to_context
app_to_context number tag = to_context tag.tag_class number tag

-- `struct.unpack("B", tag_data)`, of one octet.
abbrev pub single : Bytes → Result ℕ
single [] = err struct_error
single (a ∷ []) = ok a
single (a ∷ c ∷ r) = err struct_error

abbrev pub boolean_tag : Result ℕ → Result Tag
boolean_tag (ok v) =
    ok (record { tag_class = application; tag_number = boolean_number; tag_lvt = v; tag_data = [] })
boolean_tag (err e) = err e

unfoldable pub to_application_tag : TagClass → ℕ → Tag → Result Tag
to_application_tag context number tag =
    if number == boolean_number
    then boolean_tag (single tag.tag_data)
    else ok (new_application_tag number tag.tag_data)
to_application_tag application number tag = err value_error
to_application_tag opening number tag = err value_error
to_application_tag closing number tag = err value_error

-- `Tag.context_to_app`
unfoldable pub context_to_app : ℕ → Tag → Result Tag
unfolding to_application_tag
context_to_app number tag = to_application_tag tag.tag_class number tag
