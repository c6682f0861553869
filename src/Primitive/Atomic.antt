-- ===== src/Primitive/Atomic.antt =====
-- bacpypes3/primitivedata.py, what the `encode` and `decode` of the atomic classes share: the tag
-- that is made for a value, and the checks on the tag that is popped. A class has its tag number and
-- `cls._context`.
use bacpypes.Prelude.{
  ℕ, ◌≡◌, refl, ◌==◌, true, Option, none, some, List, [], ◌∷◌, if◌then◌else◌, arith,
}
use bacpypes.Pdu.{Result, ok, err, Bytes, invalid_tag}
use bacpypes.Primitive.Tag.{
  TagClass, application, context, opening, closing, Tag, new_application_tag, new_context_tag,
}

-- `if self._context is None: ApplicationTag(number, data) else: ContextTag(self._context, data)`
abbrev pub make_tag : ℕ → Option ℕ → Bytes → Tag
make_tag number none d = new_application_tag number d
make_tag number (some c) d = new_context_tag c d

-- The checks on class and number.
unfoldable pub check_tag : ℕ → Option ℕ → TagClass → ℕ → Result (Unit {0})
check_tag number none application n = if n == number then ok tt else err invalid_tag
check_tag number (some c) application n = err invalid_tag
check_tag number none context n = err invalid_tag
check_tag number (some c) context n = if n == c then ok tt else err invalid_tag
check_tag number expected opening n = err invalid_tag
check_tag number expected closing n = err invalid_tag

-- A value read from the data of a tag, beside the tags that are left.
abbrev pub beside : {A : Type 0} → Result A → List Tag → Result (A × List Tag)
beside (ok a) tags = ok (a, tags)
beside (err e) tags = err e

abbrev pub after_check : {A : Type 0} → Result (Unit {0}) → Result A → Result A
after_check (ok u) r = r
after_check (err e) r = err e

-- A `decode`: pop a tag, check it, and read its data.
unfoldable pub decode_atomic :
    {A : Type 0} → ℕ → Option ℕ → (Bytes → Result A) → List Tag → Result (A × List Tag)
unfolding check_tag
decode_atomic number expected read [] = err invalid_tag
decode_atomic number expected read (tag ∷ tags) =
    beside
      (after_check (check_tag number expected tag.tag_class tag.tag_number) (read tag.tag_data))
      tags

-- What is decoded of a tag that was encoded, in front of other tags.
abbrev pub decoded : {B : Type 0} → (List Tag → Result B) → List Tag → Result Tag → Result B
decoded d tags (ok tag) = d (tag ∷ tags)
decoded d tags (err e) = err e

-- The tag that is made for some data passes the checks of its class.
pub decode_atomic-make_tag :
    {A : Type 0} (number : ℕ) (expected : Option ℕ) (read : Bytes → Result A) (d : Bytes)
    (tags : List Tag)
    → decode_atomic number expected read (make_tag number expected d ∷ tags) ≡ beside (read d) tags
unfolding decode_atomic check_tag
decode_atomic-make_tag number none read d tags =
    let same_number : number == number ≡ true = ground arith in rw same_number refl
decode_atomic-make_tag number (some c) read d tags =
    let same_number : c == c ≡ true = ground arith in rw same_number refl
