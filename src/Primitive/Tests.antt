-- ===== src/Primitive/Tests.antt =====
-- Runs of the codecs of the primitive data on concrete tags, and their theorems at concrete inputs.
use bacpypes.Prelude.{
  Bool, ◌++◌, ◌-◌, length, All, ◌≡◌, refl, true, false, none, some, List, [], ◌∷◌, ◌++◌, arith,
}
use bacpypes.Pdu.{Bytes, ok}
use bacpypes.Primitive.Tag.{
  Tag, new_application_tag, new_context_tag, new_opening_tag, new_closing_tag, encode, decode,
}
use bacpypes.Primitive.Tag.Wire.{IsValid}
use bacpypes.Primitive.Tag.RoundTrip.{decode-encode_tag}
use bacpypes.Primitive.TagList.{encode_list, decode_list, pop_context}
use bacpypes.Primitive.TagList.Codec.{decode_list-encode_list, ReadsToEnd, decode_list-ReadsToEnd}
use bacpypes.Primitive.TagList.Nested.{Nested, pop_context_group}
use bacpypes.Primitive.Atomic.{decoded, beside}
use bacpypes.Primitive.Unsigned.{Limits, decode_unsigned, encode_unsigned}
use bacpypes.Primitive.Unsigned.Codec.{
  decode_unsigned-encode_unsigned, AtMost, encode_unsigned_shortest,
}
use bacpypes.Primitive.Integer.{
  ℤ, pos, negsuc, IntegerLimits, decode_integer, encode_integer, cast_integer,
}
use bacpypes.Primitive.Integer.Codec.{IsResidue, wrap, decode_integer-encode_integer}
use bacpypes.Primitive.Simple.{decode_identifier, encode_identifier}
use bacpypes.Primitive.Simple.Codec.{decode_identifier-encode_identifier}
use bacpypes.Primitive.BitString.{decode_bit_string, encode_bit_string}
use bacpypes.Primitive.BitString.Codec.{decode_bit_string-encode_bit_string}

-- An unsigned application tag, and a context tag with a number in an octet of its own.
abbrev two_octets : Tag
two_octets = new_application_tag 2 (1 ∷ 44 ∷ [])

abbrev far_context : Tag
far_context = new_context_tag 20 (9 ∷ [])

two_octets-IsValid : IsValid two_octets
two_octets-IsValid = record {
  number_fits = omega arith;
  lvt_fits = omega arith;
  lvt_is_length = refl;
}

far_context-IsValid : IsValid far_context
far_context-IsValid = record {
  number_fits = omega arith;
  lvt_fits = omega arith;
  lvt_is_length = refl;
}

decode-encode_tag_example :
    (b : Bytes) × (encode far_context [] ≡ ok (tt, b))
    × (decode (b ++ (7 ∷ [])) ≡ ok (far_context, 7 ∷ []))
decode-encode_tag_example = decode-encode_tag far_context (7 ∷ []) far_context-IsValid

decode_list-encode_list_example :
    (b : Bytes) × (encode_list (two_octets ∷ far_context ∷ []) [] ≡ ok (tt, b))
    × (decode_list b ≡ ok (two_octets ∷ far_context ∷ [], []))
decode_list-encode_list_example =
    decode_list-encode_list (two_octets ∷ far_context ∷ [])
      (two_octets-IsValid, (far_context-IsValid, tt))

decode_list-ReadsToEnd_example : ReadsToEnd (decode_list (0x22 ∷ 1 ∷ 44 ∷ 0x25 ∷ 9 ∷ []))
decode_list-ReadsToEnd_example = decode_list-ReadsToEnd (0x22 ∷ 1 ∷ 44 ∷ 0x25 ∷ 9 ∷ [])

-- A group with a group in it.
abbrev inner_tags : List Tag
inner_tags = two_octets ∷ new_opening_tag 3 ∷ far_context ∷ new_closing_tag 3 ∷ []

inner_tags-Nested : Nested inner_tags
inner_tags-Nested = Nested.plain two_octets _ tt (
    Nested.group (new_opening_tag 3) (new_closing_tag 3) (far_context ∷ []) [] _ refl refl
      (Nested.plain far_context [] tt Nested.end) Nested.end refl)

pop_context_group_example :
    pop_context (new_opening_tag 0 ∷ (inner_tags ++ (new_closing_tag 0 ∷ (two_octets ∷ []))))
    ≡ ok (new_opening_tag 0 ∷ (inner_tags ++ (new_closing_tag 0 ∷ [])), two_octets ∷ [])
pop_context_group_example =
    pop_context_group (new_opening_tag 0) (new_closing_tag 0) inner_tags (two_octets ∷ []) refl refl
      inner_tags-Nested

abbrev any_number : Limits
any_number = record { low_limit = none; high_limit = none }

decode_unsigned-encode_unsigned_example :
    decoded (decode_unsigned any_number (some 3)) [] (encode_unsigned (some 3) 70000)
    ≡ ok (70000, [])
decode_unsigned-encode_unsigned_example =
    decode_unsigned-encode_unsigned any_number (some 3) 70000 [] (omega arith) (refl, refl)

encode_unsigned_shortest_example : AtMost 2 (encode_unsigned none 300)
encode_unsigned_shortest_example =
    encode_unsigned_shortest none 300 (1 ∷ 44 ∷ []) (omega arith) (omega arith, (omega arith, tt))
      (omega arith) refl

abbrev any_integer : IntegerLimits
any_integer = record { low_limit = none; high_limit = none }

decode_integer-encode_integer_example :
    (v : ℤ) × (IsResidue (negsuc 199) v)
    × (decode_integer any_integer none (encode_integer none (negsuc 199) ∷ [])
        ≡ beside (cast_integer any_integer v) [])
decode_integer-encode_integer_example =
    decode_integer-encode_integer any_integer none (negsuc 199) []

-- 2147483648 is read back as -2147483648.
wraps : wrap (pos 2147483648) ≡ negsuc 2147483647
unfolding wrap
wraps = refl

decode_identifier-encode_identifier_example :
    decoded (decode_identifier any_number none) [] (encode_identifier none (8, 4711))
    ≡ ok ((8, 4711), [])
decode_identifier-encode_identifier_example =
    decode_identifier-encode_identifier any_number none 8 4711 [] (omega arith) (omega arith)
      (refl, refl)

decode_bit_string-encode_bit_string_example :
    (missing : List Bool) × (All (λ b. b ≡ false) missing)
    × (length missing ≡ 3 - 2)
    × (decode_bit_string 3 none (encode_bit_string none (true ∷ false ∷ []) ∷ [])
        ≡ ok ((true ∷ false ∷ []) ++ missing, []))
decode_bit_string-encode_bit_string_example =
    decode_bit_string-encode_bit_string 3 none (true ∷ false ∷ []) []
