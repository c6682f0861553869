-- ===== src/Primitive/TagList/Nested.antt =====
-- bacpypes3/primitivedata.py, TagList.pop_context, against the grammar of nested tags.
use bacpypes.Prelude.{
  ℕ, suc, ◌+◌, ◌-◌, ◌≡◌, refl, ◌∙◌, sym, ap, false, List, [], ◌∷◌, ◌++◌, append_assoc, length,
  length-append, take-append_exact, drop-append_exact, ◌==◌, arith,
}
use bacpypes.Pdu.{ok}
use bacpypes.Primitive.Tag.{TagClass, application, context, opening, closing, Tag}
use bacpypes.Primitive.TagList.{forward, cut_at, pop_class, pop_context}

abbrev IsPlain : TagClass → Type 0
IsPlain application = Unit
IsPlain context = Unit
IsPlain opening = ⊥
IsPlain closing = ⊥

-- A sequence of elements, each a plain tag or a sequence between an opening and a closing tag.
pub data Nested : List Tag → Type 0 where
  end : Nested []
  plain : (tag : Tag) (tags : List Tag) → IsPlain tag.tag_class → Nested tags → Nested (tag ∷ tags)
  group :
      (open_tag close_tag : Tag) (inner tags whole : List Tag)
      → open_tag.tag_class ≡ opening
      → close_tag.tag_class ≡ closing
      → Nested inner
      → Nested tags
      → whole ≡ inner ++ (close_tag ∷ tags)
      → Nested (open_tag ∷ whole)

step_plain :
    (c : TagClass) (tag : Tag) (tags : List Tag) (i lvl : ℕ)
    → tag.tag_class ≡ c
    → IsPlain c
    → forward i lvl (tag ∷ tags) ≡ forward (i + 1) lvl tags
unfolding forward
step_plain application tag tags i lvl e p = rw e refl
step_plain context tag tags i lvl e p = rw e refl
step_plain opening tag tags i lvl e p = absurd p
step_plain closing tag tags i lvl e p = absurd p

step_open :
    (tag : Tag) (tags : List Tag) (i lvl : ℕ)
    → tag.tag_class ≡ opening
    → forward i lvl (tag ∷ tags) ≡ forward (i + 1) (suc lvl) tags
unfolding forward
step_open tag tags i lvl e =
    rw e (ap (λ l. forward (i + 1) l tags) {x = lvl + 1} {y = suc lvl} (omega arith))

step_close :
    (tag : Tag) (tags : List Tag) (i lvl : ℕ)
    → tag.tag_class ≡ closing
    → forward i (suc (suc lvl)) (tag ∷ tags) ≡ forward (i + 1) (suc lvl) tags
unfolding forward
step_close tag tags i lvl e =
    let inside : suc (suc lvl) - 1 == 0 ≡ false = ground arith in
    rw (e, inside)
      (ap (λ l. forward (i + 1) l tags) {x = suc (suc lvl) - 1} {y = suc lvl} (omega arith))

step_last :
    (tag : Tag) (tags : List Tag) (i : ℕ)
    → tag.tag_class ≡ closing
    → forward i 1 (tag ∷ tags) ≡ (i, 0)
unfolding forward
step_last tag tags i e = rw e refl

-- The pass goes over a nested sequence at the level that it has.
forward_over :
    {tags : List Tag}
    → Nested tags
    → (i lvl : ℕ) (rest : List Tag)
    → forward i (suc lvl) (tags ++ rest) ≡ forward (i + length tags) (suc lvl) rest
forward_over end i lvl rest = ap (λ k. forward k (suc lvl) rest) {x = i} {y = i + 0} (omega arith)
forward_over (plain tag tags p n) i lvl rest =
    step_plain tag.tag_class tag (tags ++ rest) i (suc lvl) refl p
    ∙ forward_over n (i + 1) lvl rest
    ∙ ap (λ k. forward k (suc lvl) rest) {x = i + 1 + length tags} {y = i + suc (length tags)}
        (omega arith)
forward_over (group open_tag close_tag inner tags whole o c ni nt e) i lvl rest =
    step_open open_tag (whole ++ rest) i (suc lvl) o
    ∙ ap (λ w. forward (i + 1) (suc (suc lvl)) w)
        (ap (λ w. w ++ rest) e ∙ append_assoc inner (close_tag ∷ tags) rest)
    ∙ forward_over ni (i + 1) (suc lvl) (close_tag ∷ (tags ++ rest))
    ∙ step_close close_tag (tags ++ rest) (i + 1 + length inner) lvl c
    ∙ forward_over nt (i + 1 + length inner + 1) lvl rest
    ∙ ap (λ k. forward k (suc lvl) rest) {y = i + suc (length whole)}
        (let n = length-append inner (close_tag ∷ tags) in let m = ap length e in omega arith)

pop_open :
    (tag : Tag) (tags : List Tag)
    → tag.tag_class ≡ opening
    → pop_context (tag ∷ tags) ≡ cut_at (tag ∷ tags) (forward 0 0 (tag ∷ tags))
unfolding pop_context pop_class
pop_open tag tags o = ap (λ c. pop_class c tag tags) o

cut_exact :
    (n : ℕ) (front rest : List Tag)
    → n + 1 ≡ length front
    → cut_at (front ++ rest) (n, 0) ≡ ok (front, rest)
cut_exact n front rest e = rw (e, take-append_exact front rest, drop-append_exact front rest) refl

-- A group of nested tags in front of any others is popped as it stands, and the others are left.
pub pop_context_group :
    (open_tag close_tag : Tag) (inner rest : List Tag)
    → open_tag.tag_class ≡ opening
    → close_tag.tag_class ≡ closing
    → Nested inner
    → pop_context (open_tag ∷ (inner ++ (close_tag ∷ rest)))
      ≡ ok (open_tag ∷ (inner ++ (close_tag ∷ [])), rest)
pop_context_group open_tag close_tag inner rest o c n =
    let tags : List Tag = inner ++ (close_tag ∷ rest) in
    let found : forward 0 0 (open_tag ∷ tags) ≡ (1 + length inner, 0) =
      step_open open_tag tags 0 0 o
      ∙ forward_over n 1 0 (close_tag ∷ rest)
      ∙ step_last close_tag rest (1 + length inner) c in
    let regroup : (inner ++ (close_tag ∷ [])) ++ rest ≡ tags =
      append_assoc inner (close_tag ∷ []) rest in
    let size = length-append inner (close_tag ∷ []) in
    pop_open open_tag tags o
    ∙ ap (cut_at (open_tag ∷ tags)) found
    ∙ ap (λ l. cut_at (open_tag ∷ l) (1 + length inner, 0)) (sym regroup)
    ∙ cut_exact (1 + length inner) (open_tag ∷ (inner ++ (close_tag ∷ []))) rest (omega arith)
