-- ===== src/Documents/Frontmatter.antt =====
-- The two parts of a skill's file (apps/web/src/routes/skills_.$id.tsx).
use lgtm.Prelude.{
  ◌-◌, ◌≡◌, refl, sym, ap, ◌∙◌, some, List, [], ◌∷◌, ◌++◌, append_assoc, append-nil, Text, text,
  text_eq, trim_end, split, join, join-split, split-cons, length, length-append, take, drop,
  Bool-cases, Option-cases, inl, inr, arith,
}
use lgtm.Documents.Skills.{find_body, skill_body, frontmatter}

-- a text ends in another
abbrev EndsIn : Text → Text → Type 0
EndsIn s body = (front : Text) × (s ≡ front ++ body)

join-rest : (l : Text) (ls : List Text) → EndsIn (join (b'\n' ∷ []) (l ∷ ls)) (join (b'\n' ∷ []) ls)
unfolding join
join-rest l [] = (l, sym (append-nil l))
join-rest l (m ∷ ls) = (l ++ b'\n' ∷ [], rw append_assoc refl)

EndsIn-trans : {s t u : Text} → EndsIn s t → EndsIn t u → EndsIn s u
EndsIn-trans {u = u} (f, e) (g, e') = (f ++ g, e ∙ ap (λ x. f ++ x) e' ∙ sym (append_assoc f g u))

find_body-EndsIn :
    (lines : List Text) (body : Text)
    → find_body lines ≡ some body
    → EndsIn (join (b'\n' ∷ []) lines) body
unfolding find_body
find_body-EndsIn [] body e = cc
find_body-EndsIn (l ∷ ls) body e = elim (Bool-cases (text_eq (trim_end l) (text "---"))) [
  | inl closes ↦
      let same : join (b'\n' ∷ []) ls ≡ body = ground (arith, closes, e) in
      let (front, ends) = join-rest l ls in (front, ends ∙ ap (λ s. front ++ s) same)
  | inr other ↦ EndsIn-trans (join-rest l ls) (find_body-EndsIn ls body (ground (arith, other, e)))
]

take-front : (front body : Text) → take (length front) (front ++ body) ≡ front
take-front [] body = refl
take-front (c ∷ front) body = ap (λ s. c ∷ s) (take-front front body)

take-EndsIn : (s body : Text) → EndsIn s body → take (length s - length body) s ++ body ≡ s
take-EndsIn s body (front, e) =
    let size : length (front ++ body) - length body ≡ length front =
      omega (arith, length-append front body) in
    rw (e, size, take-front front body) refl

content-EndsIn :
    (content body : Text)
    → find_body (drop 1 (split b'\n' content)) ≡ some body
    → EndsIn content body
content-EndsIn content body found =
    let (l, ls, e) = split-cons b'\n' content in
    let found' : find_body ls ≡ some body =
      ap (λ lines. find_body (drop 1 lines)) (sym e) ∙ found in
    let (front, ends) = EndsIn-trans (join-rest l ls) (find_body-EndsIn ls body found') in
    (front, sym (join-split b'\n' content) ∙ ap (join (b'\n' ∷ [])) e ∙ ends)

skill_body-EndsIn : (content : Text) → EndsIn content (skill_body content)
unfolding skill_body
skill_body-EndsIn content = elim (Option-cases (find_body (drop 1 (split b'\n' content)))) [
  | inl open_ ↦ ([], rw open_ refl)
  | inr (body, found) ↦
      let (front, ends) = content-EndsIn content body found in (front, rw found ends)
]

-- The frontmatter and the body of a skill, one behind the other, are the skill's whole file.
pub frontmatter-skill_body : (content : Text) → frontmatter content ++ skill_body content ≡ content
unfolding frontmatter
frontmatter-skill_body content =
    take-EndsIn content (skill_body content) (skill_body-EndsIn content)
