-- ===== src/Documents/Neat.antt =====
-- The form in which the fields of the document pages save a text
-- (apps/web/src/routes/scratchpads_.$id.tsx, apps/web/src/routes/skills_.$id.tsx).
use lgtm.Prelude.{
  ◌≡◌, refl, sym, ap, ◌∙◌, Bool, true, false, not, ◌&&◌, ◌||◌, none, some, [], ◌∷◌, Text,
  text_eq_iff, is_empty, is_space, trim, trim_start, trim_end, ◌==◌, arith, if◌then◌else◌,
}
use lgtm.Prelude.Trim.{trim_end-cons}
use lgtm.Documents.{collapse, normalize, edited, escape, commit_or_restore}
use lgtm.Documents.Edits.{normalize-eq, normalize-normalize, space-is_space}

-- no white space but single blanks between other characters; the flag says that white space, or
-- nothing, stands in front
abbrev pub spaced : Bool → Text → Bool
spaced inside [] = not inside
spaced inside (c ∷ s) =
    if is_space c then not inside && c == 32 && spaced true s else spaced false s

abbrev pub is_neat : Text → Bool
is_neat s = is_empty s || spaced true s

abbrev pub blank : Text → Bool
blank [] = true
blank (c ∷ s) = is_space c && blank s

-- a neat text is left as it is
spaced-collapse : (b : Bool) (s : Text) → spaced b s ≡ true → collapse b s ≡ s
unfolding collapse
spaced-collapse b [] h = refl
spaced-collapse b (c ∷ s) h = ground (arith, h, spaced-collapse true s, spaced-collapse false s)

spaced-full : (s : Text) → spaced true s ≡ true → is_empty s ≡ false
spaced-full [] h = cc
spaced-full (c ∷ s) h = refl

spaced-trim_end : (b : Bool) (s : Text) → spaced b s ≡ true → trim_end s ≡ s
spaced-trim_end b [] h = unfold trim_end trim_start in refl
spaced-trim_end b (c ∷ s) h =
    let rest : trim_end s ≡ s = spaced-trim_end (is_space c) s (ground (arith, h)) in
    let shown : is_space c && is_empty s ≡ false = ground (arith, h, spaced-full s) in
    trim_end-cons c s ∙ rw (rest, shown) refl

spaced-trim_start : (s : Text) → spaced true s ≡ true → trim_start s ≡ s
unfolding trim_start
spaced-trim_start [] h = refl
spaced-trim_start (c ∷ s) h = ground (arith, h)

spaced-weaker : (s : Text) → spaced true s ≡ true → spaced false s ≡ true
spaced-weaker [] h = refl
spaced-weaker (c ∷ s) h = ground (arith, h)

spaced-normalize : (s : Text) → spaced true s ≡ true → normalize s ≡ s
unfolding normalize trim
spaced-normalize s h =
    ap (λ t. trim_end (trim_start t)) (spaced-collapse false s (spaced-weaker s h))
    ∙ ap trim_end (spaced-trim_start s h)
    ∙ spaced-trim_end true s h

-- a text that ends in no white space is neat once it is collapsed
collapse-spaced :
    (b : Bool) (s : Text) → is_empty (trim_end s) || spaced b (collapse b (trim_end s)) ≡ true
unfolding collapse
collapse-spaced b [] = unfold trim_end trim_start in refl
collapse-spaced b (c ∷ s) =
    ground
      (arith, trim_end-cons c s, collapse-spaced true s, collapse-spaced false s, space-is_space)

-- it does not matter what stands in front of a text that begins with no white space
collapse-begun :
    (s : Text) → collapse false (trim_end (trim_start s)) ≡ collapse true (trim_end (trim_start s))
unfolding collapse trim_start
collapse-begun [] = unfold trim_end in refl
collapse-begun (c ∷ s) = ground (arith, collapse-begun s, trim_end-cons c s)

is_empty-trim : (s : Text) → is_empty (trim_end (trim_start s)) ≡ blank s
unfolding trim_start
is_empty-trim [] = unfold trim_end in refl
is_empty-trim (c ∷ s) = ground (arith, is_empty-trim s, trim_end-cons c s)

is_empty-collapse-false : (s : Text) → is_empty (collapse false s) ≡ is_empty s
unfolding collapse
is_empty-collapse-false [] = refl
is_empty-collapse-false (c ∷ s) = ground arith

is_empty-normalize : (s : Text) → is_empty (normalize s) ≡ blank s
is_empty-normalize s =
    ap is_empty (normalize-eq s)
    ∙ is_empty-collapse-false (trim s)
    ∙ (unfold trim in is_empty-trim s)

normalize-begun : (s : Text) → normalize s ≡ collapse true (trim_end (trim_start s))
normalize-begun s = normalize-eq s ∙ (unfold trim in collapse-begun s)

-- what a field saves is neat
normalize-neat : (s : Text) → is_neat (normalize s) ≡ true
normalize-neat s = ground (
  arith,
  is_empty-normalize s,
  is_empty-trim s,
  ap (spaced true) (normalize-begun s),
  collapse-spaced true (trim_start s),
)

neat-kept : (s : Text) → normalize s ≡ s → is_neat s ≡ true
neat-kept s e = ap is_neat (sym e) ∙ normalize-neat s

empty-blank : (s : Text) → is_empty s ≡ true → blank s ≡ true
empty-blank [] h = refl
empty-blank (c ∷ s) h = cc

blank-normalize : (s : Text) → blank (normalize s) ≡ blank s
blank-normalize s =
    sym (is_empty-normalize (normalize s))
    ∙ ap is_empty (normalize-normalize s)
    ∙ is_empty-normalize s

-- Escape in a field, whatever was typed, saves nothing exactly if the saved text is blank or neat:
-- with no white space but single blanks between other characters. Any other saved text is saved
-- anew, as a text that is neat; it is blank only if the saved text is.
pub edited-escape :
    (saved typed : Text)
    → ((edited saved (commit_or_restore escape saved typed).0).0
        ≡ (if blank saved || is_neat saved then none else some (normalize saved)))
      × (is_neat (normalize saved) ≡ true)
      × (blank (normalize saved) ≡ blank saved)
unfolding edited commit_or_restore
edited-escape saved typed = (
  ground (
    arith,
    is_empty-normalize saved,
    text_eq_iff (normalize saved) saved,
    spaced-normalize saved,
    neat-kept saved,
    empty-blank saved,
  ),
  normalize-neat saved,
  blank-normalize saved,
)
