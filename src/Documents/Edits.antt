-- ===== src/Documents/Edits.antt =====
-- The fields and the repository picker of the document pages
-- (apps/web/src/routes/scratchpads_.$id.tsx, apps/web/src/routes/skills_.$id.tsx).
use lgtm.Prelude.{
  ◌≡◌, ◌≢◌, refl, sym, ap, ◌∙◌, Bool, true, false, none, some, List, [], ◌∷◌, Text, text_eq_iff,
  text_eq_refl, is_empty, is_space, trim, trim_start, trim_end, arith,
}
use lgtm.Prelude.Trim.{trim_end-cons, trim-trim}
use lgtm.Types.{Scratchpad, Project}
use lgtm.Documents.{repository_of, collapse, normalize, edited}
use lgtm.Documents.Pad

pub space-is_space : is_space 32 ≡ true
unfolding is_space
space-is_space = refl

collapse-collapse : (b : Bool) (s : Text) → collapse b (collapse b s) ≡ collapse b s
unfolding collapse
collapse-collapse b [] = refl
collapse-collapse b (c ∷ s) =
    ground (arith, collapse-collapse true s, collapse-collapse false s, space-is_space)

trim_start-collapse :
    (b : Bool) (s : Text) → trim_start (collapse b s) ≡ collapse false (trim_start s)
unfolding collapse trim_start
trim_start-collapse b [] = refl
trim_start-collapse b (c ∷ s) = ground (arith, trim_start-collapse true s, space-is_space)

is_empty-collapse :
    (b : Bool) (s : Text) → is_empty (collapse b (trim_end s)) ≡ is_empty (trim_end s)
unfolding collapse
is_empty-collapse b [] = unfold trim_end trim_start in refl
is_empty-collapse b (c ∷ s) =
    ground (arith, is_empty-collapse true s, is_empty-collapse false s, trim_end-cons c s)

trim_end-collapse : (b : Bool) (s : Text) → trim_end (collapse b s) ≡ collapse b (trim_end s)
unfolding collapse
trim_end-collapse b [] = unfold trim_end trim_start in refl
trim_end-collapse b (c ∷ s) = ground (
  arith,
  space-is_space,
  trim_end-cons c s,
  trim_end-cons c (collapse false s),
  trim_end-cons 32 (collapse true s),
  trim_end-collapse true s,
  trim_end-collapse false s,
  is_empty-collapse true s,
  is_empty-collapse false s,
)

pub normalize-eq : (s : Text) → normalize s ≡ collapse false (trim s)
unfolding normalize trim
normalize-eq s = ap trim_end (trim_start-collapse false s) ∙ trim_end-collapse false (trim_start s)

pub normalize-normalize : (s : Text) → normalize (normalize s) ≡ normalize s
unfolding normalize
normalize-normalize s =
    normalize-eq (normalize s)
    ∙ ap (collapse false) (trim-trim (collapse false s))
    ∙ sym (normalize-eq (collapse false s))
    ∙ ap trim (collapse-collapse false s)

-- If leaving a field saves a text, the text is not empty and not the one saved before, and
-- leaving the field again as it then stands saves nothing.
pub edited-once :
    (saved typed next : Text)
    → (edited saved typed).0 ≡ some next
    → (next ≢ []) × (next ≢ saved) × ((edited next next).0 ≡ none)
unfolding edited
edited-once saved typed next e =
    ground
      (arith, e, normalize-normalize typed, text_eq_iff (normalize typed) saved, text_eq_refl next)

-- Picking the repository that the scratchpad has been moved to asks for nothing.
pub set_repository-again :
    (projects : List Project) (pad : Scratchpad) (repository : Text)
    → Pad.set_repository projects (record pad { repository = repository_of repository }) repository
      ≡ none
unfolding Pad.set_repository
set_repository-again projects pad [] = rw (text_eq_refl []) refl
set_repository-again projects pad (c ∷ s) = rw (text_eq_refl (c ∷ s)) refl
