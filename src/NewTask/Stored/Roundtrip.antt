-- ===== src/NewTask/Stored/Roundtrip.antt =====
-- The stored model preferences (apps/web/src/routes/index.tsx), written and read.
use lgtm.Prelude.{
  ◌≡◌, refl, ap, ◌∙◌, Bool, true, Option, none, some, List, [], ◌∷◌, Text, text, text_eq,
  text_eq_iff, any, find, if◌then◌else◌, Bool-cases, inl, inr, arith,
}
use lgtm.Types.{ReasoningEffort, low, medium, high, JsonValue, str, obj}
use lgtm.Transcript.Events.{member}
use lgtm.NewTask.Efforts.{Configurations, lookup, put}
use lgtm.NewTask.Models.{LlmModel, models}
use lgtm.NewTask.Stored.{
  Preferences, effort_text, effort_of, member_of, is_named, put_some, collect, read_from,
  read_preferences, fields_of, saved,
}

abbrev or_else : Option ReasoningEffort → Option ReasoningEffort → Option ReasoningEffort
or_else none other = other
or_else (some effort) other = some effort

effort_of-effort_text :
    (effort : ReasoningEffort) → effort_of (some (str (effort_text effort))) ≡ some effort
unfolding effort_of effort_text text text_eq
effort_of-effort_text low = refl
effort_of-effort_text medium = refl
effort_of-effort_text high = refl

effort_of-fields_of :
    (key : Text) (configurations : Configurations)
    → effort_of (member key (fields_of configurations)) ≡ lookup key configurations
unfolding member fields_of
effort_of-fields_of key [] = unfold effort_of in refl
effort_of-fields_of key ((k, effort) ∷ rest) =
    ground (arith, effort_of-fields_of key rest, effort_of-effort_text effort)

pub lookup-put :
    (v key : Text) (effort : ReasoningEffort) (acc : Configurations)
    → lookup v (put key effort acc) ≡ (if text_eq key v then some effort else lookup v acc)
unfolding put
lookup-put v key effort [] = ground arith
lookup-put v key effort ((k, e) ∷ acc) =
    ground
      (arith, lookup-put v key effort acc, text_eq_iff k key, text_eq_iff k v, text_eq_iff key v)

lookup-put_some :
    (v key : Text) (o : Option ReasoningEffort) (acc : Configurations)
    → lookup v (put_some key o acc)
      ≡ (if text_eq key v then or_else o (lookup v acc) else lookup v acc)
lookup-put_some v key none acc = ground arith
lookup-put_some v key (some effort) acc = ground (arith, lookup-put v key effort acc)

or_else-or_else : (o other : Option ReasoningEffort) → or_else o (or_else o other) ≡ or_else o other
or_else-or_else none other = refl
or_else-or_else (some effort) other = refl

or_else-none : (o : Option ReasoningEffort) → or_else o none ≡ o
or_else-none none = refl
or_else-none (some effort) = refl

abbrev pub has_value : Text → List LlmModel → Bool
has_value v ms = any (λ m. text_eq m.value v) ms

abbrev stored_effort : Option JsonValue → Text → Option ReasoningEffort
stored_effort stored v = effort_of (member_of v stored)

lookup-collect :
    (stored : Option JsonValue) (v : Text) (ms : List LlmModel) (acc : Configurations)
    → lookup v (collect stored ms acc)
      ≡ (if has_value v ms then or_else (stored_effort stored v) (lookup v acc) else lookup v acc)
unfolding collect
lookup-collect stored v [] acc = refl
lookup-collect stored v (m ∷ ms) acc =
    let acc' = put_some m.value (stored_effort stored m.value) acc in
    elim (Bool-cases (text_eq m.value v)) [
      | inl same ↦ ground (
        arith,
        lookup-collect stored v ms acc',
        lookup-put_some v m.value (stored_effort stored m.value) acc,
        ap (stored_effort stored) ((text_eq_iff m.value v).0 same),
        or_else-or_else (stored_effort stored v) (lookup v acc),
      )
      | inr other ↦ ground (
        arith,
        lookup-collect stored v ms acc',
        lookup-put_some v m.value (stored_effort stored m.value) acc,
      )
    ]

configurations-saved :
    (model : Text) (c : Configurations)
    → member_of (text "configurations") (some (saved model c)) ≡ some (obj (fields_of c))
unfolding saved member text text_eq
configurations-saved model c = refl

model-saved :
    (model : Text) (c : Configurations)
    → member_of (text "model") (some (saved model c)) ≡ some (str model)
unfolding saved member text text_eq
model-saved model c = refl

find-has_value :
    (v : Text) (ms : List LlmModel)
    → has_value v ms ≡ true
    → (m : LlmModel) × (find (is_named (some (str v))) ms ≡ some m) × (m.value ≡ v)
find-has_value v [] h = cc
find-has_value v (m ∷ ms) h = elim (Bool-cases (text_eq m.value v)) [
  | inl same ↦ (m, ground (arith, same), (text_eq_iff m.value v).0 same)
  | inr other ↦
      let (m', found, same) = find-has_value v ms (ground (arith, other, h)) in
      (m', ground (arith, other, found), same)
]

read_from-saved :
    (ms : List LlmModel) (m : LlmModel) (c : Configurations) (v : Text)
    → has_value m.value ms ≡ true
    → has_value v ms ≡ true
    → (p : Preferences) × (read_from ms (some (saved m.value c)) ≡ some p)
      × (p.model.value ≡ m.value)
      × (lookup v p.configurations ≡ lookup v c)
unfolding read_from
read_from-saved ms m c v h k =
    let (m', found, same) = find-has_value m.value ms h in
    let kept = collect (some (obj (fields_of c))) ms [] in
    (
      record { configurations = kept; model = m' },
      rw (configurations-saved m.value c, model-saved m.value c, found) refl,
      same,
      lookup-collect (some (obj (fields_of c))) v ms []
          ∙ rw k
              (or_else-none (stored_effort (some (obj (fields_of c))) v) ∙ effort_of-fields_of v c),
    )

pub read_preferences-saved :
    (m : LlmModel) (c : Configurations) (v : Text)
    → has_value m.value models ≡ true
    → has_value v models ≡ true
    → (p : Preferences) × (read_preferences (some (saved m.value c)) ≡ some p)
      × (p.model.value ≡ m.value)
      × (lookup v p.configurations ≡ lookup v c)
unfolding read_preferences
read_preferences-saved m c v h k = read_from-saved models m c v h k
