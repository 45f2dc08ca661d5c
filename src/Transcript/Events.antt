-- ===== src/Transcript/Events.antt =====
-- apps/web/src/components/task-transcript.tsx: reading the loosely typed members of a stored event.
use lgtm.Prelude.{
  ℕ, Bool, false, Option, none, some, List, [], ◌∷◌, Text, text, text_eq, if◌then◌else◌,
}
use lgtm.Types.{
  JsonValue, str, num, bool, arr, obj, Items, nil, cons, Fields, end, field, EventBody, SkillRef,
}

-- `value[key]`; the keys of an object differ
unfoldable pub member : Text → Fields → Option JsonValue
member key end = none
member key (field k v rest) = let later = member key rest in if text_eq k key then some v else later

abbrev text_or_empty : Option JsonValue → Text
text_or_empty (some (str s)) = s
text_or_empty _ = []

-- `str(event, key)`: the empty text unless the member is one
unfoldable pub str_of : EventBody → Text → Text
unfolding member
str_of event key = text_or_empty (member key event.fields)

unfoldable pub texts_of : Items → List Text
texts_of nil = []
texts_of (cons (str s) rest) = s ∷ texts_of rest
texts_of (cons _ rest) = texts_of rest

abbrev texts_or_empty : Option JsonValue → List Text
texts_or_empty (some (arr items)) = texts_of items
texts_or_empty _ = []

-- `strings(event, key)`: the texts of an array, and nothing of what is no array
unfoldable pub strings : EventBody → Text → List Text
unfolding member texts_of
strings event key = texts_or_empty (member key event.fields)

-- the test of one item: an object with a text name and a numeric revision
abbrev skill_ref_of : Option JsonValue → Option JsonValue → Option SkillRef
skill_ref_of (some (str name)) (some (num revision)) =
    some (record { name = name; revision = revision })
skill_ref_of _ _ = none

unfoldable pub skill_ref : JsonValue → Option SkillRef
unfolding member
skill_ref (obj fields) =
    skill_ref_of (member (text "name") fields) (member (text "revision") fields)
skill_ref _ = none

abbrev push_ref : Option SkillRef → List SkillRef → List SkillRef
push_ref none refs = refs
push_ref (some r) refs = r ∷ refs

unfoldable pub refs_of : Items → List SkillRef
unfolding skill_ref
refs_of nil = []
refs_of (cons item rest) = push_ref (skill_ref item) (refs_of rest)

abbrev refs_or_empty : Option JsonValue → List SkillRef
refs_or_empty (some (arr items)) = refs_of items
refs_or_empty _ = []

unfoldable pub skill_refs : EventBody → List SkillRef
unfolding member refs_of
skill_refs event = refs_or_empty (member (text "skills") event.fields)

abbrev number_or_null : Option JsonValue → Option ℕ
number_or_null (some (num n)) = some n
number_or_null _ = none

unfoldable pub as_number : EventBody → Text → Option ℕ
unfolding member
as_number event key = number_or_null (member key event.fields)

abbrev true_or_false : Option JsonValue → Bool
true_or_false (some (bool b)) = b
true_or_false _ = false

-- `event[key] === true`
unfoldable pub is_true : EventBody → Text → Bool
unfolding member
is_true event key = true_or_false (member key event.fields)
