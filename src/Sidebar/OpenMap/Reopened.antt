-- ===== src/Sidebar/OpenMap/Reopened.antt =====
-- The groups of the sidebar on a later visit (apps/web/src/components/app-sidebar.tsx).
use lgtm.Prelude.{
  ◌≡◌, refl, ap, ◌∙◌, Bool, true, false, Option, none, some, List, [], ◌∷◌, Text, text_eq,
  text_eq_iff, if◌then◌else◌, arith, Bool-cases, inl, inr,
}
use lgtm.Types.{JsonValue, bool, obj, Fields, end, field}
use lgtm.Transcript.Events.{member}
use lgtm.Sidebar.OpenMap.{
  Sidebar, read_open_map, mounted, set_member, set_project_open, Toggle, or_open, is_open, toggled,
}

member-set_member :
    (key k : Text) (v : JsonValue) (fields : Fields)
    → member k (set_member key v fields) ≡ (if text_eq key k then some v else member k fields)
unfolding member set_member
member-set_member key k v end = refl
member-set_member key k v (field j w rest) =
    ground
      (arith, text_eq_iff key k, text_eq_iff j key, text_eq_iff j k, member-set_member key k v rest)

-- how a group was left, by the last of the toggles that is its own
abbrev pub last_toggle : Text → Bool → List Toggle → Bool
last_toggle k before [] = before
last_toggle k before (t ∷ toggles) =
    last_toggle k (if text_eq t.key k then t.is_open else before) toggles

is_open-set :
    (takes : Bool) (key k : Text) (b : Bool) (s : Sidebar)
    → is_open k (set_project_open takes key b s) ≡ (if text_eq key k then b else is_open k s)
unfolding is_open set_project_open
is_open-set takes key k b s = ground (arith, member-set_member key k (bool b) s.open_map)

is_open-toggled :
    (k : Text) (toggles : List Toggle) (s : Sidebar)
    → is_open k (toggled toggles s) ≡ last_toggle k (is_open k s) toggles
unfolding toggled
is_open-toggled k [] s = refl
is_open-toggled k (t ∷ toggles) s =
    is_open-toggled k toggles (set_project_open t.takes t.key t.is_open s)
    ∙ ap (λ before. last_toggle k before toggles) (is_open-set t.takes t.key k t.is_open s)

abbrev has_none : List Toggle → Bool
has_none [] = true
has_none (_ ∷ _) = false

-- the toggles up to the last one that the storage took
abbrev pub up_to_taken : List Toggle → List Toggle
up_to_taken [] = []
up_to_taken (t ∷ toggles) =
    let later = up_to_taken toggles in
    if has_none later then (if t.takes then t ∷ [] else []) else t ∷ later

-- the groups as a visit finds them that reads what is stored
abbrev found : Sidebar → Fields
found s = (mounted s.stored).open_map

set-found :
    (takes : Bool) (key : Text) (b : Bool) (s : Sidebar)
    → let s' = set_project_open takes key b s in found s' ≡ (if takes then s'.open_map else found s)
unfolding set_project_open mounted read_open_map
set-found true key b s = refl
set-found false key b s = refl

found-cons :
    (t : Toggle) (later : List Toggle) (s : Sidebar)
    → let s' = set_project_open t.takes t.key t.is_open s in
      let all = if has_none later then (if t.takes then t ∷ [] else []) else t ∷ later in
      (if has_none later then found s' else (toggled later s').open_map)
      ≡ (if has_none all then found s else (toggled all s).open_map)
unfolding toggled
found-cons t (l ∷ later) s = refl
found-cons t [] s =
    set-found t.takes t.key t.is_open s
    ∙ (elim (Bool-cases t.takes) [ inl e ↦ rw (e) refl | inr e ↦ rw (e) refl ])

toggled-found :
    (toggles : List Toggle) (s : Sidebar)
    → found (toggled toggles s) ≡ (
        if has_none (up_to_taken toggles)
        then found s
        else (toggled (up_to_taken toggles) s).open_map)
unfolding toggled
toggled-found [] s = refl
toggled-found (t ∷ toggles) s =
    toggled-found toggles (set_project_open t.takes t.key t.is_open s)
    ∙ found-cons t (up_to_taken toggles) s

mounted-found : (stored : Option JsonValue) → found (mounted stored) ≡ (mounted stored).open_map
unfolding mounted read_open_map
mounted-found none = refl
mounted-found (some (obj fields)) = refl
mounted-found (some _) = refl

found-mounted :
    (stored : Option JsonValue) (later : List Toggle)
    → (if has_none later then found (mounted stored) else (toggled later (mounted stored)).open_map)
      ≡ (toggled later (mounted stored)).open_map
found-mounted stored [] = unfold toggled in mounted-found stored
found-mounted stored (t ∷ later) = refl

is_open-found :
    (k : Text) (s t : Sidebar) → found s ≡ t.open_map → is_open k (mounted s.stored) ≡ is_open k t
unfolding is_open
is_open-found k s t e = ap (λ fields. or_open (member k fields)) e

-- In a sidebar that could read what was stored, whatever that is, and whichever groups are then
-- opened and closed: every group is shown as its own last toggle left it, or as it was before if it
-- has none; and a later visit that can read shows every group as it was left by the toggles up to
-- the last one that the storage took, which are all of them where it took the last.
pub reopened :
    (stored : Option JsonValue) (toggles : List Toggle) (k : Text)
    → let s = toggled toggles (mounted stored) in
      let before = is_open k (mounted stored) in
      (is_open k s ≡ last_toggle k before toggles)
      × (is_open k (mounted s.stored) ≡ last_toggle k before (up_to_taken toggles))
reopened stored toggles k =
    let s = mounted stored in
    let kept = up_to_taken toggles in
    (
      is_open-toggled k toggles s,
      is_open-found k (toggled toggles s) (toggled kept s)
            (toggled-found toggles s ∙ found-mounted stored kept)
          ∙ is_open-toggled k kept s,
    )
