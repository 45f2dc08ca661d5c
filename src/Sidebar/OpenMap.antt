-- ===== src/Sidebar/OpenMap.antt =====
-- Which groups of the sidebar are open (apps/web/src/components/app-sidebar.tsx). The map is the
-- JSON object that `localStorage` holds, which is taken over unchecked. A toggle
-- comes with whether the storage takes what it writes.
pub mod Reopened
use lgtm.Prelude.{
  ℕ, suc, Bool, true, false, not, Option, none, some, List, [], ◌∷◌, Text, text, text_eq, is_empty,
  decimal, ◌==◌, if◌then◌else◌,
}
use lgtm.Types.{JsonValue, str, num, bool, null, arr, obj, Items, nil, cons, Fields, end, field}
use lgtm.Transcript.Events.{member}

-- the members of an array, which is an object too
unfoldable pub indexed : ℕ → Items → Fields
indexed i nil = end
indexed i (cons v vs) = field (decimal i) v (indexed (suc i) vs)

-- `readOpenMap`, of the value that was stored
unfoldable pub read_open_map : Option JsonValue → Option Fields
unfolding indexed
read_open_map (some (obj fields)) = some fields
read_open_map (some (arr items)) = some (indexed 0 items)
read_open_map _ = none

pub record Sidebar : Type 0 where
  pub open_map : Fields
  pub stored : Option JsonValue

abbrev with_map : Option Fields → Sidebar → Sidebar
with_map none s = s
with_map (some fields) s = record s { open_map = fields }

-- a sidebar that is mounted and can read what is stored
unfoldable pub mounted : Option JsonValue → Sidebar
unfolding read_open_map
mounted stored = with_map (read_open_map stored) (record { open_map = end; stored = stored })

-- `{ ...current, [key]: isOpen }`
unfoldable pub set_member : Text → JsonValue → Fields → Fields
set_member key v end = field key v end
set_member key v (field k w rest) =
    let later = set_member key v rest in if text_eq k key then field k v rest else field k w later

-- the map is kept on the page whether or not the storage takes it
unfoldable pub set_project_open : Bool → Text → Bool → Sidebar → Sidebar
unfolding set_member
set_project_open takes repository is_open s =
    let next = set_member repository (bool is_open) s.open_map in
    record s { open_map = next; stored = if takes then some (obj next) else s.stored }

-- whether a value that stands where a Boolean should counts as true
abbrev pub truthy : JsonValue → Bool
truthy (str s) = not (is_empty s)
truthy (num n) = not (n == 0)
truthy (bool b) = b
truthy null = false
truthy (arr _) = true
truthy (obj _) = true

-- `open[key] ?? true`
abbrev pub or_open : Option JsonValue → Bool
or_open none = true
or_open (some null) = true
or_open (some v) = truthy v

unfoldable pub is_open : Text → Sidebar → Bool
unfolding member
is_open key s = or_open (member key s.open_map)

-- the keys of the headings
abbrev pub projects_group : Text
projects_group = text ":projects"

abbrev pub chats_group : Text
chats_group = text ":chats"

-- a group opened or closed, and whether the storage takes the map then
pub record Toggle : Type 0 where
  pub key : Text
  pub is_open : Bool
  pub takes : Bool

-- the groups opened and closed, in order
unfoldable pub toggled : List Toggle → Sidebar → Sidebar
unfolding set_project_open
toggled [] s = s
toggled (t ∷ toggles) s = toggled toggles (set_project_open t.takes t.key t.is_open s)
