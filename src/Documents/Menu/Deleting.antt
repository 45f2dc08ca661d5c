-- ===== src/Documents/Menu/Deleting.antt =====
-- When a document is deleted and its page left (apps/web/src/routes/skills_.$id.tsx,
-- apps/web/src/routes/scratchpads_.$id.tsx).
use lgtm.Prelude.{
  ℕ, zero, suc, ◌+◌, ◌*◌, ◌≤◌, ◌≡◌, refl, Bool, true, false, not, ◌&&◌, Option, none, some, List,
  [], ◌∷◌, ◌++◌, arith,
}
use lgtm.Documents.{Run}
use lgtm.Documents.Menu.{
  Flight, calling, refetching, Menu, mounted, start, settle, is_delete, set_menu_open, press_delete,
  press_item, leave_field, MenuEvent, menu_changed, delete_pressed, item_pressed, field_left,
  settled, step, run,
}

abbrev pub bit : Bool → ℕ
bit true = 1
bit false = 0

-- how many of the actions delete the document
abbrev pub deletes : List Run → ℕ
deletes [] = 0
deletes (r ∷ rs) = bit (is_delete r) + deletes rs

abbrev in_flight : List Flight → ℕ
in_flight [] = 0
in_flight (calling r ∷ fs) = bit (is_delete r) + in_flight fs
in_flight (refetching r ∷ fs) = bit (is_delete r) + in_flight fs

pub deletes-append :
    (rs : List Run) (r : Run) → deletes (rs ++ r ∷ []) ≡ deletes rs + bit (is_delete r)
deletes-append [] r = omega arith
deletes-append (x ∷ rs) r = omega (arith, deletes-append rs r)

in_flight-append :
    (fs : List Flight) (r : Run)
    → in_flight (fs ++ calling r ∷ []) ≡ in_flight fs + bit (is_delete r)
in_flight-append [] r = omega arith
in_flight-append (calling x ∷ fs) r = omega (arith, in_flight-append fs r)
in_flight-append (refetching x ∷ fs) r = omega (arith, in_flight-append fs r)

abbrev ends : Option (Run × Bool) → ℕ
ends none = 0
ends (some (r, ok)) = bit (is_delete r && ok)

settle-in_flight :
    (i : ℕ) (ok : Bool) (fs : List Flight)
    → let (later, ended) = settle i ok fs in in_flight later + ends ended ≤ in_flight fs
unfolding settle
settle-in_flight i ok [] = ground arith
settle-in_flight zero ok (calling r ∷ fs) = ground arith
settle-in_flight zero ok (refetching r ∷ fs) = ground arith
settle-in_flight (suc i) ok (calling r ∷ fs) = ground (arith, settle-in_flight i ok fs)
settle-in_flight (suc i) ok (refetching r ∷ fs) = ground (arith, settle-in_flight i ok fs)

-- the presses of Delete
abbrev pub presses : List MenuEvent → ℕ
presses [] = 0
presses (delete_pressed ∷ es) = 1 + presses es
presses (_ ∷ es) = presses es

presses-cons :
    (e : MenuEvent) (es : List MenuEvent) → presses (e ∷ es) ≡ presses (e ∷ []) + presses es
presses-cons (menu_changed open_) es = omega arith
presses-cons delete_pressed es = omega arith
presses-cons (item_pressed r) es = omega arith
presses-cons (field_left r) es = omega arith
presses-cons (settled i ok) es = omega arith

-- the other controls do not delete
abbrev pub spares : MenuEvent → Bool
spares (item_pressed r) = not (is_delete r)
spares (field_left (some r)) = not (is_delete r)
spares _ = true

abbrev pub all_spare : List MenuEvent → Bool
all_spare [] = true
all_spare (e ∷ es) = spares e && all_spare es

-- every press of Delete is followed at once by the menu being closed
abbrev pub hesitant : List MenuEvent → Bool
hesitant [] = true
hesitant (delete_pressed ∷ []) = true
hesitant (delete_pressed ∷ menu_changed false ∷ es) = hesitant es
hesitant (delete_pressed ∷ _) = false
hesitant (_ ∷ es) = hesitant es

-- a page that was left has deleted, and what deletes was started
abbrev IsEarned : Menu → Type 0
IsEarned s = bit s.gone + in_flight s.flights ≤ deletes s.started

module _ (delete : Run) where
  start-IsEarned : (r : Run) (s : Menu) → IsEarned s → IsEarned (start r s)
  unfolding start
  start-IsEarned r s h = omega (arith, h, in_flight-append s.flights r, deletes-append s.started r)

  step-IsEarned : (e : MenuEvent) (s : Menu) → IsEarned s → IsEarned (step delete e s)
  unfolding step set_menu_open press_delete press_item leave_field
  step-IsEarned (menu_changed open_) s h = ground (arith, h)
  step-IsEarned delete_pressed s h =
      ground (arith, h, start-IsEarned delete (set_menu_open false s))
  step-IsEarned (item_pressed r) s h = ground (arith, h, start-IsEarned r (set_menu_open false s))
  step-IsEarned (field_left none) s h = h
  step-IsEarned (field_left (some r)) s h = ground (arith, h, start-IsEarned r s)
  step-IsEarned (settled i ok) s h = ground (arith, h, settle-in_flight i ok s.flights)

  run-IsEarned : (es : List MenuEvent) (s : Menu) → IsEarned s → IsEarned (run delete es s)
  unfolding run
  run-IsEarned [] s h = h
  run-IsEarned (e ∷ es) s h = run-IsEarned es (step delete e s) (step-IsEarned e s h)

  step-presses :
      (e : MenuEvent) (s : Menu)
      → spares e ≡ true
      → 2 * deletes (step delete e s).started + bit (step delete e s).armed
        ≤ 2 * deletes s.started + bit s.armed + presses (e ∷ [])
  unfolding step set_menu_open press_delete press_item leave_field start
  step-presses (menu_changed open_) s h = ground arith
  step-presses delete_pressed s h = ground (arith, deletes-append s.started delete)
  step-presses (item_pressed r) s h = ground (arith, h, deletes-append s.started r)
  step-presses (field_left none) s h = omega arith
  step-presses (field_left (some r)) s h = ground (arith, h, deletes-append s.started r)
  step-presses (settled i ok) s h = ground arith

  run-presses :
      (es : List MenuEvent) (s : Menu)
      → all_spare es ≡ true
      → 2 * deletes (run delete es s).started ≤ 2 * deletes s.started + bit s.armed + presses es
  unfolding run
  run-presses [] s h = omega arith
  run-presses (e ∷ es) s h = omega (
    arith,
    run-presses es (step delete e s) (ground (arith, h)),
    step-presses e s (ground (arith, h)),
    presses-cons e es,
  )

  -- On a page whose other controls do not delete, whatever is pressed and however the requests end:
  -- the page leaves for the list only after a deletion was started, and a deletion is started at
  -- most once for every two presses of Delete.
  pub run-deletes :
      (es : List MenuEvent)
      → all_spare es ≡ true
      → let s = run delete es mounted in
        (bit s.gone ≤ deletes s.started) × (2 * deletes s.started ≤ presses es)
  run-deletes es h =
      let s = run delete es mounted in
      let earned : IsEarned s = run-IsEarned es mounted (omega arith) in
      (omega (arith, earned), omega (arith, run-presses es mounted h))

  -- a step that is no press of Delete
  step-unarmed :
      (e : MenuEvent) (s : Menu)
      → spares e ≡ true
      → presses (e ∷ []) ≡ 0
      → s.armed ≡ false
      → let s' = step delete e s in (s'.armed ≡ false) × (deletes s'.started ≡ deletes s.started)
  unfolding step set_menu_open press_delete press_item leave_field start
  step-unarmed (menu_changed open_) s h k u = ground (arith, u)
  step-unarmed delete_pressed s h k u = ground (arith, k)
  step-unarmed (item_pressed r) s h k u = ground (arith, h, u, deletes-append s.started r)
  step-unarmed (field_left none) s h k u = (u, refl)
  step-unarmed (field_left (some r)) s h k u = ground (arith, h, u, deletes-append s.started r)
  step-unarmed (settled i ok) s h k u = ground (arith, u)

  -- a press of Delete, and the menu closed
  step-closed :
      (s : Menu)
      → s.armed ≡ false
      → let s' = step delete (menu_changed false) (step delete delete_pressed s) in
        (s'.armed ≡ false) × (deletes s'.started ≡ deletes s.started)
  unfolding step set_menu_open press_delete start
  step-closed s u = ground (arith, u)

  unarmed-rest :
      (es : List MenuEvent) (e : MenuEvent) (s : Menu)
      → spares e ≡ true
      → presses (e ∷ []) ≡ 0
      → s.armed ≡ false
      → ((step delete e s).armed ≡ false
          → deletes (run delete es (step delete e s)).started ≡ deletes (step delete e s).started)
      → deletes (run delete es (step delete e s)).started ≡ deletes s.started
  unarmed-rest es e s h k u later = ground (arith, later, step-unarmed e s h k u)

  run-hesitant :
      (es : List MenuEvent) (s : Menu)
      → all_spare es ≡ true
      → hesitant es ≡ true
      → s.armed ≡ false
      → deletes (run delete es s).started ≡ deletes s.started
  unfolding run
  run-hesitant [] s h k u = refl
  run-hesitant (delete_pressed ∷ []) s h k u = unfold step press_delete start in ground (arith, u)
  run-hesitant (delete_pressed ∷ menu_changed false ∷ es) s h k u =
      let s' = step delete (menu_changed false) (step delete delete_pressed s) in
      ground (arith, run-hesitant es s' h k, step-closed s u)
  run-hesitant (delete_pressed ∷ menu_changed true ∷ es) s h k u = cc
  run-hesitant (delete_pressed ∷ delete_pressed ∷ es) s h k u = cc
  run-hesitant (delete_pressed ∷ item_pressed r ∷ es) s h k u = cc
  run-hesitant (delete_pressed ∷ field_left r ∷ es) s h k u = cc
  run-hesitant (delete_pressed ∷ settled i ok ∷ es) s h k u = cc
  run-hesitant (menu_changed open_ ∷ es) s h k u =
      unarmed-rest es (menu_changed open_) s (ground (arith, h)) refl u
        (run-hesitant es (step delete (menu_changed open_) s) (ground (arith, h)) k)
  run-hesitant (item_pressed r ∷ es) s h k u =
      unarmed-rest es (item_pressed r) s (ground (arith, h)) refl u
        (run-hesitant es (step delete (item_pressed r) s) (ground (arith, h)) k)
  run-hesitant (field_left r ∷ es) s h k u =
      unarmed-rest es (field_left r) s (ground (arith, h)) refl u
        (run-hesitant es (step delete (field_left r) s) (ground (arith, h)) k)
  run-hesitant (settled i ok ∷ es) s h k u =
      unarmed-rest es (settled i ok) s (ground (arith, h)) refl u
        (run-hesitant es (step delete (settled i ok) s) (ground (arith, h)) k)

  -- Where the menu is closed after every press of Delete, nothing is deleted, and the page stays.
  hesitant-stays :
      (es : List MenuEvent)
      → all_spare es ≡ true
      → hesitant es ≡ true
      → let s = run delete es mounted in (deletes s.started ≡ 0) × (s.gone ≡ false)
  hesitant-stays es h k =
      let s = run delete es mounted in
      let none_started = run-hesitant es mounted h k refl in
      let earned : IsEarned s = run-IsEarned es mounted (omega arith) in
      (none_started, ground (arith, earned, none_started))
