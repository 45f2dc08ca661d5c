-- ===== src/Frame/StretchText/Kept.antt =====
-- What the item "Stretch text" shows over the visits (apps/web/src/components/account-menu.tsx).
use lgtm.Prelude.{
  ◌≡◌, refl, Bool, true, false, not, ◌&&◌, ◌||◌, List, [], ◌∷◌, text, text_eq, arith, Bool-cases,
  inl, inr, if◌then◌else◌,
}
use lgtm.Frame.Remembered.{Preference, chosen}
use lgtm.Frame.StretchText.{Visit, is_one, one, opened, toggle, toggles, reload, run}

pub is_one-one : (b : Bool) → is_one (one b) ≡ b
unfolding text text_eq
is_one-one true = refl
is_one-one false = refl

-- whether the text is stretched, as a remembered choice
abbrev pub stretch_preference : Preference Bool
stretch_preference = record { read = is_one; written = one; next = not; read-written = is_one-one }

-- whether the storage took one of the presses
abbrev pub any_taken : List Bool → Bool
any_taken [] = false
any_taken (takes ∷ presses) = takes || any_taken presses

-- the visits with a press that was taken: however many, they choose once
abbrev pub choices : List (List Bool) → List Bool
choices [] = []
choices (presses ∷ visits) = if any_taken presses then true ∷ choices visits else choices visits

-- a visit whose control, page and stored item agree
abbrev pub Agrees : Bool → Visit → Type 0
Agrees dev s = (is_one s.stored ≡ s.on) × (s.stretched ≡ (dev && s.on)) × (s.reloading ≡ false)

-- within a visit the second press and the later ones repeat the first
toggles-taken :
    (presses : List Bool) (s : Visit)
    → let t = toggles presses s in
      (t.on ≡ s.on)
      × (t.stretched ≡ s.stretched)
      × (t.reloading ≡ (any_taken presses || s.reloading))
      × (t.stored ≡ (if any_taken presses then one (not s.on) else s.stored))
unfolding toggles toggle
toggles-taken [] s = (refl, refl, refl, refl)
toggles-taken (takes ∷ presses) s = ground (arith, toggles-taken presses (toggle takes s))

-- the choice after a visit
abbrev after : List Bool → Bool → Bool
after presses on = if any_taken presses then not on else on

visit-Agrees :
    (dev : Bool) (presses : List Bool) (s : Visit)
    → Agrees dev s
    → let t = reload dev (toggles presses s) in Agrees dev t × (t.on ≡ after presses s.on)
unfolding reload opened
visit-Agrees dev presses s h = elim (Bool-cases (any_taken presses)) [
  | inl e ↦ ground (arith, toggles-taken presses s, is_one-one (not s.on), h, e)
  | inr e ↦ ground (arith, toggles-taken presses s, h, e)
]

chosen-after :
    (presses : List Bool) (visits : List (List Bool)) (on : Bool)
    → chosen stretch_preference (choices (presses ∷ visits)) on
      ≡ chosen stretch_preference (choices visits) (after presses on)
chosen-after presses visits on = elim (Bool-cases (any_taken presses)) [
  | inl e ↦ rw (e) refl
  | inr e ↦ rw (e) refl
]

-- From a visit where they agree on, whichever presses the storage takes: the control, the page and
-- the stored item agree after each reload, and the control shows the choice flipped once for each
-- visit with a press that was stored, however often it was pressed there.
pub run-Agrees :
    (dev : Bool) (visits : List (List Bool)) (s : Visit)
    → Agrees dev s
    → let t = run dev visits s in
      Agrees dev t × (t.on ≡ chosen stretch_preference (choices visits) s.on)
unfolding run
run-Agrees dev [] s h = (h, refl)
run-Agrees dev (presses ∷ visits) s h =
    let (agrees, on) = visit-Agrees dev presses s h in
    let later = run-Agrees dev visits (reload dev (toggles presses s)) agrees in
    rw (chosen-after presses visits s.on, ← on) later
