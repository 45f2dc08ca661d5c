-- ===== src/Frame/Remembered.antt =====
-- The choices that the browser remembers, as the pages use `localStorage`: the theme
-- (apps/web/src/components/account-menu.tsx, apps/web/src/routes/__root.tsx), the right-hand panel
-- (apps/web/src/components/app-shell.tsx) and the stretched text (account-menu.tsx). An interface of
-- what such a choice needs, and what follows for a later visit.
use lgtm.Prelude.{
  ◌≡◌, ◌∙◌, ap, Bool, true, Option, List, [], ◌∷◌, Text, last_or, arith, if◌then◌else◌,
}

-- how a choice is kept under one key: what a visit makes of the item, what the control leaves there
-- for a choice (`none` where it removes the item), and the choice that a press makes
pub record Preference {ℓ} (A : Type ℓ) : Type ℓ where
  pub read : Option Text → A
  pub written : A → Option Text
  pub next : A → A
  pub read-written : (a : A) → read (written a) ≡ a

module _ {ℓ} {A : Type ℓ} (P : Preference A) where
  -- the choice after the presses
  abbrev pub chosen : List Bool → A → A
  chosen [] a = a
  chosen (_ ∷ presses) a = chosen presses (P.next a)

  -- the item after the presses, each with whether the storage took what it wrote
  abbrev pub item : List Bool → A → Option Text → Option Text
  item [] a stored = stored
  item (takes ∷ presses) a stored =
      item presses (P.next a) (if takes then P.written (P.next a) else stored)

  pub item-chosen :
      (presses : List Bool) (a : A) (stored : Option Text) (before : Bool)
      → (before ≡ true → stored ≡ P.written a)
      → last_or before presses ≡ true
      → item presses a stored ≡ P.written (chosen presses a)
  item-chosen [] a stored before k h = k h
  item-chosen (takes ∷ presses) a stored before k h =
      item-chosen presses (P.next a) _ takes (λ e. ground (arith, e)) h

  -- A visit after the presses starts from the choice that they left, when the storage took the last
  -- of them.
  pub read-item :
      (presses : List Bool) (a : A) (stored : Option Text) (before : Bool)
      → (before ≡ true → stored ≡ P.written a)
      → last_or before presses ≡ true
      → P.read (item presses a stored) ≡ chosen presses a
  read-item presses a stored before k h =
      ap P.read (item-chosen presses a stored before k h) ∙ P.read-written (chosen presses a)
