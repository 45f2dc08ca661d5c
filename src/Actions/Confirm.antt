-- ===== src/Actions/Confirm.antt =====
-- apps/web/src/hooks/use-armed-confirm.ts: the two-press destructive button, as the task composer
-- (apps/web/src/components/task-composer.tsx) uses it for Reject.
use lgtm.Prelude.{
  ℕ, suc, ◌+◌, ◌*◌, ◌≤◌, ◌≡◌, refl, Bool, true, false, not, ◌&&◌, List, [], ◌∷◌, arith,
  if◌then◌else◌,
}

-- a press of the button, a pointer pressed on it or elsewhere, a key, the timeout, and the start of
-- another action
pub data Event : Type 0 where
  press : Event
  -- whether the pointer is on the button
  pointer_down : Bool → Event
  -- whether the key is Escape
  key_down : Bool → Event
  timeout other_action : Event

-- whether the button is armed, and whether the press fires
unfoldable pub pressed : Bool → Bool × Bool
pressed armed = if armed then (false, true) else (true, false)

-- the listeners are there, and the timer runs, only while the button is armed
unfoldable pub step : Event → Bool → Bool × Bool
unfolding pressed
step press armed = pressed armed
step (pointer_down inside) armed = (armed && inside, false)
step (key_down escape) armed = (armed && not escape, false)
step timeout armed = (false, false)
step other_action armed = (false, false)

-- how often the button fires
unfoldable pub fires : List Event → Bool → ℕ
unfolding step
fires [] armed = 0
fires (e ∷ es) armed =
    let (armed', fired) = step e armed in
    let later = fires es armed' in if fired then suc later else later

abbrev pub presses : List Event → ℕ
presses [] = 0
presses (press ∷ es) = suc (presses es)
presses (_ ∷ es) = presses es

abbrev pub disarms : Event → Bool
disarms press = false
disarms (pointer_down inside) = not inside
disarms (key_down escape) = escape
disarms timeout = true
disarms other_action = true

-- every press is followed at once by what disarms the button
abbrev pub hesitant : List Event → Bool
hesitant [] = true
hesitant (press ∷ []) = true
hesitant (press ∷ e ∷ es) = disarms e && hesitant es
hesitant (_ ∷ es) = hesitant es

abbrev as_bit : Bool → ℕ
as_bit true = 1
as_bit false = 0

fires-presses_from :
    (es : List Event) (armed : Bool) → 2 * fires es armed ≤ presses es + as_bit armed
unfolding fires
fires-presses_from [] armed = omega arith
fires-presses_from (press ∷ es) armed =
    ground (arith, fires-presses_from es true, fires-presses_from es false)
fires-presses_from (_ ∷ es) armed =
    ground (arith, fires-presses_from es true, fires-presses_from es false)

-- The button fires at most once for every two presses.
pub fires-presses : (es : List Event) → 2 * fires es false ≤ presses es
fires-presses es = omega (arith, fires-presses_from es false)

-- A pointer elsewhere, Escape, the timeout or another action behind each press keeps the button
-- from ever firing.
pub fires-hesitant : (es : List Event) → hesitant es ≡ true → fires es false ≡ 0
unfolding fires
fires-hesitant [] h = refl
fires-hesitant (press ∷ []) h = ground arith
fires-hesitant (press ∷ e ∷ es) h = ground (arith, fires-hesitant es)
fires-hesitant (_ ∷ es) h = ground (arith, fires-hesitant es)
