-- ===== src/Tasks/Review/Rejecting.antt =====
-- When a task is rejected (apps/web/src/components/task-composer.tsx).
use lgtm.Prelude.{
  ℕ, ◌+◌, ◌*◌, ◌≤◌, ◌≡◌, refl, Bool, true, false, some, List, [], ◌∷◌, ◌++◌, Text, text, text_eq,
  Option-cases, inl, inr, arith,
}
use lgtm.Types.{TaskStatus}
use lgtm.Drafts.{Action, follow_up_action}
use lgtm.Tasks.Composer.{follow_up}
use lgtm.Tasks.Review.{
  Review, mounted, approve_of, reject_of, begin, submit, approve, reject, change_text, show,
  ReviewEvent, changed_text, submitted, approved, rejected, pointed, keyed, expired, settled, shown,
  step, run,
}

abbrev bit : Bool → ℕ
bit true = 1
bit false = 0

abbrev pub rejections : List Text → ℕ
rejections [] = 0
rejections (name ∷ names) = bit (text_eq name (text "reject")) + rejections names

rejections-append :
    (names : List Text) (name : Text)
    → rejections (names ++ name ∷ []) ≡ rejections names + bit (text_eq name (text "reject"))
rejections-append [] name = omega arith
rejections-append (n ∷ names) name = omega (arith, rejections-append names name)

abbrev pub presses : List ReviewEvent → ℕ
presses [] = 0
presses (rejected ∷ es) = 1 + presses es
presses (_ ∷ es) = presses es

presses-cons :
    (e : ReviewEvent) (es : List ReviewEvent) → presses (e ∷ es) ≡ presses (e ∷ []) + presses es
presses-cons rejected es = omega arith
presses-cons (changed_text c) es = omega arith
presses-cons submitted es = omega arith
presses-cons approved es = omega arith
presses-cons (pointed b) es = omega arith
presses-cons (keyed b) es = omega arith
presses-cons expired es = omega arith
presses-cons (settled e) es = omega arith
presses-cons (shown id status) es = omega arith

-- what is spent so far: two for each rejection, and one while the button is armed
abbrev spent : Review → ℕ
spent s = 2 * rejections s.started + bit s.armed

begin-spent :
    (a : Action) (s : Review) → text_eq a.name (text "reject") ≡ false → spent (begin a s) ≤ spent s
unfolding begin
begin-spent a s h = ground (arith, h, rejections-append s.started a.name)

follow_up-name :
    (id body : Text) (a : Action)
    → follow_up_action id body ≡ some a
    → text_eq a.name (text "reject") ≡ false
unfolding follow_up_action text text_eq
follow_up-name id body a e = elim (Option-cases (follow_up false body)) [
  | inl nothing ↦ ground (arith, nothing, e)
  | inr (content, found) ↦ ground (arith, found, e)
]

follow_up-spent :
    (s : Review) (a : Action)
    → follow_up_action s.id s.box.draft ≡ some a
    → spent (begin a s) ≤ spent s
follow_up-spent s a e = begin-spent a s (follow_up-name s.id s.box.draft a e)

submit-spent : (s : Review) → spent (submit s) ≤ spent s
unfolding submit
submit-spent s = elim (Option-cases (follow_up_action s.id s.box.draft)) [
  | inl nothing ↦ ground (arith, nothing)
  | inr (a, found) ↦ ground (arith, found, follow_up-spent s a found)
]

approve_of-name : (id : Text) → text_eq (approve_of id).name (text "reject") ≡ false
unfolding approve_of text text_eq
approve_of-name id = refl

reject-spent : (s : Review) → spent (reject s) ≤ spent s + 1
unfolding reject begin
reject-spent s = ground (arith, rejections-append s.started (reject_of s.id).name)

step-spent :
    (remounts : Bool) (e : ReviewEvent) (s : Review)
    → spent (step remounts e s) ≤ spent s + presses (e ∷ [])
unfolding step approve change_text show mounted
step-spent remounts (changed_text c) s = ground arith
step-spent remounts submitted s = omega (arith, submit-spent s)
step-spent remounts approved s =
    ground (arith, begin-spent (approve_of s.id) s (approve_of-name s.id))
step-spent remounts rejected s = omega (arith, reject-spent s)
step-spent remounts (pointed inside) s = ground arith
step-spent remounts (keyed escape) s = ground arith
step-spent remounts expired s = ground arith
step-spent remounts (settled e) s = ground arith
step-spent remounts (shown id status) s = ground arith

run-spent :
    (remounts : Bool) (es : List ReviewEvent) (s : Review)
    → spent (run remounts es s) ≤ spent s + presses es
unfolding run
run-spent remounts [] s = omega arith
run-spent remounts (e ∷ es) s =
    omega
      (arith, run-spent remounts es (step remounts e s), step-spent remounts e s, presses-cons e es)

-- Whatever is typed and pressed, however the requests end, and through whichever tasks the page
-- goes: a rejection is started at most once for every two presses of Reject.
pub run-rejections :
    (remounts : Bool) (es : List ReviewEvent) (id : Text) (status : TaskStatus)
    → 2 * rejections (run remounts es (mounted id status)).started ≤ presses es
unfolding mounted
run-rejections remounts es id status = omega (arith, run-spent remounts es (mounted id status))
