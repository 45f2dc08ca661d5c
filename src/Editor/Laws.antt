-- ===== src/Editor/Laws.antt =====
-- The debounce of apps/web/src/components/markdown-editor.tsx.
use lgtm.Prelude.{
  ◌≡◌, ◌≢◌, refl, sym, ◌∙◌, ap, ◌⊎◌, true, false, List, [], ◌∷◌, ◌++◌, Text, text_eq, text_eq_iff,
  last_or, arith,
}
use lgtm.Editor.{
  Editor, Event, create, update, blur, timeout, unmount, Output, on_markdown, on_headings, mount,
  flush, step, run,
}

-- the texts that the owner received
abbrev pub markdowns : List Output → List Text
markdowns [] = []
markdowns (on_markdown content ∷ out) = content ∷ markdowns out
markdowns (on_headings _ ∷ out) = markdowns out

-- the text in the editor after the events, when it was mounted with `value`
abbrev pub typed : Text → List Event → Text
typed value [] = value
typed value (update content _ ∷ es) = typed content es
typed value (_ ∷ es) = typed value es

-- each text differs from the one in front of it, the first from `value`
abbrev pub Changes : Text → List Text → Type 0
Changes value [] = Unit
Changes value (x ∷ xs) = (x ≢ value) × Changes x xs

pub markdowns-append : (xs ys : List Output) → markdowns (xs ++ ys) ≡ markdowns xs ++ markdowns ys
markdowns-append [] ys = refl
markdowns-append (on_markdown c ∷ xs) ys = ap (λ l. c ∷ l) (markdowns-append xs ys)
markdowns-append (on_headings h ∷ xs) ys = markdowns-append xs ys

-- a text that differs from what was emitted has its timer running
abbrev IsArmed : Editor → Type 0
IsArmed s = text_eq s.pending s.emitted ≡ false → s.timer ≡ true

step-IsArmed : (e : Event) (s : Editor) → IsArmed s → IsArmed (step e s).0
unfolding step
step-IsArmed (create nodes) s h = ground arith
step-IsArmed (update c nodes) s h = ground arith
step-IsArmed blur s h = ground (arith, text_eq_iff s.pending s.pending)
step-IsArmed timeout s h = ground (arith, text_eq_iff s.pending s.pending)
step-IsArmed unmount s h = ground (arith, text_eq_iff s.pending s.pending)

run-IsArmed_from : (es : List Event) (s : Editor) → IsArmed s → IsArmed (run es s).0
unfolding run
run-IsArmed_from [] s h = h
run-IsArmed_from (e ∷ es) s h = run-IsArmed_from es (step e s).0 (step-IsArmed e s h)

-- At every moment after the editor is mounted, a text that differs from the last one emitted has
-- the debounce timer running, so it is going to be emitted.
pub run-IsArmed :
    (value : Text) (es : List Event)
    → (run es (mount value)).0.pending ≢ (run es (mount value)).0.emitted
    → (run es (mount value)).0.timer ≡ true
unfolding mount
run-IsArmed value es dirty =
    let s = (run es (mount value)).0 in
    run-IsArmed_from es (mount value) (ground (arith, text_eq_iff value value))
      (ground (arith, text_eq_iff s.pending s.emitted))

-- what one event does to the last text emitted
StepShape : Event → Editor → Type 0
StepShape e s =
    let (s', out) = step e s in
    ((markdowns out ≡ []) × (s'.emitted ≡ s.emitted))
    ⊎ ((markdowns out ≡ s'.emitted ∷ []) × (s'.emitted ≢ s.emitted))

step-StepShape : (e : Event) (s : Editor) → StepShape e s
unfolding step StepShape
step-StepShape (create nodes) s = ground arith
step-StepShape (update c nodes) s = ground arith
step-StepShape blur s = ground (arith, text_eq_iff s.pending s.emitted)
step-StepShape timeout s = ground (arith, text_eq_iff s.pending s.emitted)
step-StepShape unmount s = ground (arith, text_eq_iff s.pending s.emitted)

Changes-step :
    (e : Event) (s : Editor) (later : List Text)
    → Changes (step e s).0.emitted later
    → Changes s.emitted (markdowns (step e s).1 ++ later)
unfolding StepShape
Changes-step e s later h = ground (arith, step-StepShape e s)

run-Changes_from : (es : List Event) (s : Editor) → Changes s.emitted (markdowns (run es s).1)
unfolding run
run-Changes_from [] s = tt
run-Changes_from (e ∷ es) s =
    rw (markdowns-append (step e s).1 (run es (step e s).0).1)
      (Changes-step e s _ (run-Changes_from es (step e s).0))

pub last-step :
    (e : Event) (s : Editor) → last_or s.emitted (markdowns (step e s).1) ≡ (step e s).0.emitted
unfolding StepShape
last-step e s = ground (arith, step-StepShape e s)

pub step-pending : (e : Event) (s : Editor) → (step e s).0.pending ≡ typed s.pending (e ∷ [])
unfolding step
step-pending (create nodes) s = ground arith
step-pending (update c nodes) s = ground arith
step-pending blur s = ground arith
step-pending timeout s = ground arith
step-pending unmount s = ground arith

pub typed-cons :
    (v : Text) (e : Event) (es : List Event) → typed v (e ∷ es) ≡ typed (typed v (e ∷ [])) es
typed-cons v (update c nodes) es = refl
typed-cons v _ es = refl

pub run-pending : (es : List Event) (s : Editor) → (run es s).0.pending ≡ typed s.pending es
unfolding run
run-pending [] s = refl
run-pending (e ∷ es) s =
    run-pending es (step e s).0
    ∙ ap (λ v. typed v es) (step-pending e s)
    ∙ sym (typed-cons s.pending e es)

pub last-flush : (s : Editor) → last_or s.emitted (markdowns (flush s).1) ≡ s.pending
unfolding flush
last-flush s = ground (arith, text_eq_iff s.pending s.emitted)

-- The texts that the owner of an editor receives each differ from the one in front of it, and
-- the first from the initial value.
pub run-Changes :
    (value : Text) (es : List Event) → Changes value (markdowns (run es (mount value)).1)
unfolding mount
run-Changes value es = run-Changes_from es (mount value)

-- After the editor is unmounted nothing waits to be emitted.
pub unmount-emitted : (s : Editor) → (step unmount s).0.emitted ≡ s.pending
unfolding step
unmount-emitted s = ground (arith, text_eq_iff s.pending s.emitted)
