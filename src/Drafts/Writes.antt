-- ===== src/Drafts/Writes.antt =====
-- What the boxes write (apps/web/src/routes/memories.tsx, apps/web/src/routes/todos_.$id.tsx,
-- apps/web/src/components/todo-activity.tsx).
use lgtm.Prelude.{
  ap, ◌≡◌, ◌≢◌, ◌⊎◌, inl, inr, false, ◌||◌, Option, none, some, List, [], ◌∷◌, All, All-append,
  Text, text, text_eq, text_eq_iff, trim, is_empty, Option-cases, Bool-cases, arith,
}
use lgtm.Prelude.Trim.{trim-trim}
use lgtm.Types.{Memory}
use lgtm.Actions.{busy}
use lgtm.Server.{ApiCall}
use lgtm.Server.Calls.{update_memory, approve_memory, delete_memory}
use lgtm.Drafts.{
  Action, Box, Event, typed, submitted, other, settled, start, submit, settle, step, run, or_empty,
  memory_action, approve_action, delete_action,
}

-- a text that a memory may get: trimmed, not empty, and not the one that it has
abbrev pub IsEdit : Memory → Text → Type 0
IsEdit memory s = (trim s ≡ s) × (is_empty s ≡ false) × (s ≢ memory.content)

-- the calls that the row of a memory makes
pub data IsRowCall (memory : Memory) : ApiCall → Type 0 where
  edits :
      {call : ApiCall}
      → (s : Text) → IsEdit memory s
      → call ≡ update_memory memory.id s
      → IsRowCall memory call
  approves : {call : ApiCall} → call ≡ approve_memory memory.id → IsRowCall memory call
  deletes : {call : ApiCall} → call ≡ delete_memory memory.id → IsRowCall memory call

-- the row of a memory has its box and its other two buttons
abbrev pub IsRowEvent : Memory → Event (Option Text) → Type 0
IsRowEvent memory (other a) = (a ≡ approve_action memory) ⊎ (a ≡ delete_action memory)
IsRowEvent memory _ = Unit

-- the row's box: its name, the draft of a row that is not edited, and what it hands over
abbrev pub row : Memory → List (Event (Option Text)) → Box (Option Text) → Box (Option Text)
row memory = run (text "save") none (memory_action memory)

memory_action-IsRowCall :
    (memory : Memory) (draft : Option Text) (a : Action)
    → memory_action memory draft ≡ some a
    → IsRowCall memory a.call
unfolding memory_action
memory_action-IsRowCall memory draft a e =
    let edited = trim (or_empty draft) in
    elim (Bool-cases (is_empty edited || text_eq edited memory.content)) [
      | inl unchanged ↦ absurd (ground (arith, e, unchanged))
      | inr changed ↦
          edits edited
            (
              trim-trim (or_empty draft),
              ground (arith, changed),
              λ same. ground (arith, changed, (text_eq_iff edited memory.content).1 same),
            )
            (ground (arith, e, changed))
    ]

module _ (memory : Memory) where
  abbrev HasRowCalls : Box (Option Text) → Type 0
  HasRowCalls s = All (IsRowCall memory) s.calls

  start-HasRowCalls :
      (a : Action) (s : Box (Option Text))
      → IsRowCall memory a.call
      → HasRowCalls s
      → HasRowCalls (start (text "save") none (memory_action memory) a s)
  unfolding start
  start-HasRowCalls a s c h = elim (Bool-cases (busy s.actions)) [
    | inl waits ↦ rw waits h
    | inr free ↦ rw free (All-append (IsRowCall memory) s.calls (a.call ∷ []) h (c, tt))
  ]

  submit-none :
      (s : Box (Option Text))
      → memory_action memory s.draft ≡ none
      → step (text "save") none (memory_action memory) submitted s ≡ s
  unfolding step submit
  submit-none s e = ground (arith, e)

  submit-some :
      (a : Action) (s : Box (Option Text))
      → memory_action memory s.draft ≡ some a
      → step (text "save") none (memory_action memory) submitted s
        ≡ start (text "save") none (memory_action memory) a s
  unfolding step submit
  submit-some a s e = ground (arith, e)

  step-HasRowCalls :
      (e : Event (Option Text)) (s : Box (Option Text))
      → IsRowEvent memory e
      → HasRowCalls s
      → HasRowCalls (step (text "save") none (memory_action memory) e s)
  step-HasRowCalls (typed d) s ok h = elim (Bool-cases (busy s.actions)) [
    | inl waits ↦ unfold step in rw waits h
    | inr free ↦ unfold step in rw free h
  ]
  step-HasRowCalls submitted s ok h = elim (Option-cases (memory_action memory s.draft)) [
    | inl unchanged ↦ rw (submit-none s unchanged) h
    | inr (a, e) ↦
        rw (submit-some a s e)
          (start-HasRowCalls a s (memory_action-IsRowCall memory s.draft a e) h)
  ]
  step-HasRowCalls (other a) s (inl e) h =
      unfold step in start-HasRowCalls a s (approves (ap (λ (b : Action). b.call) e)) h
  step-HasRowCalls (other a) s (inr e) h =
      unfold step in start-HasRowCalls a s (deletes (ap (λ (b : Action). b.call) e)) h
  step-HasRowCalls (settled e) s ok h = unfold step settle in h

  -- Whatever is pressed and typed in the row of a memory, and however its actions end, every call
  -- that the row makes approves the memory, deletes it, or writes a text that is trimmed, is not
  -- empty, and is not the one that the memory has.
  pub row-IsRowCall :
      (es : List (Event (Option Text))) (s : Box (Option Text))
      → All (IsRowEvent memory) es
      → All (IsRowCall memory) s.calls
      → All (IsRowCall memory) (row memory es s).calls
  unfolding run
  row-IsRowCall [] s ok h = h
  row-IsRowCall (e ∷ es) s ok h =
      row-IsRowCall es (step (text "save") none (memory_action memory) e s) ok.1
        (step-HasRowCalls e s ok.0 h)
