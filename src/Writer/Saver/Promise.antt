-- ===== src/Writer/Saver/Promise.antt =====
-- What the line "Saved" promises on a page with an editor and a save loop
-- (apps/web/src/routes/scratchpads_.$id.tsx, skills_.$id.tsx, todos_.$id.tsx).
use lgtm.Prelude.{
  ◌≡◌, refl, sym, ap, ◌∙◌, true, false, Option, none, some, List, [], ◌∷◌, Text, last_or, arith,
  text_eq_iff,
}
use lgtm.Editor
use lgtm.Editor.{Editor, Output, on_markdown, on_headings, mount}
use lgtm.Editor.Laws.{markdowns, typed, last-step, run-pending, run-IsArmed}
use lgtm.Writer.Saver.{
  Saver, arrived, PageEvent, edited, resolved, rejected, rested, SavedPage, served, receive,
  open_page, step, run,
}

-- what happens in the editor
abbrev pub editing : List PageEvent → List Editor.Event
editing [] = []
editing (edited e ∷ es) = e ∷ editing es
editing (_ ∷ es) = editing es

-- an editor with no timer has emitted the text that stands in it
settled_text :
    (value : Text) (es : List Editor.Event)
    → (Editor.run es (mount value)).0.timer ≡ false
    → (Editor.run es (mount value)).0.emitted ≡ typed value es
unfolding mount
settled_text value es quiet =
    let s = (Editor.run es (mount value)).0 in
    let pending : s.pending ≡ typed value es = run-pending es (mount value) in
    ground (arith, quiet, run-IsArmed value es, pending, text_eq_iff s.pending s.emitted)

module _ {D R : Type 0} {keeps : Text → Text} (S : Saver D keeps) (request : Text → R)
    (apply : R → Text → Text) (writes : (t s : Text) → apply (request t) s ≡ keeps t) where
  served-arrived :
      (o : Option Text) (kept : Text) → served S request apply o kept ≡ arrived keeps o kept
  served-arrived none kept = refl
  served-arrived (some x) kept = writes x kept

  receive-IsTrue :
      (kept : Text) (out : List Output) (d : D)
      → S.IsTrue kept d
      → S.IsTrue kept (receive S request apply out d)
        × (S.latest (receive S request apply out d) ≡ last_or (S.latest d) (markdowns out))
  unfolding receive
  receive-IsTrue kept [] d h = (h, refl)
  receive-IsTrue kept (on_markdown c ∷ out) d h =
      let (h', e) = receive-IsTrue kept out (S.save c d) (S.save-IsTrue kept c d h) in
      (h', e ∙ ap (λ l. last_or l (markdowns out)) (S.save-latest c d))
  receive-IsTrue kept (on_headings _ ∷ out) d h = receive-IsTrue kept out d h

  -- what the loop claims holds, and it has the text that the editor emitted last
  abbrev IsHonest : SavedPage D → Type 0
  IsHonest s = S.IsTrue s.kept s.store × (S.latest s.store ≡ s.view.emitted)

  step-IsHonest :
      (e : PageEvent) (s : SavedPage D) → IsHonest s → IsHonest (step S request apply e s)
  unfolding step
  step-IsHonest (edited e) s (h, k) =
      let (h', latest) = receive-IsTrue s.kept (Editor.step e s.view).1 s.store h in
      (h', latest ∙ ap (λ l. last_or l (markdowns (Editor.step e s.view).1)) k ∙ last-step e s.view)
  step-IsHonest resolved s (h, k) = (
    rw (served-arrived (S.in_flight s.store) s.kept) (S.land-IsTrue s.kept s.store h),
    S.land-latest s.store ∙ k,
  )
  step-IsHonest (rejected reason reached) s (h, k) = (
    rw (served-arrived (S.in_flight s.store) s.kept)
        (S.fail-IsTrue reason reached s.kept s.store h),
    S.fail-latest reason s.store ∙ k,
  )
  step-IsHonest rested s (h, k) = (S.rest-IsTrue s.kept s.store h, S.rest-latest s.store ∙ k)

  run-IsHonest :
      (es : List PageEvent) (s : SavedPage D) → IsHonest s → IsHonest (run S request apply es s)
  unfolding run
  run-IsHonest [] s h = h
  run-IsHonest (e ∷ es) s h = run-IsHonest es (step S request apply e s) (step-IsHonest e s h)

  -- the editor of the page is an editor that went through its own events
  run-view :
      (es : List PageEvent) (s : SavedPage D)
      → (run S request apply es s).view ≡ (Editor.run (editing es) s.view).0
  unfolding run step Editor.run
  run-view [] s = refl
  run-view (edited e ∷ es) s = run-view es (step S request apply (edited e) s)
  run-view (resolved ∷ es) s = run-view es (step S request apply resolved s)
  run-view (rejected r reached ∷ es) s = run-view es (step S request apply (rejected r reached) s)
  run-view (rested ∷ es) s = run-view es (step S request apply rested s)

  -- Of every save loop, whatever is typed, however the requests end, and whether or not one that
  -- failed had reached the orchestrator: when the loop says "Saved" and no edit waits for its
  -- debounce, the orchestrator keeps what it makes of the text that stands in the editor. The request for a
  -- text is taken to make that of it, whatever was kept before.
  pub kept-typed :
      (content : Text) (es : List PageEvent)
      → let s = run S request apply es (open_page S request apply content) in
        S.says_saved s.store ≡ true
        → s.view.timer ≡ false
        → s.kept ≡ keeps (typed content (editing es))
  unfolding open_page mount
  kept-typed content es said quiet =
      let s₀ = open_page S request apply content in
      let s = run S request apply es s₀ in
      let (h, latest) =
        run-IsHonest es s₀ (S.opened-IsTrue content content, S.opened-latest content) in
      let view : s.view ≡ (Editor.run (editing es) (mount content)).0 = run-view es s₀ in
      let flushed =
        settled_text content (editing es) (ap (λ (v : Editor). v.timer) (sym view) ∙ quiet) in
      S.promise s.kept s.store h said
      ∙ ap keeps (latest ∙ ap (λ (v : Editor). v.emitted) view ∙ flushed)
