-- ===== src/Page/Saved.antt =====
-- From the editor through the save loop: the page of apps/web/src/routes/scratchpads_.$id.tsx
-- around the editor of apps/web/src/components/markdown-editor.tsx.
use lgtm.Prelude.{
  ℕ, suc, ◌-◌, ◌≤◌, ◌≡◌, refl, sym, ◌∙◌, ap, Bool, true, false, not, ◌&&◌, none, List, [], ◌∷◌,
  arith, Text, last_or,
}
use lgtm.Autosave
use lgtm.Autosave.{Document, open_document}
use lgtm.Autosave.Latest.{
  remaining, IsBehind, IsCurrent, open_document-IsCurrent, on_markdown-IsCurrent, land-IsCurrent,
  settle-IsCurrent, land-remaining, settle-remaining, outstanding-none, sent-eq-trail,
}
use lgtm.Editor
use lgtm.Editor.{Editor, Output, on_markdown, on_headings, mount}
use lgtm.Editor.Laws.{markdowns, typed, last-step, step-pending, typed-cons, unmount-emitted}
use lgtm.Page.{Event, editor, resolved, rejected, saved_shown, Page, receive, open_page, step, run}

abbrev pub is_rejection : Event → Bool
is_rejection (rejected _) = true
is_rejection _ = false

abbrev pub succeeds : List Event → Bool
succeeds [] = true
succeeds (e ∷ es) = not (is_rejection e) && succeeds es

-- what happens in the editor
abbrev pub editing : List Event → List Editor.Event
editing [] = []
editing (editor e ∷ es) = e ∷ editing es
editing (_ ∷ es) = editing es

abbrev pub is_quiet : Event → Bool
is_quiet resolved = true
is_quiet saved_shown = true
is_quiet _ = false

abbrev pub quiet : List Event → Bool
quiet [] = true
quiet (e ∷ es) = is_quiet e && quiet es

abbrev pub landings : List Event → ℕ
landings [] = 0
landings (resolved ∷ es) = suc (landings es)
landings (_ ∷ es) = landings es

module _ {R : Type 0} (request : Text → R) where
  receive-IsCurrent :
      (content : Text) (out : List Output) (d : Document R)
      → IsCurrent request content d
      → IsCurrent request content (receive request out d)
        × ((receive request out d).latest ≡ last_or d.latest (markdowns out))
  unfolding receive
  receive-IsCurrent content [] d h = (h, refl)
  receive-IsCurrent content (on_markdown c ∷ out) d h =
      let (h', e) = on_markdown-IsCurrent request content c d in
      let (k, e') = receive-IsCurrent content out (Autosave.on_markdown request c d) h' in
      (k, e' ∙ ap (λ l. last_or l (markdowns out)) e)
  receive-IsCurrent content (on_headings _ ∷ out) d h = receive-IsCurrent content out d h

  -- the document holds what the editor last emitted
  record IsSynced (content : Text) (p : Page R) : Type 0 where
    store : IsCurrent request content p.store
    emitted : p.store.latest ≡ p.view.emitted

  step-IsSynced :
      (content : Text) (e : Event) (p : Page R)
      → is_rejection e ≡ false
      → IsSynced content p
      → IsSynced content (step request e p)
  unfolding step
  step-IsSynced content (editor e) p ok h =
      let out = (Editor.step e p.view).1 in
      let (k, latest) = receive-IsCurrent content out p.store h.store in
      record {
        store = k;
        emitted = latest ∙ ap (λ l. last_or l (markdowns out)) h.emitted ∙ last-step e p.view;
      }
  step-IsSynced content resolved p ok h =
      let (k, latest) = land-IsCurrent request content p.store h.store in
      record { store = k; emitted = latest ∙ h.emitted }
  step-IsSynced content (rejected reason) p ok h = cc
  step-IsSynced content saved_shown p ok h =
      let (k, latest) = settle-IsCurrent request content p.store h.store in
      record { store = k; emitted = latest ∙ h.emitted }

  run-IsSynced :
      (content : Text) (es : List Event) (p : Page R)
      → succeeds es ≡ true
      → IsSynced content p
      → IsSynced content (run request es p)
  unfolding run
  run-IsSynced content [] p ok h = h
  run-IsSynced content (e ∷ es) p ok h =
      run-IsSynced content es (step request e p) (ground arith)
        (step-IsSynced content e p (ground arith) h)

  run-pending :
      (es : List Event) (p : Page R)
      → (run request es p).view.pending ≡ typed p.view.pending (editing es)
  unfolding run step
  run-pending [] p = refl
  run-pending (editor e ∷ es) p =
      run-pending es (step request (editor e) p)
      ∙ ap (λ v. typed v (editing es)) (step-pending e p.view)
      ∙ sym (typed-cons p.view.pending e (editing es))
  run-pending (resolved ∷ es) p = run-pending es (step request resolved p)
  run-pending (rejected r ∷ es) p = run-pending es (step request (rejected r) p)
  run-pending (saved_shown ∷ es) p = run-pending es (step request saved_shown p)

  run-quiet-remaining :
      (es : List Event) (p : Page R)
      → quiet es ≡ true
      → IsBehind request p.store
      → remaining request (run request es p).store ≡ remaining request p.store - landings es
  unfolding run step
  run-quiet-remaining [] p q h = omega arith
  run-quiet-remaining (resolved ∷ es) p q h =
      let (behind, less) = land-remaining request p.store h in
      omega (arith, run-quiet-remaining es (step request resolved p) q behind)
  run-quiet-remaining (saved_shown ∷ es) p q h =
      let (behind, same) = settle-remaining request p.store h in
      omega (arith, run-quiet-remaining es (step request saved_shown p) q behind)
  run-quiet-remaining (_ ∷ es) p q h = cc

  run-quiet-view :
      (es : List Event) (p : Page R) → quiet es ≡ true → (run request es p).view ≡ p.view
  unfolding run step
  run-quiet-view [] p q = refl
  run-quiet-view (resolved ∷ es) p q = run-quiet-view es (step request resolved p) q
  run-quiet-view (saved_shown ∷ es) p q = run-quiet-view es (step request saved_shown p) q
  run-quiet-view (_ ∷ es) p q = cc

  quiet-succeeds : (es : List Event) → quiet es ≡ true → succeeds es ≡ true
  quiet-succeeds [] q = refl
  quiet-succeeds (resolved ∷ es) q = quiet-succeeds es q
  quiet-succeeds (saved_shown ∷ es) q = quiet-succeeds es q
  quiet-succeeds (_ ∷ es) q = cc

  step_unmount-view :
      (p : Page R) → (step request (editor Editor.unmount) p).view.emitted ≡ p.view.pending
  unfolding step
  step_unmount-view p = unmount-emitted p.view

  open_page-IsSynced : (content : Text) → IsSynced content (open_page request content)
  unfolding open_page mount open_document
  open_page-IsSynced content = record {
    store = open_document-IsCurrent request content;
    emitted = refl;
  }

  open_page-pending :
      (content : Text) (es : List Event)
      → (run request es (open_page request content)).view.pending ≡ typed content (editing es)
  unfolding open_page mount
  open_page-pending content es = run-pending es (open_page request content)

  remaining-le : (d : Document R) → remaining request d ≤ 2
  remaining-le d = ground arith

  -- the last request carries the text last emitted, once nothing is parked
  last-sent :
      (content : Text) (p : Page R)
      → IsSynced content p
      → p.store.queued ≡ none
      → last_or (request content) p.store.sent ≡ request p.view.emitted
  last-sent content p h unparked =
      ap (last_or (request content)) (sent-eq-trail request p.store unparked)
      ∙ h.store.current
      ∙ ap request h.emitted

  -- A page on which no request fails: when the editor is unmounted, with any edit still in its
  -- debounce, and then two requests succeed, nothing is in flight or parked, and the last request
  -- carries the text that was in the editor. (If no request was made, that text is the initial one.)
  pub saved_after_unmount :
      (content : Text) (es later : List Event)
      → succeeds es ≡ true
      → quiet later ≡ true
      → 2 ≤ landings later
      → let p = run request es (open_page request content) in
        let d = (run request later (step request (editor Editor.unmount) p)).store in
        (last_or (request content) d.sent ≡ request (typed content (editing es)))
        × (d.in_flight ≡ none)
        × (d.queued ≡ none)
  saved_after_unmount content es later ok q two =
      let p = run request es (open_page request content) in
      let p₁ = step request (editor Editor.unmount) p in
      let p' = run request later p₁ in
      let synced = run-IsSynced content es _ ok (open_page-IsSynced content) in
      let synced₁ = step-IsSynced content (editor Editor.unmount) p refl synced in
      let synced' = run-IsSynced content later p₁ (quiet-succeeds later q) synced₁ in
      let idle : remaining request p'.store ≡ 0 =
        omega (arith, run-quiet-remaining later p₁ q synced₁.store.behind, remaining-le p₁.store) in
      let unparked = outstanding-none request p'.store.queued (omega arith) in
      (
        last-sent content p' synced' unparked
            ∙ ap (λ (v : Editor). request v.emitted) (run-quiet-view later p₁ q)
            ∙ ap request (step_unmount-view p ∙ open_page-pending content es),
        outstanding-none request p'.store.in_flight (omega arith),
        unparked,
      )
