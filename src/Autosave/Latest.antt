-- ===== src/Autosave/Latest.antt =====
-- The last edit in the save loop (apps/web/src/routes/scratchpads_.$id.tsx).
use lgtm.Prelude.{
  ℕ, suc, ◌+◌, ◌-◌, ◌≤◌, ◌≡◌, refl, sym, ◌∙◌, Bool, true, false, ◌&&◌, Option, none, List, [], ◌∷◌,
  ◌++◌, append-nil, arith, Text, refl, last_or, last_or-append,
}
use lgtm.Autosave.{
  Document, Event, resolved, saved_shown, open_document, on_markdown, land, settle, step, run,
}
use lgtm.Autosave.Order.{outstanding, trail, trail-on_markdown, trail-land, trail-settle}

-- neither an edit nor a failure
abbrev pub is_quiet : Event → Bool
is_quiet resolved = true
is_quiet saved_shown = true
is_quiet _ = false

abbrev pub quiet : List Event → Bool
quiet [] = true
quiet (e ∷ es) = is_quiet e && quiet es

abbrev pub landings : List Event → ℕ
landings [] = 0
landings (resolved ∷ es) = suc (landings es)
landings (_ ∷ es) = landings es

module _ {R : Type 0} (request : Text → R) where
  -- the requests that the loop has still to see through
  abbrev pub remaining : Document R → ℕ
  remaining d = outstanding d.in_flight + outstanding d.queued

  -- a parked text waits behind a request
  abbrev pub IsBehind : Document R → Type 0
  IsBehind d = outstanding d.queued ≤ outstanding d.in_flight

  pub land-remaining :
      (d : Document R)
      → IsBehind d
      → IsBehind (land request d) × (remaining (land request d) ≡ remaining d - 1)
  unfolding land
  land-remaining d h = ground arith

  pub settle-remaining :
      (d : Document R)
      → IsBehind d
      → IsBehind (settle request d) × (remaining (settle request d) ≡ remaining d)
  unfolding settle
  settle-remaining d h = ground arith

  pub on_markdown-remaining :
      (c : Text) (d : Document R)
      → IsBehind (on_markdown request c d) × (remaining (on_markdown request c d) ≤ 2)
  unfolding on_markdown
  on_markdown-remaining c d = ground arith

  run-quiet-remaining :
      (es : List Event) (d : Document R)
      → quiet es ≡ true
      → IsBehind d
      → remaining (run request es d) ≡ remaining d - landings es
  unfolding run step
  run-quiet-remaining [] d q h = omega arith
  run-quiet-remaining (resolved ∷ es) d q h =
      let (behind, less) = land-remaining d h in
      omega (arith, run-quiet-remaining es (land request d) q behind)
  run-quiet-remaining (saved_shown ∷ es) d q h =
      let (behind, same) = settle-remaining d h in
      omega (arith, run-quiet-remaining es (settle request d) q behind)
  run-quiet-remaining (_ ∷ es) d q h = cc

  run-quiet-trail :
      (es : List Event) (d : Document R)
      → quiet es ≡ true
      → trail request (run request es d) ≡ trail request d
  unfolding run step
  run-quiet-trail [] d q = refl
  run-quiet-trail (resolved ∷ es) d q = run-quiet-trail es (land request d) q ∙ trail-land request d
  run-quiet-trail (saved_shown ∷ es) d q =
      run-quiet-trail es (settle request d) q ∙ trail-settle request d
  run-quiet-trail (_ ∷ es) d q = cc

  pub outstanding-none : (o : Option Text) → outstanding o ≡ 0 → o ≡ none
  outstanding-none o h = ground arith

  pub sent-eq-trail : (d : Document R) → d.queued ≡ none → d.sent ≡ trail request d
  sent-eq-trail d e = rw e (sym (append-nil d.sent))

  -- Whatever the document was doing when a text is emitted, once two requests have succeeded
  -- with no further edit and no failure in between, nothing is in flight or parked, and the last
  -- request that was sent carries that text.
  pub latest_wins :
      (d : Document R) (c : Text) (es : List Event)
      → quiet es ≡ true
      → 2 ≤ landings es
      → let d' = run request es (on_markdown request c d) in
        (d'.in_flight ≡ none) × (d'.queued ≡ none) × (d'.sent ≡ d.sent ++ request c ∷ [])
  latest_wins d c es q two =
      let d₁ = on_markdown request c d in
      let d' = run request es d₁ in
      let (behind, most) = on_markdown-remaining c d in
      let idle : remaining d' ≡ 0 = omega (arith, run-quiet-remaining es d₁ q behind) in
      let unparked = outstanding-none d'.queued (omega arith) in
      (
        outstanding-none d'.in_flight (omega arith),
        unparked,
        sent-eq-trail d' unparked ∙ run-quiet-trail es d₁ q ∙ trail-on_markdown request c d,
      )

  latest-on_markdown : (c : Text) (d : Document R) → (on_markdown request c d).latest ≡ c
  unfolding on_markdown
  latest-on_markdown c d = ground arith

  latest-land : (d : Document R) → (land request d).latest ≡ d.latest
  unfolding land
  latest-land d = ground arith

  latest-settle : (d : Document R) → (settle request d).latest ≡ d.latest
  unfolding settle
  latest-settle d = ground arith

  -- a document, opened with `content`, in which every text but the latest is behind it
  pub record IsCurrent (content : Text) (d : Document R) : Type 0 where
    pub current : last_or (request content) (trail request d) ≡ request d.latest
    pub behind : IsBehind d

  pub open_document-IsCurrent : (content : Text) → IsCurrent content (open_document content)
  unfolding open_document
  open_document-IsCurrent content = record { current = refl; behind = omega arith }

  pub on_markdown-IsCurrent :
      (content c : Text) (d : Document R)
      → IsCurrent content (on_markdown request c d) × ((on_markdown request c d).latest ≡ c)
  on_markdown-IsCurrent content c d = (
    record {
      current = rw (trail-on_markdown request c d, latest-on_markdown c d, last_or-append);
      behind = (on_markdown-remaining c d).0;
    },
    latest-on_markdown c d,
  )

  pub land-IsCurrent :
      (content : Text) (d : Document R)
      → IsCurrent content d
      → IsCurrent content (land request d) × ((land request d).latest ≡ d.latest)
  land-IsCurrent content d h = (
    record {
      current = rw (trail-land request d, latest-land d) h.current;
      behind = (land-remaining d h.behind).0;
    },
    latest-land d,
  )

  pub settle-IsCurrent :
      (content : Text) (d : Document R)
      → IsCurrent content d
      → IsCurrent content (settle request d) × ((settle request d).latest ≡ d.latest)
  settle-IsCurrent content d h = (
    record {
      current = rw (trail-settle request d, latest-settle d) h.current;
      behind = (settle-remaining d h.behind).0;
    },
    latest-settle d,
  )
