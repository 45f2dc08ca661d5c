-- ===== src/Todos/Description/Latest.antt =====
-- The last edit of a description (apps/web/src/routes/todos_.$id.tsx).
use lgtm.Prelude.{
  ◌≡◌, refl, sym, ap, ◌∙◌, Bool, true, false, not, ◌&&◌, Option, none, some, List, [], ◌∷◌, ◌++◌,
  Text, text_eq_iff, text_eq_refl, last_or, last_or-append, arith, Option-cases, inl, inr,
}
use lgtm.Todos.Description.{
  Description, Event, markdown, resolved, rejected, open_description, land, step, run,
}

abbrev pub is_rejection : Event → Bool
is_rejection (rejected _) = true
is_rejection _ = false

abbrev pub succeeds : List Event → Bool
succeeds [] = true
succeeds (e ∷ es) = not (is_rejection e) && succeeds es

-- the last edit
abbrev pub last_edit : Text → List Event → Text
last_edit v [] = v
last_edit v (markdown md ∷ es) = last_edit md es
last_edit v (_ ∷ es) = last_edit v es

-- the text of the request that is waited for, or the latest
abbrev awaited_text : Text → Option Text → Text
awaited_text latest none = latest
awaited_text latest (some md) = md

module _ {R : Type 0} (request : Text → R) where
  -- the request in flight is the last one, and with none in flight the last one has the latest text;
  -- with no request yet, the text is the one that was there
  pub record IsFollowing (description : Text) (d : Description R) : Type 0 where
    pub awaited : last_or (request description) d.sent ≡ request (awaited_text d.latest d.in_flight)

  last-send :
      (description md : Text) (d : Description R)
      → last_or (request description) (d.sent ++ request md ∷ []) ≡ request md
  last-send description md d = last_or-append (request description) d.sent (request md ∷ [])

  land-IsFollowing :
      (description : Text) (d : Description R)
      → IsFollowing description d
      → IsFollowing description (land request d)
  unfolding land
  land-IsFollowing description d h = elim (Option-cases d.in_flight) [
    | inl rests ↦ ground (arith, rests, h.awaited)
    | inr (md, waits) ↦
        ground (arith, waits, h.awaited, text_eq_iff d.latest md, last-send description d.latest d)
  ]

  step-IsFollowing :
      (description : Text) (e : Event) (d : Description R)
      → is_rejection e ≡ false
      → IsFollowing description d
      → IsFollowing description (step request e d)
  unfolding step
  step-IsFollowing description (markdown md) d ok h =
      ground (arith, h.awaited, last-send description md d)
  step-IsFollowing description resolved d ok h = land-IsFollowing description d h
  step-IsFollowing description (rejected reason) d ok h = cc

  run-IsFollowing :
      (description : Text) (es : List Event) (d : Description R)
      → succeeds es ≡ true
      → IsFollowing description d
      → IsFollowing description (run request es d)
  unfolding run
  run-IsFollowing description [] d ok h = h
  run-IsFollowing description (e ∷ es) d ok h =
      run-IsFollowing description es (step request e d) (ground arith)
        (step-IsFollowing description e d (ground arith) h)

  step-latest :
      (e : Event) (d : Description R) → (step request e d).latest ≡ last_edit d.latest (e ∷ [])
  unfolding step
  step-latest (markdown md) d = ground arith
  step-latest resolved d = ground arith
  step-latest (rejected reason) d = ground arith

  last_edit-cons :
      (v : Text) (e : Event) (es : List Event)
      → last_edit v (e ∷ es) ≡ last_edit (last_edit v (e ∷ [])) es
  last_edit-cons v (markdown md) es = refl
  last_edit-cons v resolved es = refl
  last_edit-cons v (rejected reason) es = refl

  run-latest :
      (es : List Event) (d : Description R) → (run request es d).latest ≡ last_edit d.latest es
  unfolding run
  run-latest [] d = refl
  run-latest (e ∷ es) d =
      run-latest es (step request e d)
      ∙ ap (λ v. last_edit v es) (step-latest e d)
      ∙ sym (last_edit-cons d.latest e es)

  land-twice : (d : Description R) → (land request (land request d)).in_flight ≡ none
  unfolding land
  land-twice d = ground (arith, text_eq_refl d.latest)

  opened-IsFollowing : (description : Text) → IsFollowing description (open_description description)
  unfolding open_description
  opened-IsFollowing description = record { awaited = refl }

  opened-latest :
      (description : Text) (es : List Event)
      → (run request es (open_description description)).latest ≡ last_edit description es
  unfolding open_description
  opened-latest description es = run-latest es (open_description description)

  run_twice-in_flight :
      (d : Description R) → (run request (resolved ∷ resolved ∷ []) d).in_flight ≡ none
  unfolding run step
  run_twice-in_flight d = land-twice d

  -- If no request of a description fails and then two requests succeed, nothing is in flight and
  -- the last request carries the last edit. (With no edit that is the text that was there, and
  -- no request need be made.)
  pub description_latest :
      (description : Text) (es : List Event)
      → succeeds es ≡ true
      → let d =
          run request (resolved ∷ resolved ∷ []) (run request es (open_description description)) in
        (last_or (request description) d.sent ≡ request (last_edit description es))
        × (d.in_flight ≡ none)
  description_latest description es ok =
      let d = run request es (open_description description) in
      let d' = run request (resolved ∷ resolved ∷ []) d in
      let h = run-IsFollowing description (resolved ∷ resolved ∷ []) d refl (
        run-IsFollowing description es (open_description description) ok
          (opened-IsFollowing description)) in
      let idle = run_twice-in_flight d in
      (
        h.awaited
            ∙ ap (λ o. request (awaited_text d'.latest o)) idle
            ∙ ap request (run-latest (resolved ∷ resolved ∷ []) d ∙ opened-latest description es),
        idle,
      )
