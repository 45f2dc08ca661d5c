-- ===== src/Frame/Polling/Intervals.antt =====
-- What the window runs for a page that polls (apps/web/src/routes/tasks.$id.tsx,
-- apps/web/src/routes/chats.$id.tsx).
use lgtm.Prelude.{
  ℕ, ◌≡◌, ◌↔◌, refl, sym, ap, ◌∙◌, Bool, true, false, none, some, List, [], ◌∷◌, length, ==_iff,
  arith, if◌then◌else◌, Bool-cases, Option-cases, inl, inr,
}
use lgtm.Frame.Polling.{
  Page, PageEvent, rendered, elapsed, left, poll, clean_up, same_bool, away, step, run,
}

abbrev pub intervals_of : Page → List ℕ
intervals_of s = elim s.cleanup [ none ↦ [] | some id ↦ id ∷ [] ]

abbrev pub expects : Page → Bool
expects s = if s.standing then s.live else false

abbrev pub armed : Page → Bool
armed s = elim s.cleanup [ none ↦ false | some _ ↦ true ]

-- the window runs the page's own interval and no other, exactly while the page stands and waits
abbrev pub IsPolling : Page → Type 0
IsPolling s = (s.intervals ≡ intervals_of s) × (armed s ≡ expects s)

-- the clean-up leaves no interval
clean_up-clears :
    (s : Page)
    → s.intervals ≡ intervals_of s
    → ((clean_up s).intervals ≡ [])
      × ((clean_up s).cleanup ≡ none)
      × ((clean_up s).standing ≡ s.standing)
unfolding clean_up
clean_up-clears s h = elim (Option-cases s.cleanup) [
  | inl e ↦ ground (arith, h, e)
  | inr (id, e) ↦ ground (arith, h, e, ==_iff id id)
]

poll-IsPolling :
    (s : Page) → s.standing ≡ true → s.intervals ≡ [] → s.cleanup ≡ none → IsPolling (poll s)
unfolding poll
poll-IsPolling s h k l = ground (arith, h, k, l)

-- a page that is away waits for nothing
away-idle : (s : Page) → IsPolling s → s.standing ≡ false → s.cleanup ≡ none
away-idle s h k = elim (Option-cases s.cleanup) [
  | inl e ↦ e
  | inr (id, e) ↦ ground (arith, h, e, k)
]

same_bool_eq : (a b : Bool) → same_bool a b ≡ true → a ≡ b
same_bool_eq a b h = ground arith

render-IsPolling : (live : Bool) (s : Page) → IsPolling s → IsPolling (step (rendered live) s)
unfolding step
render-IsPolling live s h = elim (Bool-cases s.standing) [
  | inr out ↦
      let idle = away-idle s h out in
      rw out
        (poll-IsPolling (record s { standing = true; live = live }) refl (rw (h.0, idle) refl) idle)
  | inl in_ ↦ elim (Bool-cases (same_bool live s.live)) [
    | inl same ↦ ground (arith, h, in_, same)
    | inr other ↦
        let (clear, idle, stands) = clean_up-clears s h.0 in
        let polls =
          poll-IsPolling (record (clean_up s) { live = live }) (stands ∙ in_) clear idle in
        ground (arith, in_, other, polls)
  ]
]

step-IsPolling : (e : PageEvent) (s : Page) → IsPolling s → IsPolling (step e s)
unfolding step
step-IsPolling (rendered live) s h = unfold step in render-IsPolling live s h
step-IsPolling (elapsed id) s h = ground arith
step-IsPolling left s h = ground (arith, h, clean_up-clears s h.0, away-idle s h)

run-IsPolling : (es : List PageEvent) (s : Page) → IsPolling s → IsPolling (run es s)
unfolding run
run-IsPolling [] s h = h
run-IsPolling (e ∷ es) s h = run-IsPolling es (step e s) (step-IsPolling e s h)

-- a run of renders and clean-ups from the first visit on
abbrev pub awaits : List PageEvent → Bool → Bool
awaits [] now = now
awaits (rendered live ∷ es) now = awaits es live
awaits (elapsed _ ∷ es) now = awaits es now
awaits (left ∷ es) now = awaits es false

step-expects : (e : PageEvent) (s : Page) → expects (step e s) ≡ awaits (e ∷ []) (expects s)
unfolding step poll clean_up
step-expects (rendered live) s = elim (Option-cases s.cleanup) [
  | inl e ↦ ground (arith, e)
  | inr (id, e) ↦ ground (arith, e)
]
step-expects (elapsed id) s = ground arith
step-expects left s = elim (Option-cases s.cleanup) [
  | inl e ↦ ground (arith, e)
  | inr (id, e) ↦ ground (arith, e)
]

awaits-cons :
    (e : PageEvent) (es : List PageEvent) (now : Bool)
    → awaits (e ∷ es) now ≡ awaits es (awaits (e ∷ []) now)
awaits-cons (rendered live) es now = refl
awaits-cons (elapsed id) es now = refl
awaits-cons left es now = refl

run-expects : (es : List PageEvent) (s : Page) → expects (run es s) ≡ awaits es (expects s)
unfolding run
run-expects [] s = refl
run-expects (e ∷ es) s =
    run-expects es (step e s)
    ∙ ap (awaits es) (step-expects e s)
    ∙ sym (awaits-cons e es (expects s))

-- However a page is visited, refetched and left, the window runs at most one interval for it: it
-- runs the one that the clean-up would clear exactly while the page stands and its last render
-- showed something under way, and none otherwise.
pub run-polls :
    (es : List PageEvent)
    → let s = run es away in
      (s.intervals ≡ intervals_of s)
      × ((length s.intervals ≡ 1) ↔ (awaits es false ≡ true))
      × ((s.intervals ≡ []) ↔ (awaits es false ≡ false))
run-polls es =
    let s = run es away in
    let h = run-IsPolling es away (refl, refl) in
    let waits = run-expects es away in
    elim (Option-cases s.cleanup) [
      | inl e ↦ ground (arith, h, waits, e)
      | inr (id, e) ↦ ground (arith, h, waits, e)
    ]
