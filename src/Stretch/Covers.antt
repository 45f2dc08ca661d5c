-- ===== src/Stretch/Covers.antt =====
-- No text escapes the observer (apps/web/src/lib/lgtm/debug.ts).
use mathlib.Core.Path.{subst}
use lgtm.Prelude.{
  ℕ, zero, suc, ◌+◌, ◌≡◌, ◌⊎◌, inl, inr, refl, sym, ◌∙◌, Bool, true, false, ◌||◌, List, [], ◌∷◌,
  ◌++◌, Text, length, any, ◌==◌, ==_iff, All, arith, Bool-cases,
}
use lgtm.Stretch.{
  TextNode, settled_at, MutationRecord, character_data, child_list, Page, stretch, targets, deliver,
  count_from, stretch_dom, put_at, StretchEvent, rendered_text, rendered_nodes, delivered,
  disconnected, step, run,
}
use lgtm.Stretch.Settles.{stretch-keeps, stretch-settles, deliver-rests}

abbrev pub waits : ℕ → List ℕ → Bool
waits j is = any (λ i. i == j) is

waits-append : (j : ℕ) (is js : List ℕ) → waits j (is ++ js) ≡ (waits j is || waits j js)
waits-append j [] js = refl
waits-append j (i ∷ is) js = ground (arith, waits-append j is js)

waits-targets :
    (j : ℕ) (rs : List MutationRecord) (r : MutationRecord)
    → waits j (targets (rs ++ r ∷ [])) ≡ (waits j (targets rs) || waits j (targets (r ∷ [])))
waits-targets j [] r = refl
waits-targets j (character_data i ∷ rs) r = ground (arith, waits-targets j rs r)
waits-targets j (child_list is ∷ rs) r = ground (
  arith,
  waits-targets j rs r,
  waits-append j is (targets (rs ++ r ∷ [])),
  waits-append j is (targets rs),
)

All-waits : (P : ℕ → Type 0) (j : ℕ) (is : List ℕ) → All P is → waits j is ≡ true → P j
All-waits P j [] h w = absurd (ground (arith, w))
All-waits P j (i ∷ is) h w = elim (Bool-cases (i == j)) [
  | inl e ↦ subst P ((==_iff i j).0 e) h.0
  | inr e ↦ All-waits P j is h.1 (ground (arith, w, e))
]

-- a node that was added is among the targets of its record
shift : (k j : ℕ) → k + suc j ≡ suc k + j
shift k j = omega arith

added-covered :
    (k j : ℕ) (nodes : List TextNode)
    → (settled_at j nodes ≡ true) ⊎ (waits (k + j) (count_from k nodes) ≡ true)
unfolding settled_at
added-covered k j [] = inl refl
added-covered k zero (node ∷ nodes) = inr (ground arith)
added-covered k (suc j) (node ∷ nodes) = elim (added-covered (suc k) j nodes) [
  | inl e ↦ inl e
  | inr e ↦
      let later = subst (λ n. waits n (count_from (suc k) nodes) ≡ true) (sym (shift k j)) e in
      inr (ground (arith, later))
]

plus_zero : (k : ℕ) → k + 0 ≡ k
plus_zero k = omega arith

append-covered :
    (k j : ℕ) (nodes added : List TextNode)
    → settled_at j nodes ≡ true
    → (settled_at j (nodes ++ added) ≡ true)
      ⊎ (waits (k + j) (count_from (k + length nodes) added) ≡ true)
unfolding settled_at
append-covered k j [] added h = rw (plus_zero k) (added-covered k j added)
append-covered k zero (node ∷ nodes) added h = inl h
append-covered k (suc j) (node ∷ nodes) added h =
    rw (shift k j, shift k (length nodes)) (append-covered (suc k) j nodes added h)

zero_plus : (k : ℕ) → 0 + k ≡ k
zero_plus k = omega arith

first-covered :
    (j : ℕ) (nodes : List TextNode)
    → (settled_at j nodes ≡ true) ⊎ (waits j (count_from 0 nodes) ≡ true)
first-covered j nodes =
    subst (λ n. (settled_at j nodes ≡ true) ⊎ (waits n (count_from 0 nodes) ≡ true)) (zero_plus j)
      (added-covered 0 j nodes)

later-covered :
    (j : ℕ) (nodes added : List TextNode)
    → settled_at j nodes ≡ true
    → (settled_at j (nodes ++ added) ≡ true) ⊎ (waits j (count_from (length nodes) added) ≡ true)
later-covered j nodes added h =
    subst (λ n. (settled_at j (nodes ++ added) ≡ true) ⊎ (waits j (count_from n added) ≡ true))
      (zero_plus (length nodes))
      (subst
        (λ n.
          (settled_at j (nodes ++ added) ≡ true)
          ⊎ (waits n (count_from (0 + length nodes) added) ≡ true))
        (zero_plus j) (append-covered 0 j nodes added h))

put_at-other :
    (i j : ℕ) (value : Text) (nodes : List TextNode)
    → (i == j) ≡ false
    → settled_at j (put_at i value nodes) ≡ settled_at j nodes
unfolding settled_at
put_at-other i j value [] h = refl
put_at-other zero zero value (node ∷ nodes) h = absurd (ground (arith, h))
put_at-other zero (suc j) value (node ∷ nodes) h = refl
put_at-other (suc i) zero value (node ∷ nodes) h = refl
put_at-other (suc i) (suc j) value (node ∷ nodes) h =
    put_at-other i j value nodes (ground (arith, h))

-- every text of an observed page is settled, or the observer has a record that leads to it
abbrev pub IsCovered : Page → Type 0
IsCovered s =
    s.observed ≡ true
    → (j : ℕ) → (settled_at j s.nodes ≡ true) ⊎ (waits j (targets s.records) ≡ true)

module _ (fill : ℕ → Text) where
  deliver-settles :
      (s : Page) (j : ℕ)
      → (settled_at j s.nodes ≡ true) ⊎ (waits j (targets s.records) ≡ true)
      → settled_at j (deliver fill s).nodes ≡ true
  unfolding deliver
  deliver-settles s j (inl h) =
      stretch-keeps fill (targets s.records) j (record s { records = [] }) h
  deliver-settles s j (inr w) =
      let t = deliver fill s in
      All-waits (λ i. settled_at i t.nodes ≡ true) j (targets s.records)
        (stretch-settles fill (targets s.records) (record s { records = [] })) w

  step-IsCovered : (e : StretchEvent) (s : Page) → IsCovered s → IsCovered (step fill e s)
  unfolding step
  step-IsCovered (rendered_text i value) s h seen j = elim (Bool-cases (i == j)) [
    | inl e ↦ inr (ground (arith, seen, e, waits-targets j s.records (character_data i)))
    | inr e ↦ elim (h seen j) [
      | inl g ↦ inl (put_at-other i j value s.nodes e ∙ g)
      | inr w ↦ inr (ground (arith, seen, w, waits-targets j s.records (character_data i)))
    ]
  ]
  step-IsCovered (rendered_nodes added) s h seen j =
      let r = child_list (count_from (length s.nodes) added) in
      elim (h seen j) [
        | inr w ↦ inr (ground (arith, seen, w, waits-targets j s.records r))
        | inl g ↦ elim (later-covered j s.nodes added g) [
          | inl k ↦ inl k
          | inr k ↦ inr (
              ground (
                arith,
                seen,
                k,
                waits-targets j s.records r,
                waits-append j (count_from (length s.nodes) added) [],
              ))
        ]
      ]
  step-IsCovered delivered s h seen j = elim (Bool-cases s.observed) [
    | inl e ↦ inl (ground (arith, e, deliver-settles s j (h e j)))
    | inr e ↦ absurd (ground (arith, seen, e))
  ]
  step-IsCovered disconnected s h seen j = absurd (ground (arith, seen))

  run-IsCovered : (es : List StretchEvent) (s : Page) → IsCovered s → IsCovered (run fill es s)
  unfolding run
  run-IsCovered [] s h = h
  run-IsCovered (e ∷ es) s h = run-IsCovered es (step fill e s) (step-IsCovered e s h)

  stretch_dom-IsCovered : (nodes : List TextNode) → IsCovered (stretch_dom fill nodes)
  unfolding stretch_dom
  stretch_dom-IsCovered nodes seen j =
      let page : Page = record { nodes = nodes; observed = false; records = []; drawn = 0 } in
      let is = count_from 0 nodes in
      elim (first-covered j nodes) [
        | inl g ↦ inl (stretch-keeps fill is j page g)
        | inr w ↦ inl (
            All-waits (λ i. settled_at i (stretch fill is page).nodes ≡ true) j is
              (stretch-settles fill is page) w)
      ]

  -- However React writes texts and nodes in between, until the aid is disconnected: after the next
  -- callback of the observer, every text of the page is filler, blank, or in a script, a style or an
  -- editor; and the callback after that one changes nothing and leaves nothing waiting.
  pub stretched :
      (nodes : List TextNode) (es : List StretchEvent)
      → (run fill es (stretch_dom fill nodes)).observed ≡ true
      → let s = deliver fill (run fill es (stretch_dom fill nodes)) in
        ((j : ℕ) → settled_at j s.nodes ≡ true) × (deliver fill s ≡ record s { records = [] })
  stretched nodes es seen =
      let s = run fill es (stretch_dom fill nodes) in
      let covered = run-IsCovered es (stretch_dom fill nodes) (stretch_dom-IsCovered nodes) in
      (λ j. deliver-settles s j (covered seen j), deliver-rests fill s)
