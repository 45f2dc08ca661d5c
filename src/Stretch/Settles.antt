-- ===== src/Stretch/Settles.antt =====
-- The observer comes to rest (apps/web/src/lib/lgtm/debug.ts).
use mathlib.Core.Path.{subst}
use lgtm.Prelude.{
  append_assoc, ℕ, zero, suc, ◌≡◌, inl, inr, refl, sym, ap, ◌∙◌, Bool, true, false, List, [], ◌∷◌,
  ◌++◌, Text, text_eq_refl, All, All-append, arith, Bool-cases,
}
use lgtm.Stretch.{
  TextNode, settled, filled, fill_at, settled_at, MutationRecord, character_data, child_list, Page,
  noted, replace, stretch, targets, deliver,
}

settled-filled : (next : Text) (node : TextNode) → settled (filled next node) ≡ true
unfolding settled
settled-filled next node = ground (arith, text_eq_refl next)

fill_at-settles :
    (i : ℕ) (next : Text) (nodes : List TextNode) → settled_at i (fill_at i next nodes) ≡ true
unfolding fill_at settled_at
fill_at-settles i next [] = refl
fill_at-settles zero next (node ∷ nodes) = ground (arith, settled-filled next node)
fill_at-settles (suc i) next (node ∷ nodes) = fill_at-settles i next nodes

fill_at-keeps :
    (i j : ℕ) (next : Text) (nodes : List TextNode)
    → settled_at j nodes ≡ true
    → settled_at j (fill_at i next nodes) ≡ true
unfolding fill_at settled_at
fill_at-keeps i j next [] h = refl
fill_at-keeps zero zero next (node ∷ nodes) h = ground (arith, h)
fill_at-keeps zero (suc j) next (node ∷ nodes) h = h
fill_at-keeps (suc i) zero next (node ∷ nodes) h = h
fill_at-keeps (suc i) (suc j) next (node ∷ nodes) h = fill_at-keeps i j next nodes h

targets-append :
    (rs : List MutationRecord) (i : ℕ)
    → targets (rs ++ character_data i ∷ []) ≡ targets rs ++ i ∷ []
targets-append [] i = refl
targets-append (character_data j ∷ rs) i = ap (λ is. j ∷ is) (targets-append rs i)
targets-append (child_list js ∷ rs) i =
    ap (λ is. js ++ is) (targets-append rs i) ∙ sym (append_assoc js (targets rs) (i ∷ []))

noted-All :
    (P : ℕ → Type 0) (observed : Bool) (rs : List MutationRecord) (i : ℕ)
    → All P (targets rs)
    → P i
    → All P (targets (noted observed (character_data i) rs))
noted-All P false rs i h p = h
noted-All P true rs i h p =
    subst (All P) (sym (targets-append rs i)) (All-append P (targets rs) (i ∷ []) h (p, tt))

module _ (fill : ℕ → Text) where
  -- the nodes that the observer would go through are settled
  abbrev pub AreSettled : List ℕ → Page → Type 0
  AreSettled is s = All (λ i. settled_at i s.nodes ≡ true) is

  replace-settles : (i : ℕ) (s : Page) → settled_at i (replace fill i s).nodes ≡ true
  unfolding replace
  replace-settles i s = elim (Bool-cases (settled_at i s.nodes)) [
    | inl e ↦ ground (arith, e)
    | inr e ↦ ground (arith, e, fill_at-settles i (fill s.drawn) s.nodes)
  ]

  replace-keeps :
      (i j : ℕ) (s : Page)
      → settled_at j s.nodes ≡ true
      → settled_at j (replace fill i s).nodes ≡ true
  unfolding replace
  replace-keeps i j s h = ground (arith, h, fill_at-keeps i j (fill s.drawn) s.nodes h)

  pub stretch-keeps :
      (is : List ℕ) (j : ℕ) (s : Page)
      → settled_at j s.nodes ≡ true
      → settled_at j (stretch fill is s).nodes ≡ true
  unfolding stretch
  stretch-keeps [] j s h = h
  stretch-keeps (i ∷ is) j s h = stretch-keeps is j (replace fill i s) (replace-keeps i j s h)

  pub stretch-settles : (is : List ℕ) (s : Page) → AreSettled is (stretch fill is s)
  unfolding stretch
  stretch-settles [] s = tt
  stretch-settles (i ∷ is) s = (
    stretch-keeps is i (replace fill i s) (replace-settles i s),
    stretch-settles is (replace fill i s),
  )

  AreSettled-keeps :
      (is : List ℕ) (i : ℕ) (s : Page) → AreSettled is s → AreSettled is (replace fill i s)
  AreSettled-keeps [] i s h = tt
  AreSettled-keeps (j ∷ is) i s h = (replace-keeps i j s h.0, AreSettled-keeps is i s h.1)

  -- what waits for the observer needs nothing of it
  abbrev pub Rests : Page → Type 0
  Rests s = AreSettled (targets s.records) s

  replace-idle : (i : ℕ) (s : Page) → settled_at i s.nodes ≡ true → replace fill i s ≡ s
  unfolding replace
  replace-idle i s h = simp h

  replace-records :
      (i : ℕ) (s : Page)
      → settled_at i s.nodes ≡ false
      → (replace fill i s).records ≡ noted s.observed (character_data i) s.records
  unfolding replace
  replace-records i s h = simp h

  replace-Rests : (i : ℕ) (s : Page) → Rests s → Rests (replace fill i s)
  replace-Rests i s h = elim (Bool-cases (settled_at i s.nodes)) [
    | inl e ↦ subst Rests (sym (replace-idle i s e)) h
    | inr e ↦
        subst (λ rs. AreSettled (targets rs) (replace fill i s)) (sym (replace-records i s e))
          (noted-All (λ j. settled_at j (replace fill i s).nodes ≡ true) s.observed s.records i
            (AreSettled-keeps (targets s.records) i s h) (replace-settles i s))
  ]

  stretch-Rests : (is : List ℕ) (s : Page) → Rests s → Rests (stretch fill is s)
  unfolding stretch
  stretch-Rests [] s h = h
  stretch-Rests (i ∷ is) s h = stretch-Rests is (replace fill i s) (replace-Rests i s h)

  stretch-idle : (is : List ℕ) (s : Page) → AreSettled is s → stretch fill is s ≡ s
  unfolding stretch
  stretch-idle [] s h = refl
  stretch-idle (i ∷ is) s h = ap (stretch fill is) (replace-idle i s h.0) ∙ stretch-idle is s h.1

  -- Once it has gone through what waited, the observer has only its own changes before it, and
  -- those need nothing of it.
  deliver-Rests : (s : Page) → Rests (deliver fill s)
  unfolding deliver
  deliver-Rests s = stretch-Rests (targets s.records) (record s { records = [] }) tt

  -- Whatever waits for the observer, its second callback from then on changes nothing, and nothing
  -- waits for it any more.
  pub deliver-rests :
      (s : Page) → deliver fill (deliver fill s) ≡ record (deliver fill s) { records = [] }
  deliver-rests s =
      let t = deliver fill s in
      unfold deliver in
      stretch-idle (targets t.records) (record t { records = [] }) (deliver-Rests s)
