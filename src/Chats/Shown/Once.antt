-- ===== src/Chats/Shown/Once.antt =====
-- The way out of a chat (apps/web/src/components/workspace-chat.tsx).
use lgtm.Prelude.{
  ℕ, suc, ◌+◌, ◌≡◌, refl, Bool, true, false, not, ◌&&◌, Option, none, some, List, [], ◌∷◌, ◌++◌,
  ◌<◌, ◌≤◌, ◌∙◌, ap, append-nil, Option-cases, if◌then◌else◌, Bool-cases, inl, inr, arith,
}
use lgtm.Types.{ChatTurn}
use lgtm.Chats.{is_person}
use lgtm.Chats.References.{Referenced}
use lgtm.Chats.Shown.{
  Row, question, answer, thinking, last_answer, is_at, row_of, rows_from, rows, ways_out,
  has_answer,
}

ways_out-append : (xs ys : List Row) → ways_out (xs ++ ys) ≡ ways_out xs + ways_out ys
ways_out-append [] ys = omega arith
ways_out-append (question t ∷ xs) ys = ways_out-append xs ys
ways_out-append (thinking ∷ xs) ys = ways_out-append xs ys
ways_out-append (answer w t f r true ∷ xs) ys = omega (arith, ways_out-append xs ys)
ways_out-append (answer w t f r false ∷ xs) ys = ways_out-append xs ys

module _ (all : Referenced) where
  -- under a turn that is not the last answer there is no way out
  ways_out-elsewhere :
      (pending : Bool) (last : Option ℕ) (i : ℕ) (turn : ChatTurn) (rest : List Row)
      → (is_at last i && not pending) ≡ false
      → ways_out (row_of all pending last i turn ∷ rest) ≡ ways_out rest
  unfolding row_of
  ways_out-elsewhere pending last i turn rest h = elim (Bool-cases (is_person turn.role)) [
    | inl asks ↦ rw asks refl
    | inr answers ↦ rw (answers, h) refl
  ]

  ways_out-passed :
      (pending : Bool) (j i : ℕ) (turns : List ChatTurn)
      → j < i
      → ways_out (rows_from all pending (some j) i turns) ≡ 0
  unfolding rows_from
  ways_out-passed pending j i [] h = refl
  ways_out-passed pending j i (turn ∷ turns) h =
      ways_out-elsewhere pending (some j) i turn (rows_from all pending (some j) (suc i) turns)
        (ground (arith, h))
      ∙ ways_out-passed pending j (suc i) turns (omega arith)

  ways_out-pending :
      (last : Option ℕ) (i : ℕ) (turns : List ChatTurn)
      → ways_out (rows_from all true last i turns) ≡ 0
  unfolding rows_from
  ways_out-pending last i [] = refl
  ways_out-pending last i (turn ∷ turns) =
      ways_out-elsewhere true last i turn (rows_from all true last (suc i) turns) (ground arith)
      ∙ ways_out-pending last (suc i) turns

  ways_out-unanswered :
      (pending : Bool) (i : ℕ) (turns : List ChatTurn)
      → ways_out (rows_from all pending none i turns) ≡ 0
  unfolding rows_from
  ways_out-unanswered pending i [] = refl
  ways_out-unanswered pending i (turn ∷ turns) =
      ways_out-elsewhere pending none i turn (rows_from all pending none (suc i) turns) refl
      ∙ ways_out-unanswered pending (suc i) turns

  ways_out-answered :
      (i : ℕ) (turns : List ChatTurn) (j : ℕ)
      → last_answer i turns ≡ some j
      → (ways_out (rows_from all false (some j) i turns) ≡ 1) × (i ≤ j) × (has_answer turns ≡ true)
  unfolding rows_from last_answer
  ways_out-answered i [] j h = cc
  ways_out-answered i (turn ∷ turns) j h = elim (Option-cases (last_answer (suc i) turns)) [
    | inr (k, later) ↦
        let e : last_answer (suc i) turns ≡ some j = ground (arith, later, h) in
        let (one, below, answered) = ways_out-answered (suc i) turns j e in
        (
          ways_out-elsewhere false (some j) i turn (rows_from all false (some j) (suc i) turns)
                (ground (arith, below))
              ∙ one,
          omega arith,
          ground (arith, answered),
        )
    | inl last ↦ elim (Bool-cases (is_person turn.role)) [
      | inl asks ↦ let e : none ≡ some j = ground (arith, last, asks, h) in cc
      | inr answers ↦
          let e : i ≡ j = ground (arith, last, answers, h) in
          (
            unfold row_of in ground (arith, answers, e, ways_out-passed false j (suc i) turns),
            omega arith,
            ground (arith, answers),
          )
    ]
  ]

  unanswered :
      (i : ℕ) (turns : List ChatTurn) → last_answer i turns ≡ none → has_answer turns ≡ false
  unfolding last_answer
  unanswered i [] h = refl
  unanswered i (turn ∷ turns) h = elim (Option-cases (last_answer (suc i) turns)) [
    | inr (k, later) ↦ ground (arith, later, h)
    | inl last ↦ ground (arith, last, h, unanswered (suc i) turns last)
  ]

  -- The way out of a chat stands in it once, however many answers there are, as soon as there is
  -- an answer, and not at all while the next answer is awaited.
  pub ways_out-rows :
      (pending : Bool) (turns : List ChatTurn)
      → ways_out (rows all pending turns) ≡ (if not pending && has_answer turns then 1 else 0)
  unfolding rows
  ways_out-rows true turns =
      ways_out-append (rows_from all true (last_answer 0 turns) 0 turns) (thinking ∷ [])
      ∙ omega (arith, ways_out-pending (last_answer 0 turns) 0 turns)
  ways_out-rows false turns =
      ap ways_out (append-nil (rows_from all false (last_answer 0 turns) 0 turns))
      ∙ elim (Option-cases (last_answer 0 turns)) [
        | inl no_answer ↦
            rw (no_answer, unanswered 0 turns no_answer) (ways_out-unanswered false 0 turns)
        | inr (j, last) ↦
            let (one, _, answered) = ways_out-answered 0 turns j last in rw (last, answered) one
      ]
