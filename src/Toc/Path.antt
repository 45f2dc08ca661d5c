-- ===== src/Toc/Path.antt =====
-- The line through the rows of the outline (apps/web/src/components/editor-toc.tsx).
use lgtm.Prelude.{
  ℕ, zero, suc, ◌+◌, ◌≡◌, refl, ap, ◌∙◌, sym, Option, none, some, List, [], ◌∷◌, ◌++◌, append_assoc,
  arith,
}
use lgtm.Toc.{Segment, Plane, Command, line, arrival, end_of, path_from, line_path}

module _ {C : Type 0} (plane : Plane C) where
  path_from-append :
      (previous : Option (Segment C)) (segments : List (Segment C)) (m n : ℕ)
      → (rest : List (Command C)) × (path_from plane previous segments (m + n)
          ≡ path_from plane previous segments m ++ rest)
  unfolding path_from
  path_from-append previous [] m n = ([], refl)
  path_from-append previous (s ∷ segments) zero n =
      (path_from plane previous (s ∷ segments) (zero + n), refl)
  path_from-append previous (s ∷ segments) (suc m) n =
      let e : suc m + n ≡ suc (m + n) = omega arith in
      let (rest, ih) = path_from-append (some s) segments m n in
      let front = arrival plane previous s ++ line s.x (end_of plane s segments) ∷ [] in
      (
        rest,
        ap (path_from plane previous (s ∷ segments)) e
            ∙ ap (λ p. arrival plane previous s ++ line s.x (end_of plane s segments) ∷ p) ih
            ∙ sym (append_assoc (arrival plane previous s) _ rest),
      )

  -- The path through the first rows is where the path through more of them begins, its commands
  -- with their coordinates included, so how far along the line a row ends can be measured on the
  -- path that stops there.
  pub line_path-prefix :
      (segments : List (Segment C)) (m n : ℕ)
      → (rest : List (Command C)) × (line_path plane segments (m + n)
          ≡ line_path plane segments m ++ rest)
  unfolding line_path
  line_path-prefix segments m n = path_from-append none segments m n
