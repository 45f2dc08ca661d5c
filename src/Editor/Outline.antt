-- ===== src/Editor/Outline.antt =====
-- `readHeadings` of apps/web/src/components/markdown-editor.tsx.
use mathlib.Core.Option
use lgtm.Prelude.{
  ℕ, zero, suc, ◌+◌, ◌≡◌, refl, sym, ◌∙◌, ap, List, [], ◌∷◌, ◌++◌, length, length-append, get_elem?,
  some, append_assoc, append-nil, arith,
}
use lgtm.Editor.{EditorHeading, HeadingNode, read_headings_from, read_headings}

abbrev pub at_index : ℕ → HeadingNode → EditorHeading
at_index i node = record { index = i; level = node.level; content = node.content }

-- the nodes numbered from `i`
abbrev number : ℕ → List HeadingNode → List EditorHeading
number i [] = []
number i (node ∷ nodes) = at_index i node ∷ number (suc i) nodes

read_headings_from-number :
    (done : List EditorHeading) (nodes : List HeadingNode)
    → read_headings_from done nodes ≡ done ++ number (length done) nodes
unfolding read_headings_from
read_headings_from-number done [] = sym (append-nil done)
read_headings_from-number done (node ∷ nodes) =
    let h = at_index (length done) node in
    let longer : length (done ++ h ∷ []) ≡ suc (length done) =
      omega (arith, length-append done (h ∷ [])) in
    read_headings_from-number (done ++ h ∷ []) nodes
    ∙ ap (λ n. (done ++ h ∷ []) ++ number n nodes) longer
    ∙ append_assoc done (h ∷ []) (number (suc (length done)) nodes)

get_elem?-number :
    (i k : ℕ) (nodes : List HeadingNode)
    → get_elem? (number i nodes) k ≡ Option.map (at_index (i + k)) (get_elem? nodes k)
get_elem?-number i k [] = refl
get_elem?-number i zero (node ∷ nodes) =
    let e : i ≡ i + zero = omega arith in ap (λ n. some (at_index n node)) e
get_elem?-number i (suc k) (node ∷ nodes) =
    let e : suc i + k ≡ i + suc k = omega arith in
    get_elem?-number (suc i) k nodes ∙ ap (λ n. Option.map (at_index n) (get_elem? nodes k)) e

-- The heading reported at a position is the heading node of the document at that position, with
-- that position as its index; there is one for each node.
pub get_elem?-read_headings :
    (k : ℕ) (nodes : List HeadingNode)
    → get_elem? (read_headings nodes) k ≡ Option.map (at_index k) (get_elem? nodes k)
unfolding read_headings
get_elem?-read_headings k nodes =
    let e : 0 + k ≡ k = omega arith in
    ap (λ l. get_elem? l k) (read_headings_from-number [] nodes)
    ∙ get_elem?-number 0 k nodes
    ∙ ap (λ n. Option.map (at_index n) (get_elem? nodes k)) e
