-- ===== src/Tasks/FilePath.antt =====
-- apps/web/src/components/file-path.tsx: a path with its directories dimmed.
use lgtm.Prelude.{
  ℕ, suc, ◌≡◌, refl, Bool, true, false, [], ◌∷◌, ◌++◌, Text, any, take, drop, take-append-drop,
  ◌==◌, arith, if◌then◌else◌,
}

abbrev pub is_slash : ℕ → Bool
is_slash c = c == b'/'

-- `path.lastIndexOf("/") + 1`
unfoldable pub cut_of : Text → ℕ
cut_of [] = 0
cut_of (c ∷ path) =
    let rest = cut_of path in if rest == 0 then (if is_slash c then 1 else 0) else suc rest

-- the dimmed part and the rest
unfoldable pub file_path : Text → Text × Text
unfolding cut_of
file_path path = (take (cut_of path) path, drop (cut_of path) path)

-- a text that is empty or ends in a slash
abbrev pub ends_in_slash : Text → Bool
ends_in_slash [] = true
ends_in_slash (c ∷ []) = is_slash c
ends_in_slash (_ ∷ d ∷ s) = ends_in_slash (d ∷ s)

no_cut : (path : Text) → cut_of path ≡ 0 → any is_slash path ≡ false
unfolding cut_of
no_cut [] h = refl
no_cut (c ∷ path) h = ground (arith, h, no_cut path)

after_cut : (path : Text) → any is_slash (drop (cut_of path) path) ≡ false
unfolding cut_of
after_cut [] = refl
after_cut (c ∷ path) = ground (arith, after_cut path, no_cut path)

before_cut : (path : Text) → ends_in_slash (take (cut_of path) path) ≡ true
unfolding cut_of
before_cut [] = refl
before_cut (c ∷ []) = ground arith
before_cut (c ∷ d ∷ path) = ground (arith, before_cut (d ∷ path))

-- The two parts of a path are the path, the dimmed one is empty or ends in a slash, and the other,
-- the name of the file, has no slash.
pub file_path-parts :
    (path : Text)
    → let (directories, name) = file_path path in
      (directories ++ name ≡ path)
      × (ends_in_slash directories ≡ true)
      × (any is_slash name ≡ false)
unfolding file_path
file_path-parts path = (take-append-drop (cut_of path) path, before_cut path, after_cut path)
