-- ===== src/Prelude/Groups/Whole.antt =====
-- The lists of a map of groups, taken together.
use Prim.Native.Nat.{ℕ, suc}
use mathlib.Core.Nat as LibraryNat
use mathlib.Core.List as LibraryList
use mathlib.Core.Path.{◌≡◌, refl, sym, ap, ◌∙◌}
use mathlib.Core.Logic.{inl, inr}
use mathlib.Core.Bool.{Bool}
use mathlib.Core.List.{List, [], ◌∷◌, ◌++◌, append-nil, append_assoc, Perm, perm_middle}
use mathlib.Core.List.Perm
use lgtm.Prelude.Tests.{Bool-cases}
use lgtm.Prelude.Lists.{length}
use lgtm.Prelude.Sort.{insert, sort}
use lgtm.Prelude.Groups.{push, push_all}

append-perm_comm {ℓ} : {A : Type ℓ} (xs ys : List A) → Perm (xs ++ ys) (ys ++ xs)
append-perm_comm [] ys = rw (append-nil ys) (Perm.refl ys)
append-perm_comm (x ∷ xs) ys =
    Perm.trans (Perm.cons x (append-perm_comm xs ys)) (Perm.symm (perm_middle ys xs))

-- the native number of a number of the library
abbrev native : LibraryNat.ℕ → ℕ
native LibraryNat.zero = 0
native (LibraryNat.suc n) = suc (native n)

length-native {ℓ} : {A : Type ℓ} (xs : List A) → length xs ≡ native (LibraryList.length xs)
length-native [] = refl
length-native (x ∷ xs) = ap (λ n. suc n) (length-native xs)

-- Lists with the same elements are equally long.
pub length-perm {ℓ} : {A : Type ℓ} {xs ys : List A} → Perm xs ys → length xs ≡ length ys
length-perm {xs} {ys} p = length-native xs ∙ ap native (Perm.length-eq p) ∙ sym (length-native ys)

module _ {ℓ κ} {G : Type ℓ} {A : Type κ} (items : G → List A) where
  -- `groups.flatMap(items)`
  abbrev pub all_items : List G → List A
  all_items [] = []
  all_items (g ∷ gs) = items g ++ all_items gs

  module _ (le : G → G → Bool) where
    all_items-insert :
        (g : G) (gs : List G) → Perm (all_items (insert le g gs)) (items g ++ all_items gs)
    unfolding insert
    all_items-insert g [] = Perm.refl _
    all_items-insert g (h ∷ gs) = elim (Bool-cases (le g h)) [
      | inl before ↦ rw before (Perm.refl _)
      | inr after ↦ rw after (
          Perm.trans (Perm.append_left (items h) (all_items-insert g gs)) (
            rw
              (
                ← append_assoc (items h) (items g) (all_items gs),
                ← append_assoc (items g) (items h) (all_items gs),
              )
              (Perm.append_right (all_items gs) (append-perm_comm (items h) (items g)))))
    ]

    pub all_items-sort : (gs : List G) → Perm (all_items (sort le gs)) (all_items gs)
    unfolding sort
    all_items-sort [] = Perm.refl _
    all_items-sort (g ∷ gs) =
        Perm.trans (all_items-insert g (sort le gs))
          (Perm.append_left (items g) (all_items-sort gs))

abbrev pub entry_items : {K A : Type 0} → K × List A → List A
entry_items (k, as_) = as_

module _ {K A : Type 0} (same : K → K → Bool) (key : A → K) where
  all_items-push :
      (a : A) (entries : List (K × List A))
      → Perm (all_items entry_items (push same key a entries)) (a ∷ all_items entry_items entries)
  unfolding push
  all_items-push a [] = Perm.refl _
  all_items-push a ((k, as_) ∷ entries) = elim (Bool-cases (same k (key a))) [
    | inl e ↦
        rw (e, append_assoc as_ (a ∷ []) (all_items entry_items entries))
          (perm_middle as_ (all_items entry_items entries))
    | inr e ↦ rw e (
        Perm.trans (Perm.append_left as_ (all_items-push a entries))
          (perm_middle as_ (all_items entry_items entries)))
  ]

  pub all_items-push_all :
      (entries : List (K × List A)) (as_ : List A)
      → Perm
          (all_items entry_items (push_all same key entries as_))
          (all_items entry_items entries ++ as_)
  unfolding push_all
  all_items-push_all entries [] = rw (append-nil (all_items entry_items entries)) (Perm.refl _)
  all_items-push_all entries (a ∷ as_) =
      Perm.trans (all_items-push_all (push same key a entries) as_) (
        Perm.trans (Perm.append_right as_ (all_items-push a entries))
          (Perm.symm (perm_middle (all_items entry_items entries) as_)))
