-- ===== src/Prelude/Groups.antt =====
-- A JavaScript `Map` from keys to lists of items, filled by a loop that appends each item to the
-- list of its key; the entries stand in the order in which their keys were set.
pub mod Whole
use mathlib.Core.Path.{◌≡◌, refl, sym, ap, ◌∙◌}
use mathlib.Core.Logic.{◌↔◌, inl, inr}
use mathlib.Core.Bool.{Bool, true, false, not, ◌&&◌, ◌||◌}
use mathlib.Core.List.{List, [], ◌∷◌, ◌++◌, append-nil, append_assoc}
use native.Mathlib.Omega.{arith}
use lgtm.Prelude.Tests.{if◌then◌else◌, Bool-cases}
use lgtm.Prelude.Lists.{All, keep}

module _ {K A : Type 0} (same : K → K → Bool) (key : A → K) where
  unfoldable pub push : A → List (K × List A) → List (K × List A)
  push a [] = (key a, a ∷ []) ∷ []
  push a ((k, as_) ∷ entries) =
      let rest = push a entries in
      if same k (key a) then (k, as_ ++ a ∷ []) ∷ entries else (k, as_) ∷ rest

  unfoldable pub push_all : List (K × List A) → List A → List (K × List A)
  unfolding push
  push_all entries [] = entries
  push_all entries (a ∷ as_) = push_all (push a entries) as_

  -- the list of a key, empty if it is missing
  abbrev pub bucket : K → List (K × List A) → List A
  bucket k [] = []
  bucket k ((k', as_) ∷ entries) = if same k' k then as_ else bucket k entries

  abbrev has_key : K → List (K × List A) → Bool
  has_key k [] = false
  has_key k ((k', _) ∷ entries) = same k' k || has_key k entries

  abbrev distinct_keys : List (K × List A) → Bool
  distinct_keys [] = true
  distinct_keys ((k, _) ∷ entries) = not (has_key k entries) && distinct_keys entries

  abbrev pub under : K → A → Bool
  under k a = same (key a) k

  module _ (same_iff : (j k : K) → (same j k ≡ true) ↔ (j ≡ k)) where
    bucket-push :
        (k : K) (a : A) (entries : List (K × List A))
        → bucket k (push a entries) ≡ bucket k entries ++ (if under k a then a ∷ [] else [])
    unfolding push
    bucket-push k a [] = ground arith
    bucket-push k a ((k', as_) ∷ entries) = ground (
      arith,
      bucket-push k a entries,
      same_iff k' (key a),
      same_iff k' k,
      same_iff (key a) k,
      append-nil as_,
      append-nil (bucket k entries),
    )

    keep-under :
        (k : K) (a : A) (as_ : List A)
        → (if under k a then a ∷ [] else []) ++ keep (under k) as_ ≡ keep (under k) (a ∷ as_)
    keep-under k a as_ = elim (Bool-cases (under k a)) [
      | inl inside ↦ rw inside refl
      | inr outside ↦ rw outside refl
    ]

    push_all-bucket :
        (k : K) (entries : List (K × List A)) (as_ : List A)
        → bucket k (push_all entries as_) ≡ bucket k entries ++ keep (under k) as_
    unfolding push_all
    push_all-bucket k entries [] = sym (append-nil (bucket k entries))
    push_all-bucket k entries (a ∷ as_) =
        push_all-bucket k (push a entries) as_
        ∙ ap (λ l. l ++ keep (under k) as_) (bucket-push k a entries)
        ∙ append_assoc (bucket k entries) (if under k a then a ∷ [] else []) (keep (under k) as_)
        ∙ ap (λ l. bucket k entries ++ l) (keep-under k a as_)

    has_key-push :
        (k : K) (a : A) (entries : List (K × List A))
        → has_key k (push a entries) ≡ (has_key k entries || same (key a) k)
    unfolding push
    has_key-push k a [] = ground arith
    has_key-push k a ((k', _) ∷ entries) =
        ground (arith, has_key-push k a entries, same_iff k' (key a))

    push-distinct_keys :
        (a : A) (entries : List (K × List A))
        → distinct_keys entries ≡ true
        → distinct_keys (push a entries) ≡ true
    unfolding push
    push-distinct_keys a [] h = refl
    push-distinct_keys a ((k, _) ∷ entries) h = ground (
      arith,
      push-distinct_keys a entries,
      has_key-push k a entries,
      same_iff (key a) k,
      same_iff k (key a),
    )

    push_all-distinct_keys :
        (entries : List (K × List A)) (as_ : List A)
        → distinct_keys entries ≡ true
        → distinct_keys (push_all entries as_) ≡ true
    unfolding push_all
    push_all-distinct_keys entries [] h = h
    push_all-distinct_keys entries (a ∷ as_) h =
        push_all-distinct_keys (push a entries) as_ (push-distinct_keys a entries h)

    -- an entry holds what its key finds
    abbrev Owns : List (K × List A) → K × List A → Type 0
    Owns entries (k, as_) = bucket k entries ≡ as_

    Owns-cons :
        (k : K) (as_ : List A) (entries part : List (K × List A))
        → has_key k part ≡ false
        → All (Owns entries) part
        → All (Owns ((k, as_) ∷ entries)) part
    Owns-cons k as_ entries [] h all = tt
    Owns-cons k as_ entries ((k', as') ∷ part) h all = (
      ground (arith, all.0, same_iff k k', same_iff k' k),
      Owns-cons k as_ entries part (ground arith) all.1,
    )

    distinct_keys-Owns :
        (entries : List (K × List A)) → distinct_keys entries ≡ true → All (Owns entries) entries
    distinct_keys-Owns [] h = tt
    distinct_keys-Owns ((k, as_) ∷ entries) h = (
      ground (arith, same_iff k k),
      Owns-cons k as_ entries entries (ground arith) (distinct_keys-Owns entries (ground arith)),
    )

    -- an entry has the items of its key, in their order
    abbrev pub Gathers : List A → K × List A → Type 0
    Gathers as_ (k, group) = group ≡ keep (under k) as_

    Owns-Gathers :
        (as_ : List A) (part : List (K × List A))
        → All (Owns (push_all [] as_)) part
        → All (Gathers as_) part
    Owns-Gathers as_ [] h = tt
    Owns-Gathers as_ ((k, group) ∷ part) h =
        (sym h.0 ∙ push_all-bucket k [] as_, Owns-Gathers as_ part h.1)

    -- Every entry of the map has all the items of its key, in their order.
    pub push_all-Gathers : (as_ : List A) → All (Gathers as_) (push_all [] as_)
    push_all-Gathers as_ =
        Owns-Gathers as_ (push_all [] as_)
          (distinct_keys-Owns (push_all [] as_) (push_all-distinct_keys [] as_ refl))
