-- ===== src/Listing/Tests.antt =====
-- Memories of two repositories (apps/web/src/routes/memories.tsx).
use lgtm.Prelude.{ℕ, suc, ◌≡◌, Bool, true, false, [], ◌∷◌, Text, leb, arith}
use lgtm.Types.{Memory}
use lgtm.Listing.Repositories.{newer_memory}

-- labels by their length
abbrev size : Text → ℕ
size [] = 0
size (_ ∷ s) = suc (size s)

abbrev shorter : Text → Text → Bool
shorter a b = leb (size a) (size b)

shorter_total : (a b : Text) → shorter a b ≡ false → shorter b a ≡ true
shorter_total a b h = ground arith

shorter_trans : (a b c : Text) → shorter a b ≡ true → shorter b c ≡ true → shorter a c ≡ true
shorter_trans a b c h k = ground arith

newer_memory_total : (a b : Memory) → newer_memory a b ≡ false → newer_memory b a ≡ true
newer_memory_total a b h = ground arith

newer_memory_trans :
    (a b c : Memory) → newer_memory a b ≡ true → newer_memory b c ≡ true → newer_memory a c ≡ true
newer_memory_trans a b c h k = ground arith
