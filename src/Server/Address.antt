-- ===== src/Server/Address.antt =====
-- The address of a request of apps/web/src/lib/lgtm/server.ts.
use lgtm.Prelude.{ℕ, zero, suc, ◌≡◌, refl, [], ◌∷◌, ◌++◌, Text, arith}
use lgtm.Server.{ApiCall, strip_slashes, http_request}

abbrev pub slashes : ℕ → Text
slashes zero = []
slashes (suc n) = b'/' ∷ slashes n

strip_slashes-slashes : (n : ℕ) → strip_slashes (slashes n) ≡ []
unfolding strip_slashes
strip_slashes-slashes zero = refl
strip_slashes-slashes (suc n) = ground (arith, strip_slashes-slashes n)

strip_slashes-append : (s : Text) (n : ℕ) → strip_slashes (s ++ slashes n) ≡ strip_slashes s
unfolding strip_slashes
strip_slashes-append [] n = strip_slashes-slashes n
strip_slashes-append (c ∷ s) n = rw (strip_slashes-append s n)

-- However many slashes stand behind the configured address, the requests are the same.
pub http_request-slashes :
    (orchestrator token : Text) (call : ApiCall) (n : ℕ)
    → http_request (orchestrator ++ slashes n) token call ≡ http_request orchestrator token call
unfolding http_request
http_request-slashes orchestrator token call n = rw (strip_slashes-append orchestrator n)
