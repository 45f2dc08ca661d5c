-- ===== src/TimeAgo/Ticker.antt =====
-- The ticker of apps/web/src/components/time-ago.tsx: one interval for all listeners.
use lgtm.Prelude.{
  ℕ, ◌≡◌, refl, Bool, true, false, not, List, [], ◌∷◌, ◌++◌, any, keep, ◌==◌, if◌then◌else◌, arith,
}

-- the set of listeners, each by a number, in the order of insertion, and whether `timer` is set
pub record Ticker : Type 0 where
  pub listeners : List ℕ
  pub timer : Bool

pub data Event : Type 0 where
  subscribe unsubscribe : ℕ → Event

unfoldable pub add_listener : ℕ → Ticker → Ticker
add_listener l t = record {
  listeners = if any (λ k. k == l) t.listeners then t.listeners else t.listeners ++ l ∷ [];
  timer = true;
}

abbrev pub none_left : List ℕ → Bool
none_left [] = true
none_left (_ ∷ _) = false

-- what `subscribe` returns
unfoldable pub remove_listener : ℕ → Ticker → Ticker
remove_listener l t =
    let rest = keep (λ k. not (k == l)) t.listeners in
    record { listeners = rest; timer = if none_left rest then false else t.timer }

unfoldable pub step : Event → Ticker → Ticker
unfolding add_listener remove_listener
step (subscribe l) t = add_listener l t
step (unsubscribe l) t = remove_listener l t

abbrev pub no_listeners : Ticker
no_listeners = record { listeners = []; timer = false }

unfoldable pub run : List Event → Ticker → Ticker
run [] t = t
run (e ∷ es) t = run es (step e t)

-- one round of the interval calls each listener
abbrev pub is_listed : ℕ → Ticker → Bool
is_listed l t = any (λ k. k == l) t.listeners

none_left-append : (ls : List ℕ) (l : ℕ) → none_left (ls ++ l ∷ []) ≡ false
none_left-append [] l = refl
none_left-append (k ∷ ls) l = refl

any-some : (ls : List ℕ) (l : ℕ) → any (λ k. k == l) ls ≡ true → none_left ls ≡ false
any-some [] l h = cc
any-some (k ∷ ls) l h = refl

step-timer :
    (e : Event) (t : Ticker)
    → t.timer ≡ not (none_left t.listeners)
    → (step e t).timer ≡ not (none_left (step e t).listeners)
unfolding step
step-timer (subscribe l) t h =
    ground (arith, any-some t.listeners l, none_left-append t.listeners l)
step-timer (unsubscribe l) t h = ground arith

run-timer_from :
    (es : List Event) (t : Ticker)
    → t.timer ≡ not (none_left t.listeners)
    → (run es t).timer ≡ not (none_left (run es t).listeners)
unfolding run
run-timer_from [] t h = h
run-timer_from (e ∷ es) t h = run-timer_from es (step e t) (step-timer e t h)

-- However timestamps come and go, the interval runs exactly while there is a listener: no tick is
-- missing, and none is left running when the last timestamp is gone.
pub run-timer :
    (es : List Event)
    → (run es no_listeners).timer ≡ not (none_left (run es no_listeners).listeners)
run-timer es = run-timer_from es no_listeners refl
