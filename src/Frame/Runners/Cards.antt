-- ===== src/Frame/Runners/Cards.antt =====
-- What the card of a machine shows (apps/web/src/components/runner-list.tsx).
use lgtm.Prelude.{
  ℕ, zero, suc, ◌+◌, ◌-◌, ◌*◌, ◌≤◌, min, ◌≡◌, ◌↔◌, inl, inr, refl, Bool, true, false, not, List, [],
  ◌∷◌, any, text_eq, text_eq_iff, ◌&&◌, ◌≢◌, ◌++◌, Text, text, length, if◌then◌else◌, arith,
  Bool-cases, ap,
}
use lgtm.Types.{RunnerStatus}
use lgtm.Frame.Runners.{
  rounded, starts, platform_capability, tools, slot_segments, slot_meter, runner_card,
}

abbrev pub lit : List Bool → ℕ
lit [] = 0
lit (b ∷ bs) = let rest = lit bs in if b then suc rest else rest

slot_segments-counts :
    (slots slot busy : ℕ)
    → (length (slot_segments slots slot busy) ≡ slots)
      × (lit (slot_segments slots slot busy) ≡ min slots (busy - slot))
unfolding slot_segments
slot_segments-counts zero slot busy = ground arith
slot_segments-counts (suc slots) slot busy =
    ground (arith, slot_segments-counts slots (suc slot) busy)

starts_iff : (p s : Text) → (starts p s ≡ true) ↔ ((rest : Text) × (s ≡ p ++ rest))
unfolding starts
starts_iff [] s = (λ _. (s, refl), λ _. refl)
starts_iff (c ∷ p) [] = ground arith
starts_iff (c ∷ p) (d ∷ s) = (
  λ h. let (rest, e) = (starts_iff p s).0 (ground arith) in (rest, ground (arith, h, e)),
  λ (rest, e). ground (arith, e, (starts_iff p s).1 (rest, ground (arith, e))),
)

any-tools :
    (c : Text) (capabilities : List Text)
    → any (text_eq c) (tools capabilities)
      ≡ (any (text_eq c) capabilities && not (platform_capability c))
unfolding tools
any-tools c [] = ground arith
any-tools c (d ∷ capabilities) = elim (Bool-cases (text_eq c d)) [
  | inl e ↦
      ground (arith, any-tools c capabilities, e, ap platform_capability ((text_eq_iff c d).0 e))
  | inr e ↦ ground (arith, any-tools c capabilities, e)
]

begins : (p c : Text) → (starts p c ≡ false) ↔ ((rest : Text) → c ≢ p ++ rest)
begins p c = (
  λ h rest e. ground (arith, h, (starts_iff p c).1 (rest, e)),
  λ none_fits. elim (Bool-cases (starts p c)) [
    | inr e ↦ e
    | inl e ↦ let (rest, fits) = (starts_iff p c).0 e in ground (arith, none_fits rest fits)
  ],
)

names-platform :
    (c : Text)
    → (platform_capability c ≡ false)
      ↔ ((rest : Text) → (c ≢ text "os:" ++ rest) × (c ≢ text "arch:" ++ rest))
unfolding platform_capability
names-platform c =
    let os = begins (text "os:") c in
    let arch = begins (text "arch:") c in
    (
      λ h rest. (os.0 (ground (arith, h)) rest, arch.0 (ground (arith, h)) rest),
      λ h. ground (arith, os.1 (λ rest. (h rest).0), arch.1 (λ rest. (h rest).1)),
    )

-- Of the capabilities of a machine, its card lists under its tools exactly those that begin neither
-- with "os:" nor with "arch:".
pub tools-capabilities :
    (c : Text) (capabilities : List Text)
    → (any (text_eq c) (tools capabilities) ≡ true) ↔ (
        (any (text_eq c) capabilities ≡ true)
        × ((rest : Text) → (c ≢ text "os:" ++ rest) × (c ≢ text "arch:" ++ rest)))
tools-capabilities c capabilities = ground (arith, any-tools c capabilities, names-platform c)

-- The meter of a card has a segment for each slot of the machine, and as many of them are lit as
-- tasks run on it, but never more than there are.
pub runner_card-meter :
    (runner : RunnerStatus)
    → let meter = (runner_card runner).meter in
      (length meter ≡ runner.info.slots)
      × (lit meter ≡ min (length runner.running) runner.info.slots)
unfolding runner_card slot_meter
runner_card-meter runner =
    ground (arith, slot_segments-counts runner.info.slots 0 (length runner.running))

rounded_nearest : (mb : ℕ) → (rounded mb * 1024 ≤ mb + 512) × (mb ≤ rounded mb * 1024 + 512)
rounded_nearest mb = omega arith
