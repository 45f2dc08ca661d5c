-- ===== src/Frame/Runners.antt =====
-- The machines: apps/web/src/components/runner-list.tsx.
pub mod Cards
use lgtm.Prelude.{
  ℕ, zero, suc, ◌+◌, ◌/◌, Bool, true, false, not, ◌||◌, List, [], ◌∷◌, ◌++◌, map, Text, text,
  decimal, join, length, take, keep, ltb, leb, ◌==◌, if◌then◌else◌,
}
use lgtm.Types.{Executor, claude, codex, RunnerStatus}

-- `Math.round(mb / 1024)`
abbrev pub rounded : ℕ → ℕ
rounded mb = (mb + 512) / 1024

unfoldable pub gigabytes : ℕ → Text
gigabytes mb = if leb 1024 mb then decimal (rounded mb) ++ text " GB" else decimal mb ++ text " MB"

-- whether a text begins with another
unfoldable pub starts : Text → Text → Bool
starts [] s = true
starts (c ∷ p) [] = false
starts (c ∷ p) (d ∷ s) = let rest = starts p s in if c == d then rest else false

-- `PLATFORM_CAPABILITY.test(capability)`
unfoldable pub platform_capability : Text → Bool
unfolding starts
platform_capability capability = starts (text "os:") capability || starts (text "arch:") capability

unfoldable pub tools : List Text → List Text
unfolding platform_capability
tools capabilities = keep (λ c. not (platform_capability c)) capabilities

-- `SlotMeter`: the segments, lit or not
unfoldable pub slot_segments : ℕ → ℕ → ℕ → List Bool
slot_segments zero slot busy = []
slot_segments (suc slots) slot busy = ltb slot busy ∷ slot_segments slots (suc slot) busy

unfoldable pub slot_meter : ℕ → ℕ → List Bool
unfolding slot_segments
slot_meter busy slots = slot_segments slots 0 busy

-- what the foot of a card says, and the tasks that it links to
pub record Foot : Type 0 where
  pub says : Text
  pub links : List Text

unfoldable pub card_foot : List Text → Foot
card_foot running =
    let busy = length running in
    if busy == 0 then record { says = text "Idle"; links = [] } else record {
      says =
          text "Running "
          ++ decimal busy
          ++ text " "
          ++ (if busy == 1 then text "task" else text "tasks");
      links = map (take 8) running;
    }

-- the name that the wire has for an executor
abbrev pub executor_name : Executor → Text
executor_name claude = text "claude"
executor_name codex = text "codex"

pub record Card : Type 0 where
  pub name : Text
  pub ephemeral : Bool
  pub platform : Text
  pub cores : ℕ
  pub executors : Text
  pub meter : List Bool
  pub memory : Text
  pub declared : List Text
  pub foot : Foot

unfoldable pub runner_card : RunnerStatus → Card
unfolding gigabytes tools slot_meter card_foot
runner_card runner = record {
  name = runner.info.name;
  ephemeral = runner.info.ephemeral;
  platform = runner.info.os ++ text " · " ++ runner.info.arch;
  cores = runner.info.cpu_cores;
  executors = join (text ", ") (map executor_name runner.info.executors);
  meter = slot_meter (length runner.running) runner.info.slots;
  memory = gigabytes runner.info.memory_mb;
  declared = tools runner.info.capabilities;
  foot = card_foot runner.running;
}
