-- ===== src/Broker/Cost.antt =====
-- broker/cost.py: the governor of spending. Money is counted in millionths of the price unit, so
-- the division by 1_000_000 leaves nothing over.
pub mod Laws
pub mod Refusals
mod Tests
use dev_harness.Common.{
  ℕ, ◌+◌, ◌*◌, String, Bool, true, false, Option, none, some, ltb, leb, ◌==◌, if◌then◌else◌,
}
use dev_harness.Contracts.Enums.{ProviderId}

pub record Usage : Type 0 where
  pub input_tokens : ℕ
  pub output_tokens : ℕ

pub record ModelEntry : Type 0 where
  pub model_id : String
  pub provider : ProviderId
  pub context_window : ℕ
  pub max_output : ℕ
  pub usd_per_mtok_in : ℕ
  pub usd_per_mtok_out : ℕ

-- `ModelRegistry.resolve`: `none` is the `UnknownModelError`.
abbrev pub Registry : Type 0
Registry = String → Option ModelEntry

abbrev pub day_seconds : ℕ
day_seconds = 86400000

pub record CostGovernor : Type 0 where
  pub budget_usd_per_run : Option ℕ
  pub budget_usd_per_day : Option ℕ
  pub run_usd : ℕ
  pub day_usd : ℕ
  pub day_start : ℕ

abbrev pub new_governor : Option ℕ → Option ℕ → ℕ → CostGovernor
new_governor run day now = record {
  budget_usd_per_run = run;
  budget_usd_per_day = day;
  run_usd = 0;
  day_usd = 0;
  day_start = now;
}

-- `_usd`
unfoldable pub usd : ModelEntry → Usage → ℕ
usd e u = u.input_tokens * e.usd_per_mtok_in + u.output_tokens * e.usd_per_mtok_out

unfoldable pub roll_day : ℕ → CostGovernor → CostGovernor
roll_day now g =
    if leb (g.day_start + day_seconds) now then record g { day_usd = 0; day_start = now } else g

-- A ceiling that is configured and would be passed.
abbrev pub breaches : Option ℕ → ℕ → Bool
breaches none amount = false
breaches (some ceiling) amount = ltb ceiling amount

pub data Committed : Type 0 where
  cost : ℕ → Committed
  unknown_model budget_exceeded : Committed

spend : ℕ → CostGovernor → CostGovernor × Committed
spend c g =
    if breaches g.budget_usd_per_run (g.run_usd + c)
    then (g, budget_exceeded)
    else if breaches g.budget_usd_per_day (g.day_usd + c)
    then (g, budget_exceeded)
    else (record g { run_usd = g.run_usd + c; day_usd = g.day_usd + c }, cost c)

commit_entry : ℕ → Option ModelEntry → Usage → CostGovernor → CostGovernor × Committed
unfolding usd roll_day spend
commit_entry now none u g = (g, unknown_model)
commit_entry now (some e) u g = spend (usd e u) (roll_day now g)

unfoldable pub commit : ℕ → Registry → String → Usage → CostGovernor → CostGovernor × Committed
unfolding commit_entry
commit now registry model u g = commit_entry now (registry model) u g
