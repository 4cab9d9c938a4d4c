-- ===== src/Broker/Cost/Laws.antt =====
-- The ceilings hold whatever is committed.
use dev_harness.Common.{ℕ, ◌+◌, ◌≤◌, String, ◌≡◌, Option, some, List, [], ◌∷◌, arith}
use dev_harness.Broker.Cost.{
  Usage, Registry, CostGovernor, roll_day, cost, unknown_model, budget_exceeded, commit,
}

-- An amount is within a ceiling, if there is one.
abbrev pub Within : ℕ → Option ℕ → Type 0
Within amount ceiling = (c : ℕ) → ceiling ≡ some c → amount ≤ c

pub record IsBudgeted (g : CostGovernor) : Type 0 where
  pub run : Within g.run_usd g.budget_usd_per_run
  pub day : Within g.day_usd g.budget_usd_per_day
  pub day_in_run : g.day_usd ≤ g.run_usd

-- The calls of `commit` that a governor sees, each with its clock reading.
pub record Commit : Type 0 where
  pub now : ℕ
  pub model : String
  pub usage : Usage

module _ (registry : Registry) where
  unfoldable pub commit_all : List Commit → CostGovernor → CostGovernor
  commit_all [] g = g
  commit_all (c ∷ cs) g = commit_all cs (commit c.now registry c.model c.usage g).0

  pub commit-IsBudgeted :
      (c : Commit) (g : CostGovernor)
      → IsBudgeted g
      → IsBudgeted (commit c.now registry c.model c.usage g).0
  unfolding commit
  commit-IsBudgeted c g h = record {
    run = λ n e. ground (arith, h.run n);
    day = λ n e. ground (arith, h.day n);
    day_in_run = ground arith;
  }

  -- However many usages are committed, whatever they cost and whenever, the spending of the run and
  -- of the day stay within the ceilings that are configured, and the day's within the run's.
  pub commit_all-IsBudgeted :
      (cs : List Commit) (g : CostGovernor) → IsBudgeted g → IsBudgeted (commit_all cs g)
  unfolding commit_all
  commit_all-IsBudgeted [] g h = h
  commit_all-IsBudgeted (c ∷ cs) g h =
      commit_all-IsBudgeted cs (commit c.now registry c.model c.usage g).0 (commit-IsBudgeted c g h)

  -- A commit that raises leaves the spending of the run as it was, and the ceilings; one that
  -- succeeds adds the price of the usage to the run.
  pub commit_spends :
      (now : ℕ) (model : String) (u : Usage) (g : CostGovernor)
      → ((n : ℕ)
          → (commit now registry model u g).1 ≡ cost n
          → (commit now registry model u g).0.run_usd ≡ g.run_usd + n)
        × ((commit now registry model u g).1 ≡ unknown_model
            → (commit now registry model u g).0 ≡ g)
        × ((commit now registry model u g).1 ≡ budget_exceeded
            → (commit now registry model u g).0 ≡ roll_day now g)
  unfolding commit
  commit_spends now model u g = (λ n e. ground arith, λ e. ground arith, λ e. ground arith)
