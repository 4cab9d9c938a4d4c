-- ===== src/Broker/Cost/Tests.antt =====
-- The governor at concrete usages.
use dev_harness.Common.{ℕ, ◌+◌, ◌≡◌, refl, some, List, [], ◌∷◌, arith}
use dev_harness.Contracts.Enums.{openrouter}
use dev_harness.Broker.Cost.{
  Usage, Registry, CostGovernor, new_governor, roll_day, cost, unknown_model, budget_exceeded,
  commit,
}
use dev_harness.Broker.Cost.Laws.{
  IsBudgeted, Commit, commit_all, commit_all-IsBudgeted, commit_spends,
}

abbrev pub one_model : Registry
one_model name = some (record {
  model_id = name;
  provider = openrouter;
  context_window = 8192;
  max_output = 4096;
  usd_per_mtok_in = 2;
  usd_per_mtok_out = 5;
})

abbrev fresh : CostGovernor
fresh = new_governor (some 100) (some 60) 0

abbrev usage : ℕ → ℕ → Usage
usage i o = record { input_tokens = i; output_tokens = o }

abbrev day : List Commit
day =
    record { now = 1; model = "m"; usage = usage 10 6 }
    ∷ record { now = 2; model = "m"; usage = usage 10 6 }
    ∷ []

day_total : (commit_all one_model day fresh).run_usd ≡ 50
unfolding commit_all commit
day_total = refl

fresh-IsBudgeted : IsBudgeted fresh
fresh-IsBudgeted = record {
  run = λ c e. omega arith;
  day = λ c e. omega arith;
  day_in_run = omega arith;
}

commit_all-IsBudgeted_example : IsBudgeted (commit_all one_model day fresh)
commit_all-IsBudgeted_example = commit_all-IsBudgeted one_model day fresh fresh-IsBudgeted

commit_spends_example :
    ((n : ℕ)
      → (commit 3 one_model "m" (usage 10 6) fresh).1 ≡ cost n
      → (commit 3 one_model "m" (usage 10 6) fresh).0.run_usd ≡ fresh.run_usd + n)
    × ((commit 3 one_model "m" (usage 10 6) fresh).1 ≡ unknown_model
        → (commit 3 one_model "m" (usage 10 6) fresh).0 ≡ fresh)
    × ((commit 3 one_model "m" (usage 10 6) fresh).1 ≡ budget_exceeded
        → (commit 3 one_model "m" (usage 10 6) fresh).0 ≡ roll_day 3 fresh)
commit_spends_example = commit_spends one_model 3 "m" (usage 10 6) fresh
