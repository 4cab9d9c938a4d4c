-- ===== src/Broker/Cost/Refusals.antt =====
-- broker/cost.py: when a commit is refused for a budget.
use mathlib.Core.Path.{subst}
use dev_harness.Common.{
  ℕ, ◌+◌, ◌*◌, ◌<◌, String, ◌≡◌, refl, ◌↔◌, ◌⊎◌, inl, inr, true, Option, none, some, arith, leb,
  ltb→lt, Bool-cases, Option-cases, if◌then◌else◌,
}
use dev_harness.Broker.Cost.{
  Usage, ModelEntry, Registry, day_seconds, CostGovernor, budget_exceeded, breaches, usd, roll_day,
  spend, commit_entry, commit,
}

-- What the day has cost when the governor is asked at `now`: nothing yet, once a day has passed.
abbrev pub spent_today : ℕ → CostGovernor → ℕ
spent_today now g = if leb (g.day_start + day_seconds) now then 0 else g.day_usd

-- A configured ceiling that the amount passes.
abbrev pub Passes : Option ℕ → ℕ → Type 0
Passes ceiling amount = (c : ℕ) × (ceiling ≡ some c) × (c < amount)

-- The price of the usage passes the ceiling of the run or of the day.
abbrev pub Overspends : ℕ → Registry → String → Usage → CostGovernor → Type 0
Overspends now registry model u g =
    (e : ModelEntry) × (registry model ≡ some e)
    × (Passes g.budget_usd_per_run
          (g.run_usd + (u.input_tokens * e.usd_per_mtok_in + u.output_tokens * e.usd_per_mtok_out))
        ⊎ Passes g.budget_usd_per_day (
            spent_today now g
            + (u.input_tokens * e.usd_per_mtok_in + u.output_tokens * e.usd_per_mtok_out)))

breaches_iff : (o : Option ℕ) (n : ℕ) → breaches o n ≡ true ↔ Passes o n
breaches_iff none n = (λ h. absurd (cc h), λ p. absurd (cc p.1))
breaches_iff (some m) n = (
  λ h. (m, refl, ltb→lt m n h),
  λ p. let is : m ≡ p.0 = ground (arith, p.1) in let less = p.2 in ground arith,
)

spend_iff :
    (c : ℕ) (g : CostGovernor)
    → ((spend c g).1 ≡ budget_exceeded)
      ↔ (Passes g.budget_usd_per_run (g.run_usd + c) ⊎ Passes g.budget_usd_per_day (g.day_usd + c))
unfolding spend
spend_iff c g =
    let run = breaches_iff g.budget_usd_per_run (g.run_usd + c) in
    let day = breaches_iff g.budget_usd_per_day (g.day_usd + c) in
    elim (Bool-cases (breaches g.budget_usd_per_run (g.run_usd + c))) [
      | inl over ↦ rw over (λ h. inl (run.0 over), λ h. refl)
      | inr within ↦ elim (Bool-cases (breaches g.budget_usd_per_day (g.day_usd + c))) [
        | inl over ↦ rw (within, over) (λ h. inr (day.0 over), λ h. refl)
        | inr under ↦
            rw (within, under)
              (
                λ h. absurd (cc h),
                λ h. absurd (elim h [ inl p ↦ cc (within, run.1 p) | inr p ↦ cc (under, day.1 p) ]),
              )
      ]
    ]

rolled_iff :
    (now c : ℕ) (g : CostGovernor)
    → ((spend c (roll_day now g)).1 ≡ budget_exceeded) ↔ (
        Passes g.budget_usd_per_run (g.run_usd + c)
        ⊎ Passes g.budget_usd_per_day (spent_today now g + c))
unfolding roll_day
rolled_iff now c g = elim (Bool-cases (leb (g.day_start + day_seconds) now)) [
  | inl over ↦ rw over (spend_iff c (record g { day_usd = 0; day_start = now }))
  | inr within ↦ rw within (spend_iff c g)
]

-- A commit is refused for a budget exactly if the model is known and the price of the usage passes the
-- ceiling of the run on top of what the run has cost, or that of the day on top of what the day has cost.
pub refused_iff :
    (now : ℕ) (registry : Registry) (model : String) (u : Usage) (g : CostGovernor)
    → ((commit now registry model u g).1 ≡ budget_exceeded) ↔ Overspends now registry model u g
unfolding commit commit_entry usd
refused_iff now registry model u g = elim (Option-cases (registry model)) [
  | inl unknown ↦ rw unknown (λ h. absurd (cc h), λ p. absurd (cc p.1))
  | inr (e, known) ↦
      let both = rolled_iff now (usd e u) g in
      rw (known, commit_entry)
        (
          λ h. (e, refl, both.0 h),
          λ p.
              let is : p.0 ≡ e = ground (arith, p.1) in
              both.1 (
                subst
                  (λ x.
                    Passes g.budget_usd_per_run (
                      g.run_usd
                      + (u.input_tokens * x.usd_per_mtok_in + u.output_tokens * x.usd_per_mtok_out))
                    ⊎ Passes g.budget_usd_per_day (
                        spent_today now g
                        + (u.input_tokens * x.usd_per_mtok_in
                            + u.output_tokens * x.usd_per_mtok_out)))
                  is p.2),
        )
]
