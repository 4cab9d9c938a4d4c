-- ===== src/Broker/Daemon/Kill.antt =====
-- The budget kill-switch of the daemon: once it has tripped no reservation is granted.
use dev_harness.Common.{
  ◌↔◌, ℕ, ◌≡◌, refl, ap, ◌∙◌, inl, inr, true, false, Option, none, some, List, [], ◌∷◌, ◌==◌,
  nat_eq, string_eq, Bool-cases,
}
use dev_harness.Dict
use dev_harness.Dict.{Dict, AllValues, put-AllValues}
use dev_harness.Contracts.Enums.{provider_eq}
use dev_harness.Broker.Limiter.{LocalLimiter}
use dev_harness.Broker.KillSwitch
use dev_harness.Broker.Cost
use dev_harness.Broker.Cost.{Usage, Registry, Committed, cost, unknown_model, budget_exceeded}
use dev_harness.Broker.Cost.Refusals.{Overspends, refused_iff}
use dev_harness.Broker.Daemon.Messages.{
  ReserveArgs, CommitArgs, ReleaseArgs, Request, health, reserve, commit, release, metrics, other,
  Answer, replied, refused, budget, Surroundings,
}
use dev_harness.Broker.Daemon.{
  Daemon, handle_reserve, release_slot, settle, charge, record_latency, handle_commit,
  handle_release, handle, handle_all,
}

release_slot-kill :
    (a : ReleaseArgs) (tokens : ℕ) (l : Option LocalLimiter) (d : Daemon)
    → (release_slot a tokens l d).0.kill ≡ d.kill
unfolding release_slot
release_slot-kill a tokens none d = refl
release_slot-kill a tokens (some l) d = refl

settle-kill :
    (a : CommitArgs) (delta : ℕ) (outcome : Committed) (d : Daemon)
    → d.kill.tripped ≡ true
    → (settle a delta outcome d).0.kill ≡ d.kill
unfolding settle record_latency KillSwitch.trip
settle-kill a delta (cost c) d h = refl
settle-kill a delta budget_exceeded d h = rw h
settle-kill a delta unknown_model d h = refl

handle_commit-kill :
    (env : Surroundings) (registry : Registry) (args : Option CommitArgs) (d : Daemon)
    → d.kill.tripped ≡ true
    → (handle_commit env registry args d).0.kill ≡ d.kill
unfolding handle_commit
handle_commit-kill env registry none d h = refl
handle_commit-kill env registry (some a) d h = elim (Bool-cases (a.model == "")) [
  | inl unnamed ↦ rw unnamed
  | inr named ↦ rw named (settle-kill a _ _ _ h)
]

handle_reserve_tripped :
    (env : Surroundings) (args : Option ReserveArgs) (d : Daemon)
    → d.kill.tripped ≡ true
    → handle_reserve env args d ≡ (d, replied (refused budget))
unfolding handle_reserve KillSwitch.check
handle_reserve_tripped env args d h = rw h

handle-kill :
    (env : Surroundings) (registry : Registry) (r : Request) (d : Daemon)
    → d.kill.tripped ≡ true
    → (handle env registry r d).0.kill ≡ d.kill
unfolding handle
handle-kill env registry health d h = refl
handle-kill env registry (reserve args) d h =
    ap (λ (r : Daemon × Answer). r.0.kill) (handle_reserve_tripped env args d h)
handle-kill env registry (commit args) d h = handle_commit-kill env registry args d h
handle-kill env registry (release none) d h = refl
handle-kill env registry (release (some a)) d h =
    unfold handle_release in release_slot-kill a _ (Dict.get a.provider d.limiters) _
handle-kill env registry metrics d h = refl
handle-kill env registry (other op) d h = refl

handle_all-kill :
    (registry : Registry) (rs : List (Surroundings × Request)) (d : Daemon)
    → d.kill.tripped ≡ true
    → (handle_all registry rs d).0.kill ≡ d.kill
unfolding handle_all
handle_all-kill registry [] d h = refl
handle_all-kill registry ((env, r) ∷ rs) d h =
    let kept = handle-kill env registry r d h in
    handle_all-kill registry rs (handle env registry r d).0
      (ap (λ (k : KillSwitch.KillSwitch). k.tripped) kept ∙ h)
    ∙ kept

-- Once the kill-switch has tripped it stays as it is whatever requests follow, with no further
-- interrupt sent, and every RESERVE is refused for the budget and changes nothing.
pub tripped_refuses :
    (registry : Registry) (rs : List (Surroundings × Request)) (d : Daemon)
    → d.kill.tripped ≡ true
    → let d' = (handle_all registry rs d).0 in
      (d'.kill ≡ d.kill)
      × ((env : Surroundings) (args : Option ReserveArgs)
          → handle_reserve env args d' ≡ (d', replied (refused budget)))
tripped_refuses registry rs d h =
    let kept = handle_all-kill registry rs d h in
    (
      kept,
      λ env args.
          handle_reserve_tripped env args _
            (ap (λ (k : KillSwitch.KillSwitch). k.tripped) kept ∙ h),
    )

settle_iff :
    (a : CommitArgs) (delta : ℕ) (outcome : Committed) (d : Daemon)
    → d.kill ≡ KillSwitch.new_switch
    → ((settle a delta outcome d).0.kill.tripped ≡ true ↔ outcome ≡ budget_exceeded)
      × (outcome ≡ budget_exceeded
          → (settle a delta outcome d).0.kill.sent
            ≡ KillSwitch.stop_request a.callback_endpoint ∷ [])
unfolding settle record_latency KillSwitch.trip
settle_iff a delta (cost c) d fresh = (
  (λ h. absurd (cc (ap (λ (k : KillSwitch.KillSwitch). k.tripped) fresh, h)), λ h. absurd (cc h)),
  λ h. absurd (cc h),
)
settle_iff a delta unknown_model d fresh = (
  (λ h. absurd (cc (ap (λ (k : KillSwitch.KillSwitch). k.tripped) fresh, h)), λ h. absurd (cc h)),
  λ h. absurd (cc h),
)
settle_iff a delta budget_exceeded d fresh = rw fresh ((λ h. refl, λ h. refl), λ h. refl)

-- A COMMIT that names a model trips a switch that has not tripped before exactly if the model is known
-- and the price of what it used passes the ceiling of the run or of the day; then it sends the STOP
-- request to its own callback endpoint, and no other interrupt.
pub commit_trips :
    (env : Surroundings) (registry : Registry) (a : CommitArgs) (d : Daemon)
    → (a.model == "") ≡ false
    → d.kill ≡ KillSwitch.new_switch
    → let u : Usage = record { input_tokens = a.usage_in; output_tokens = a.usage_out } in
      let kill = (handle_commit env registry (some a) d).0.kill in
      (kill.tripped ≡ true ↔ Overspends env.governor_now registry a.model u d.governor)
      × (kill.tripped ≡ true → kill.sent ≡ KillSwitch.stop_request a.callback_endpoint ∷ [])
unfolding handle_commit charge
commit_trips env registry a d named fresh =
    let u : Usage = record { input_tokens = a.usage_in; output_tokens = a.usage_out } in
    let refused = refused_iff env.governor_now registry a.model u d.governor in
    rw named (
      let (trips, sends) =
        settle_iff a _ (Cost.commit env.governor_now registry a.model u d.governor).1 _ fresh in
      ((λ h. refused.0 (trips.0 h), λ h. trips.1 (refused.1 h)), λ h. sends (trips.0 h)))
