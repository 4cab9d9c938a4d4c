-- ===== src/Core/TaskRegistry/Tests.antt =====
-- A thread with three tasks, of which one ends in time and one is registered during the wait.
use dev_harness.Common.{ℕ, Bool, inl, inr, Bool-cases, [], ◌∷◌, ◌==◌, nat_eq, string_eq}
use dev_harness.Dict
use dev_harness.Core.TaskRegistry.{TaskRegistry, cancel_all}
use dev_harness.Core.TaskRegistry.Laws.{IsTidy, Cancels, cancel_all-Cancels}

abbrev ends : ℕ → Bool
ends t = t == 1

abbrev after_wait : TaskRegistry
after_wait = ("t", 1 ∷ 2 ∷ 3 ∷ []) ∷ []

tidy : IsTidy after_wait
unfolding Dict.get
tidy thread e = elim (Bool-cases ("t" == thread)) [
  | inl same ↦ absurd (cc (rw same at e))
  | inr other ↦ absurd (cc (rw other at e))
]

cancel_all-Cancels_example :
    Cancels ends "t" (1 ∷ 2 ∷ []) after_wait (cancel_all ends "t" (1 ∷ 2 ∷ []) after_wait)
cancel_all-Cancels_example = cancel_all-Cancels ends "t" (1 ∷ 2 ∷ []) after_wait (λ e. cc) tidy
