-- ===== src/Engine/Integrator/Tests.antt =====
-- A repository whose branch of "b" conflicts with that of "a".
use dev_harness.Common.{
  String, refl, sym, true, false, some, List, [], ◌∷◌, ◌==◌, nat_eq, string_eq, if◌then◌else◌,
}
use dev_harness.Contracts.State.{Chunk}
use dev_harness.Engine.WorkerPool.Tests.{chunk}
use dev_harness.Engine.Integrator.{Git, IsLawful, integrate}
use dev_harness.Engine.Integrator.Laws.{ids, Integrates, integrate_atomic}

-- The state is the commit.
abbrev clashing : Git
clashing = record {
  State = String;
  head = λ s. some s;
  primary_branch = λ s. some "main";
  changed_files = λ b s. some ("f" ∷ []);
  merge = λ b s. if b == "chunk/b" then (s, false) else (b, true);
  conflicting_files = λ s. "f" ∷ [];
  merge_abort = λ s. some s;
  reset = λ h s. some h;
}

clashing-IsLawful : IsLawful clashing
clashing-IsLawful = record { head-reset = λ h s t e. sym e }

abbrev given : List Chunk
given = chunk "a" [] ∷ chunk "b" [] ∷ []

integrate_atomic_example :
    Integrates clashing clashing-IsLawful "c0" "c0" (ids given) (integrate clashing given "c0")
integrate_atomic_example = integrate_atomic clashing clashing-IsLawful given "c0" "c0" refl
