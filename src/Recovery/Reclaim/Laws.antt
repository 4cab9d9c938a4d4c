-- ===== src/Recovery/Reclaim/Laws.antt =====
-- recovery/reclaim.py: what lives stays.
use dev_harness.Common.{
  ℕ, String, ◌≡◌, refl, ap, inl, inr, Bool, not, ◌||◌, Option, List, [], ◌∷◌, map, nat_eq,
  string_eq, Bool-cases, keep,
}
use dev_harness.Recovery.Reclaim.{is_live, reclaim_worktrees}

module _ (pid_alive : ℕ → Bool) (unlinks clears : String → Bool) where
  abbrev alive : String × Option ℕ → Bool
  alive w = is_live pid_alive w.1

  abbrev pub names : List (String × Option ℕ) → List String
  names ws = map (λ (w : String × Option ℕ). w.0) ws

  -- The worktrees that are left are those of a live process and those that could not be cleared; the
  -- latter are reported as removed all the same.
  pub worktrees_lem :
      (ws : List (String × Option ℕ))
      → ((reclaim_worktrees pid_alive unlinks clears ws).0
          ≡ keep (λ w. alive w || not (clears w.0)) ws)
        × ((reclaim_worktrees pid_alive unlinks clears ws).1 ≡ names (keep alive ws))
        × ((reclaim_worktrees pid_alive unlinks clears ws).2 ≡ names (keep (λ w. not (alive w)) ws))
  unfolding reclaim_worktrees
  worktrees_lem [] = (refl, refl, refl)
  worktrees_lem ((name, pid) ∷ ws) =
      let rest = worktrees_lem ws in
      elim (Bool-cases (is_live pid_alive pid)) [
        | inl lives ↦ rw lives (ap (λ l. (name, pid) ∷ l) rest.0, ap (λ l. name ∷ l) rest.1, rest.2)
        | inr dead ↦ elim (Bool-cases (clears name)) [
          | inl gone ↦ rw (dead, gone) (rest.0, rest.1, ap (λ l. name ∷ l) rest.2)
          | inr stuck ↦
              rw (dead, stuck) (ap (λ l. (name, pid) ∷ l) rest.0, rest.1, ap (λ l. name ∷ l) rest.2)
        ]
      ]
