-- ===== src/Core/TaskRegistry.antt =====
-- core/task_registry.py: the tasks of each thread. A task is known by a number, a set of tasks is a list
-- in which none stands twice. `cancel_all` waits between two steps, so the registry after the wait is an
-- argument of the second one; which tasks the wait finds done is a parameter.
pub mod Laws
mod Tests
use dev_harness.Common.{
  ℕ, String, Bool, true, false, not, Option, none, some, List, [], ◌∷◌, ◌++◌, map, Eq, ◌==◌, nat_eq,
  string_eq, if◌then◌else◌, length, keep,
}
use dev_harness.Dict
use dev_harness.Dict.{Dict}

-- `_tasks`
abbrev pub TaskRegistry : Type 0
TaskRegistry = Dict String (List ℕ)

unfoldable pub tracked : ℕ → List ℕ → Bool
tracked task [] = false
tracked task (t ∷ ts) = if t == task then true else tracked task ts

abbrev add : ℕ → List ℕ → List ℕ
add task ts = if tracked task ts then ts else ts ++ task ∷ []

abbrev discard : ℕ → List ℕ → List ℕ
discard task ts = keep (λ t. not (t == task)) ts

or_empty : Option (List ℕ) → List ℕ
or_empty none = []
or_empty (some ts) = ts

unfoldable pub tasks : String → TaskRegistry → List ℕ
unfolding or_empty
tasks thread r = or_empty (Dict.get thread r)

unfoldable pub register : String → ℕ → TaskRegistry → TaskRegistry
unfolding tracked tasks
register thread task r = Dict.put thread (add task (tasks thread r)) r

-- A set that is left empty is deleted.
store : String → List ℕ → TaskRegistry → TaskRegistry
store thread [] r = Dict.remove thread r
store thread (t ∷ ts) r = Dict.put thread (t ∷ ts) r

unregister_found : String → ℕ → Option (List ℕ) → TaskRegistry → TaskRegistry
unfolding store
unregister_found thread task none r = r
unregister_found thread task (some ts) r = store thread (discard task ts) r

unfoldable pub unregister : String → ℕ → TaskRegistry → TaskRegistry
unfolding unregister_found
unregister thread task r = unregister_found thread task (Dict.get thread r) r

unfoldable pub count : String → TaskRegistry → ℕ
count thread r = length (tasks thread r)

unfoldable pub thread_ids : TaskRegistry → List String
thread_ids r = map (λ (item : String × List ℕ). item.0) r

module _ (is_done : ℕ → Bool) where
  -- The loop over `done`
  unfoldable pub discard_done : List ℕ → List ℕ → List ℕ
  discard_done [] ts = ts
  discard_done (p ∷ pending) ts = discard_done pending (if is_done p then discard p ts else ts)

  -- `cancel_all` of a thread with the tasks `pending`, from the registry after the wait: the registry
  -- and the tasks that did not stop.
  unfoldable pub cancel_all : String → List ℕ → TaskRegistry → TaskRegistry × List ℕ
  unfolding discard_done store tasks
  cancel_all thread [] r = (Dict.remove thread r, [])
  cancel_all thread (p ∷ pending) r = (
    store thread (discard_done (p ∷ pending) (tasks thread r)) r,
    keep (λ t. not (is_done t)) (p ∷ pending),
  )
