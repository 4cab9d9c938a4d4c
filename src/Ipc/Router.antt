-- ===== src/Ipc/Router.antt =====
-- ipc/router.py: subscribers by event type. A handler is known by a number; whether it raises on an
-- envelope is a parameter. `called` and `logged` record the calls and the errors that are logged.
pub mod Laws
mod Tests
use dev_harness.Common.{
  ℕ, ◌+◌, Bool, Option, none, some, List, [], ◌∷◌, ◌++◌, Eq, ◌==◌, nat_eq, string_eq, if◌then◌else◌,
  length,
}
use dev_harness.Dict
use dev_harness.Dict.{Dict}
use dev_harness.Contracts.Enums.{EventType, event_eq}
use dev_harness.Contracts.Events.{Envelope}

-- `_subs`
abbrev pub EventRouter : Type 0
EventRouter = Dict EventType (List ℕ)

-- `_subs` is a `defaultdict(list)`: reading a missing key stores an empty list.
abbrev pub or_none : Option (List ℕ) → List ℕ
or_none none = []
or_none (some hs) = hs

unfoldable pub subscribers : EventType → EventRouter → List ℕ
subscribers t r = or_none (Dict.get t r)

unfoldable pub subscribe : EventType → ℕ → EventRouter → EventRouter
subscribe t h r = Dict.put t (subscribers t r ++ h ∷ []) r

-- `list.remove`, after the test that the handler is there.
unfoldable pub remove_one : ℕ → List ℕ → List ℕ
remove_one h [] = []
remove_one h (g ∷ gs) = if g == h then gs else g ∷ remove_one h gs

unfoldable pub unsubscribe : EventType → ℕ → EventRouter → EventRouter
unsubscribe t h r = Dict.put t (remove_one h (subscribers t r)) r

module _ (raises : ℕ → Envelope → Bool) where
  unfoldable pub run_handlers : List ℕ → Envelope → List ℕ × List ℕ
  run_handlers [] e = ([], [])
  run_handlers (h ∷ hs) e =
      let (called, logged) = run_handlers hs e in
      (h ∷ called, if raises h e then h ∷ logged else logged)

  -- The router after the call, and the handlers called and logged.
  unfoldable pub publish : Envelope → EventRouter → EventRouter × (List ℕ × List ℕ)
  publish e r = (Dict.put e.type (subscribers e.type r) r, run_handlers (subscribers e.type r) e)

unfoldable pub subscriber_count : EventType → EventRouter → ℕ
subscriber_count t r = length (subscribers t r)
