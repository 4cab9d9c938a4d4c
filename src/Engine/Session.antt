-- ===== src/Engine/Session.antt =====
-- engine/session.py: the sessions of an engine, one for each workspace. The resolving of a path, the
-- hash that names a project and the text of an id are parameters; clock readings and the random suffix
-- are arguments. `last_ns` is the module's `_last_ns`.
pub mod Laws
pub mod Tests
use dev_harness.Common.{
  ℕ, ◌+◌, String, Option, none, some, leb, nat_eq, string_eq, if◌then◌else◌, length,
}
use dev_harness.Dict
use dev_harness.Dict.{Dict}
use dev_harness.Contracts.State.{HarnessState, fresh_state}

pub record Session : Type 0 where
  pub thread_id : String
  pub project_id : String
  pub workspace_path : String
  pub state : HarnessState
  pub created_at : ℕ

pub record SessionManager : Type 0 where
  pub last_ns : ℕ
  pub sessions : Dict String Session

pub data Created : Type 0 where
  created : Session → Created
  session_exists : (thread_id : String) → Created

-- The clock's reading, or one more than the number given last.
unfoldable pub next_ns : ℕ → ℕ → ℕ
next_ns now last = if leb now last then last + 1 else now

-- What a call reads: the clock in nanoseconds and in seconds, and the random suffix.
pub record Readings : Type 0 where
  pub now_ns : ℕ
  pub now : ℕ
  pub suffix : String

module _ (resolve project_id_for : String → String) (id_text : ℕ → String → String) where
  new_found : String → Readings → SessionManager → Option Session → SessionManager × Created
  new_found path c m (some existing) = (m, session_exists existing.thread_id)
  new_found path c m none =
      let ns = next_ns c.now_ns m.last_ns in
      let thread = id_text ns c.suffix in
      let project = project_id_for path in
      let s : Session = record {
        thread_id = thread;
        project_id = project;
        workspace_path = path;
        state = fresh_state project path thread;
        created_at = c.now;
      } in
      (record { last_ns = ns; sessions = Dict.put path s m.sessions }, created s)

  unfoldable pub new_session : String → Readings → SessionManager → SessionManager × Created
  unfolding new_found
  new_session workspace c m =
      new_found (resolve workspace) c m (Dict.get (resolve workspace) m.sessions)

  unfoldable pub get : String → SessionManager → Option Session
  get workspace m = Dict.get (resolve workspace) m.sessions

  unfoldable pub remove : String → SessionManager → SessionManager × Option Session
  remove workspace m = (
    record m { sessions = Dict.remove (resolve workspace) m.sessions },
    Dict.get (resolve workspace) m.sessions,
  )

unfoldable pub count : SessionManager → ℕ
count m = length m.sessions
