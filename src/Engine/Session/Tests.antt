-- ===== src/Engine/Session/Tests.antt =====
-- A manager without sessions.
use dev_harness.Common.{
  ◌<◌, false, some, ℕ, String, ◌≡◌, refl, none, [], ◌==◌, nat_eq, string_eq, if◌then◌else◌,
}
use dev_harness.Dict
use dev_harness.Engine.Session.{
  Session, SessionManager, created, session_exists, Readings, new_session, get, remove,
}
use dev_harness.Engine.Session.Laws.{new_session_once}

abbrev pub resolve : String → String
resolve path = if path == "./w" then "/w" else path

abbrev pub name : String → String
name path = "ws"

abbrev pub text_of : ℕ → String → String
text_of n suffix = suffix

abbrev pub manager : SessionManager
manager = record { last_ns = 9; sessions = [] }

abbrev pub at_start : Readings
at_start = record { now_ns = 9; now = 1; suffix = "f00d" }

pub no_session : get resolve name text_of "/w" manager ≡ none
unfolding get Dict.get
no_session = refl

new_session_once_example :
    (s : Session) × (m' : SessionManager) × (new_session resolve name text_of "./w" at_start manager
      ≡ (m', created s))
    × (manager.last_ns < m'.last_ns)
    × (s.thread_id ≡ text_of m'.last_ns at_start.suffix)
    × ((v : String) (d : Readings)
        → resolve v ≡ resolve "./w"
        → (get resolve name text_of v m' ≡ some s)
          × (new_session resolve name text_of v d m' ≡ (m', session_exists s.thread_id))
          × (get resolve name text_of v (remove resolve name text_of "./w" m').0 ≡ none))
    × ((v : String)
        → (resolve "./w" == resolve v) ≡ false
        → get resolve name text_of v m' ≡ get resolve name text_of v manager)
unfolding get
new_session_once_example = new_session_once resolve name text_of "./w" at_start manager no_session
