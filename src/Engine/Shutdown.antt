-- ===== src/Engine/Shutdown.antt =====
-- engine/shutdown.py: the graceful shutdown of a daemon. The loop that drains runs over the rounds that a
-- schedule gives it: the reading of the clock and the fanout as it is then. The checkpoint table stands
-- for the database; the commit is `none` when the lock or git fails.
pub mod Laws
mod Tests
use dev_harness.Common.{
  ℕ, zero, suc, ◌+◌, ◌<◌, String, ◌≡◌, refl, Bool, true, false, Option, none, some, List, [], ◌∷◌,
  arith, ltb, Eq, ◌==◌, nat_eq, string_eq, if◌then◌else◌,
}
use dev_harness.Engine.Session
use dev_harness.Engine.Session.{Session, SessionManager}
use dev_harness.Contracts.State.{HarnessState}
use dev_harness.Engine.Fanout.{Fanout, clients, pending}
use dev_harness.Storage.Saver.{Scope, Row}
use dev_harness.Recovery.Sessions.{seal_checkpoint}

pub record GracefulShutdown : Type 0 where
  pub finished : Bool
  -- the calls of `unlink`
  pub unlinked : ℕ

abbrev pub new_shutdown : GracefulShutdown
new_shutdown = record { finished = false; unlinked = 0 }

-- What `_drain` ends with; `draining` is a schedule that ends first.
pub data Drain : Type 0 where
  drained timed_out draining : Drain

-- What `shutdown` ends with; `seal_error` is any error of the seal.
pub data Ended : Type 0 where
  done already_done shutdown_error seal_error still_draining : Ended

-- The loop of `_fanout_pending`
unfoldable pub sum_pending : Fanout → List String → ℕ
unfolding pending
sum_pending f [] = 0
sum_pending f (c ∷ cs) = pending c f + sum_pending f cs

unfoldable pub fanout_pending : Fanout → ℕ
unfolding sum_pending clients
fanout_pending f = sum_pending f (clients f)

abbrev pub Rounds : Type 0
Rounds = List (ℕ × Fanout)

-- The loop of `_drain`
unfoldable pub drain_until : ℕ → Rounds → Drain
unfolding fanout_pending
drain_until deadline [] = draining
drain_until deadline ((now, f) ∷ rounds) =
    let later = drain_until deadline rounds in
    if ltb now deadline then if fanout_pending f == 0 then drained else later else timed_out

abbrev pub scope_of : Session → Scope
scope_of s = record { project_id = s.project_id; thread_id = s.thread_id }

written : List Row → Option (List Row) → List Row × Ended
written rows none = (rows, seal_error)
written rows (some rows') = (rows', done)

-- The `finally` of `shutdown`
unlink_after : Ended → GracefulShutdown → GracefulShutdown
unlink_after still_draining g = g
unlink_after _ g = record g { unlinked = g.unlinked + 1 }

module _ (dump : HarnessState → String) (sha256 : String → String) (cp_text : ℕ → String) where
  -- `_seal_checkpoint`
  unfoldable pub seal : Option Session → Option String → List Row → List Row × Ended
  unfolding written
  seal none head rows = (rows, done)
  seal (some s) none rows = (rows, seal_error)
  seal (some s) (some head) rows =
      written rows (seal_checkpoint dump sha256 cp_text (scope_of s) s.state head rows)

  after_drain : Drain → Option Session → Option String → List Row → List Row × Ended
  unfolding seal
  after_drain drained session head rows = seal session head rows
  after_drain timed_out session head rows = (rows, shutdown_error)
  after_drain draining session head rows = (rows, still_draining)

module _ (resolve project_id_for : String → String) (id_text : ℕ → String → String)
    (dump : HarnessState → String) (sha256 : String → String) (cp_text : ℕ → String) where
  -- `shutdown`, where `deadline` is the first reading of the clock and the timeout together
  unfoldable pub shutdown :
      ℕ
      → Rounds
      → String
      → SessionManager
      → Option String
      → GracefulShutdown × List Row
      → (GracefulShutdown × List Row) × Ended
  unfolding drain_until after_drain unlink_after Session.get
  shutdown deadline rounds workspace m head (g, rows) =
      if g.finished
      then ((g, rows), already_done)
      else let session = Session.get resolve project_id_for id_text workspace m in
        let (rows', ended) =
          after_drain dump sha256 cp_text (drain_until deadline rounds) session head rows in
        ((unlink_after ended (record g { finished = true }), rows'), ended)
