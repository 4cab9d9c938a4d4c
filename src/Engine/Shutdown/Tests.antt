-- ===== src/Engine/Shutdown/Tests.antt =====
-- A daemon with one session and one client, whose queue is empty before the deadline.
use dev_harness.Common.{ℕ, String, refl, some, [], ◌∷◌, nat_eq, string_eq}
use dev_harness.Contracts.State.{HarnessState}
use dev_harness.Engine.Fanout.{Fanout, attach}
use dev_harness.Engine.Session.{SessionManager, new_session}
use dev_harness.Engine.Session.Tests.{resolve, name, text_of, manager, at_start}
use dev_harness.Engine.Shutdown.{Rounds, new_shutdown, shutdown}
use dev_harness.Engine.Shutdown.Laws.{ShutsDown, shutdown_seals}

abbrev dump : HarnessState → String
dump s = s.thread_id

abbrev digest : String → String
digest text = text

abbrev cp_text : ℕ → String
cp_text n = "cp"

abbrev serving : SessionManager
serving = (new_session resolve name text_of "/w" at_start manager).0

abbrev one_client : Fanout
one_client = attach "c" []

abbrev at_once : Rounds
at_once = (3, one_client) ∷ []

shutdown_seals_example :
    ShutsDown resolve name text_of dump digest cp_text "/w" serving
      (some "c0")
      8
      at_once
      (new_shutdown, [])
      (shutdown resolve name text_of dump digest cp_text 8 at_once "/w" serving
        (some "c0")
        (new_shutdown, []))
shutdown_seals_example =
    shutdown_seals resolve name text_of dump digest cp_text "/w" serving (some "c0") 8 at_once
      new_shutdown [] refl
