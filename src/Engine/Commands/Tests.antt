-- ===== src/Engine/Commands/Tests.antt =====
-- Commands of a client on an engine without sessions.
use dev_harness.Common.{
  ℕ, String, ◌≡◌, refl, true, Option, none, some, List, [], ◌∷◌, nat_eq, string_eq,
}
use dev_harness.Ipc.Framing.{Stream, frame, message}
use dev_harness.Contracts.Enums.{ready}
use dev_harness.Engine.Session
use dev_harness.Engine.Session.{Readings}
use dev_harness.Engine.Session.Tests.{resolve, name, text_of, manager, at_start, no_session}
use dev_harness.Engine.Commands.{
  Command, start_session, status, CommandResponse, start_session_response, status_response, encode,
  version, CommandHandler, handle, handle_all,
}
use dev_harness.Engine.Commands.Laws.{Serves, handle_all-Serves}

abbrev handler : CommandHandler
handler = record { sessions = manager; on_shutdown = true; shutdowns = 0 }

handle_all-Serves_example :
    (thread : String) × ((handle resolve name text_of (start_session "/w") at_start handler).1
      ≡ start_session_response thread ready)
    × ((cmds : List (Command × Readings)) (v : String)
        → resolve v ≡ resolve "/w"
        → Serves resolve name text_of
            (handle_all resolve name text_of cmds
              (handle resolve name text_of (start_session "/w") at_start handler).0).0
            v
            thread)
handle_all-Serves_example = handle_all-Serves resolve name text_of "/w" at_start handler no_session

-- Codecs of one message each.
abbrev write_status : Command → List ℕ
write_status _ = 5 ∷ []

abbrev parse_status : List ℕ → Option Command
parse_status _ = some (status "/w")

abbrev idle : CommandResponse
idle = status_response none ready version

abbrev write_idle : CommandResponse → List ℕ
write_idle _ = 6 ∷ []

abbrev parse_idle : List ℕ → Option CommandResponse
parse_idle _ = some idle

abbrev sent : Stream
sent = (0 ∷ 0 ∷ []) ∷ (0 ∷ 1 ∷ 5 ∷ []) ∷ []

abbrev answered : Stream
answered = (0 ∷ 0 ∷ 0 ∷ 1 ∷ 6 ∷ 9 ∷ []) ∷ []

answers-idle : (handle resolve name text_of (status "/w") at_start handler).1 ≡ idle
unfolding handle Session.get dev_harness.Dict.get
answers-idle = refl

made : encode write_status parse_status (status "/w") ≡ frame (0 ∷ 0 ∷ 0 ∷ 1 ∷ 5 ∷ [])
unfolding encode dev_harness.Ipc.Framing.encode_with
made = refl

made_answer :
    encode write_idle parse_idle (handle resolve name text_of (status "/w") at_start handler).1
    ≡ frame (0 ∷ 0 ∷ 0 ∷ 1 ∷ 6 ∷ [])
unfolding encode dev_harness.Ipc.Framing.encode_with
made_answer = refl
