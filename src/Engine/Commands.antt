-- ===== src/Engine/Commands.antt =====
-- engine/commands.py: the commands of an engine, their frames, and the handler over its sessions. Each
-- model of the two unions is a constructor; `command` and `ok` are fixed by it. The JSON codec is a
-- parameter, as are the resolving of a path, the name of a project and the text of an id.
pub mod Laws
mod Tests
use dev_harness.Common.{
  ℕ, ◌+◌, String, Bool, Option, none, some, List, [], ◌∷◌, ◌++◌, if◌then◌else◌,
}
use Prim.Native.String.{◌++◌ as str_append}
use dev_harness.Contracts.Enums.{ExecutionState, ready}
use dev_harness.Ipc.Framing.{Encoded, Decoded, Stream, encode_with, decode_with, read_with}
use dev_harness.Engine.Session
use dev_harness.Engine.Session.{SessionManager, Readings, Created, created, session_exists}

pub data Command : Type 0 where
  start_session attach detach status shutdown : (workspace : String) → Command

pub data CommandResponse : Type 0 where
  start_session_response : (thread_id : String) (state : ExecutionState) → CommandResponse
  attach_response : (thread_id : String) (state : ExecutionState) → CommandResponse
  detach_response : (thread_id : String) → CommandResponse
  status_response :
      (thread_id : Option String) (state : ExecutionState) (version : String) → CommandResponse
  shutdown_response : CommandResponse
  error_response : (error remediation : String) → CommandResponse

abbrev pub max_command_frame : ℕ
max_command_frame = 1048576

-- The frames of both unions, over the codec of the union; every error is a `ValueError`.
module _ {M : Type 0} (to_json : M → List ℕ) (from_json : List ℕ → Option M) where
  abbrev pub command_limit : M → ℕ
  command_limit m = max_command_frame

  -- `encode_command` and `encode_response`
  unfoldable pub encode : M → Encoded
  encode = encode_with to_json from_json command_limit max_command_frame

  -- `decode_command_frame` and `decode_response_frame`
  unfoldable pub decode_frame : List ℕ → Decoded M
  decode_frame = decode_with to_json from_json command_limit max_command_frame

  -- `read_command_frame` and `read_response_frame`
  unfoldable pub read_frame : Stream → Decoded M × Stream
  read_frame = read_with to_json from_json command_limit max_command_frame

abbrev pub version : String
version = "0.1.0"

-- `str` of the `SessionExistsError`, which adds the remediation to the message.
abbrev pub attach_instead : String
attach_instead = "Attach to the existing session or stop it first."

abbrev pub exists_text : String → String → String
exists_text path thread = str_append "Session already exists for workspace " (
    str_append path (
      str_append " (thread_id="
        (str_append thread (str_append ") (remediation: " (str_append attach_instead ")")))))

abbrev pub no_session : String → CommandResponse
no_session w = error_response (str_append "no session for workspace " w) "Start a session first."

-- `on_shutdown` says whether a callback was given, and `shutdowns` counts its calls.
pub record CommandHandler : Type 0 where
  pub sessions : SessionManager
  pub on_shutdown : Bool
  pub shutdowns : ℕ

abbrev pub gatekeeper : Session.Session → ExecutionState
gatekeeper s = s.state.tui_state.critic_gatekeeper_status

module _ (resolve project_id_for : String → String) (id_text : ℕ → String → String) where
  abbrev pub session_for : String → CommandHandler → Option Session.Session
  session_for w h = Session.get resolve project_id_for id_text w h.sessions

  started : String → CommandHandler → SessionManager × Created → CommandHandler × CommandResponse
  started w h (m, created s) =
      (record h { sessions = m }, start_session_response s.thread_id (gatekeeper s))
  started w h (m, session_exists thread) =
      (record h { sessions = m }, error_response (exists_text (resolve w) thread) attach_instead)

  attached : String → Option Session.Session → CommandResponse
  attached w none = no_session w
  attached w (some s) = attach_response s.thread_id (gatekeeper s)

  detached : String → Option Session.Session → CommandResponse
  detached w none = no_session w
  detached w (some s) = detach_response s.thread_id

  reported : Option Session.Session → CommandResponse
  reported none = status_response none ready version
  reported (some s) = status_response (some s.thread_id) (gatekeeper s) version

  unfoldable pub handle : Command → Readings → CommandHandler → CommandHandler × CommandResponse
  unfolding started attached detached reported
  handle (start_session w) c h =
      started w h (Session.new_session resolve project_id_for id_text w c h.sessions)
  handle (attach w) c h = (h, attached w (session_for w h))
  handle (detach w) c h = (h, detached w (session_for w h))
  handle (status w) c h = (h, reported (session_for w h))
  handle (shutdown w) c h =
      (if h.on_shutdown then record h { shutdowns = h.shutdowns + 1 } else h, shutdown_response)

  -- The commands of a connection, each with the readings at its time.
  unfoldable pub handle_all :
      List (Command × Readings) → CommandHandler → CommandHandler × List CommandResponse
  unfolding handle
  handle_all [] h = (h, [])
  handle_all ((cmd, c) ∷ rest) h =
      let (h', r) = handle cmd c h in let (h'', rs) = handle_all rest h' in (h'', r ∷ rs)
