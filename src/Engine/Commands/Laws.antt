-- ===== src/Engine/Commands/Laws.antt =====
-- engine/commands.py: what the commands do to the sessions, and what comes back over the wire.
use dev_harness.Common.{
  ℕ, String, ◌≡◌, refl, ap, ◌∙◌, Option, none, some, List, [], ◌∷◌, ◌++◌, arith, nat_eq, string_eq,
}
use dev_harness.Dict.{get-put_self}
use dev_harness.Contracts.Enums.{ready}
use dev_harness.Contracts.State.{HarnessState}
use dev_harness.Ipc.Framing.{Stream, frame, message, decode_with}
use dev_harness.Ipc.Framing.Bytes.{bytes, IsFlowing}
use dev_harness.Ipc.Framing.Laws.{decode-encode, read-decode}
use dev_harness.Engine.Session
use dev_harness.Engine.Session.{SessionManager, Readings, created, session_exists, Created}
use dev_harness.Engine.Session.Laws.{new_session_free, new_session_refused, new_session_keeps}
use dev_harness.Engine.Commands.{
  Command, start_session, attach, detach, status, shutdown, CommandResponse, start_session_response,
  attach_response, detach_response, status_response, error_response, max_command_frame, exists_text,
  command_limit, encode, read_frame, version, attach_instead, CommandHandler, gatekeeper,
  session_for, started, attached, detached, reported, handle, handle_all,
}

read_frame-encode :
    {M : Type 0} (to_json : M → List ℕ) (from_json : List ℕ → Option M) (m : M) (f rest : List ℕ)
    (s : Stream)
    → from_json (to_json m) ≡ some m
    → encode to_json from_json m ≡ frame f
    → IsFlowing s
    → bytes s ≡ f ++ rest
    → (read_frame to_json from_json s).0 ≡ message m
unfolding encode read_frame
read_frame-encode to_json from_json m f rest s parsed made flowing arrives =
    let limit = command_limit to_json from_json in
    read-decode to_json from_json limit max_command_frame s flowing
    ∙ ap (decode_with to_json from_json limit max_command_frame) arrives
    ∙ decode-encode to_json from_json limit max_command_frame m f rest (omega arith) parsed made

module _ (resolve project_id_for : String → String) (id_text : ℕ → String → String) where
  abbrev here : String → CommandHandler → Option Session.Session
  here w h = session_for resolve project_id_for id_text w h

  sessions-started :
      (v : String) (h : CommandHandler) (m : SessionManager) (o : Created)
      → (started resolve project_id_for id_text v h (m, o)).0.sessions ≡ m
  unfolding started
  sessions-started v h m (created s) = refl
  sessions-started v h m (session_exists t) = refl

  -- No command takes a session away or replaces it.
  handle-session_for :
      (cmd : Command) (c : Readings) (h : CommandHandler) (w : String) (s : Session.Session)
      → here w h ≡ some s
      → here w (handle resolve project_id_for id_text cmd c h).0 ≡ some s
  unfolding handle started
  handle-session_for (start_session v) c h w s e =
      let kept = new_session_keeps resolve project_id_for id_text v w c h.sessions s e in
      let made = Session.new_session resolve project_id_for id_text v c h.sessions in
      rw (sessions-started v h made.0 made.1) kept
  handle-session_for (attach v) c h w s e = e
  handle-session_for (detach v) c h w s e = e
  handle-session_for (status v) c h w s e = e
  handle-session_for (shutdown v) c h w s e = ground arith

  handle_all-session_for :
      (cmds : List (Command × Readings)) (h : CommandHandler) (w : String) (s : Session.Session)
      → here w h ≡ some s
      → here w (handle_all resolve project_id_for id_text cmds h).0 ≡ some s
  unfolding handle_all
  handle_all-session_for [] h w s e = e
  handle_all-session_for ((cmd, c) ∷ cmds) h w s e =
      handle_all-session_for cmds (handle resolve project_id_for id_text cmd c h).0 w s
        (handle-session_for cmd c h w s e)

  -- What the commands answer while the workspace has the session `s`.
  pub record Serves (h : CommandHandler) (w : String) (thread : String) : Type 0 where
    pub attaches :
        (c : Readings)
        → handle resolve project_id_for id_text (attach w) c h ≡ (h, attach_response thread ready)
    pub detaches :
        (c : Readings)
        → handle resolve project_id_for id_text (detach w) c h ≡ (h, detach_response thread)
    pub reports :
        (c : Readings)
        → handle resolve project_id_for id_text (status w) c h
          ≡ (h, status_response (some thread) ready version)
    pub refuses :
        (c : Readings)
        → handle resolve project_id_for id_text (start_session w) c h
          ≡ (h, error_response (exists_text (resolve w) thread) attach_instead)

  serves :
      (h : CommandHandler) (w : String) (s : Session.Session)
      → here w h ≡ some s
      → gatekeeper s ≡ ready
      → Serves h w s.thread_id
  unfolding handle attached detached reported started
  serves h w s e r = record {
    attaches = λ c. rw (e, r) refl;
    detaches = λ c. rw e refl;
    reports = λ c. rw (e, r) refl;
    refuses = λ c. rw (new_session_refused resolve project_id_for id_text w c h.sessions s e) refl;
  }

  -- START_SESSION for a workspace that has no session answers with a thread id and READY. Whatever
  -- commands follow, every path that resolves to the same place then gets that thread id from ATTACH,
  -- DETACH and STATUS, and from START_SESSION the error that names it, and none of these changes the
  -- handler.
  pub handle_all-Serves :
      (w : String) (c : Readings) (h : CommandHandler)
      → here w h ≡ none
      → (thread : String) × ((handle resolve project_id_for id_text (start_session w) c h).1
          ≡ start_session_response thread ready)
        × ((cmds : List (Command × Readings)) (v : String)
            → resolve v ≡ resolve w
            → Serves
                (handle_all resolve project_id_for id_text cmds
                  (handle resolve project_id_for id_text (start_session w) c h).0).0
                v
                thread)
  unfolding handle started Session.get
  handle_all-Serves w c h free =
      let (s, made, path, id, state) =
        new_session_free resolve project_id_for id_text w c h.sessions free in
      let is_ready : gatekeeper s ≡ ready =
        ap (λ (x : HarnessState). x.tui_state.critic_gatekeeper_status) state in
      (
        s.thread_id,
        rw (made, is_ready) refl,
        λ cmds v same.
            let h' = (handle resolve project_id_for id_text (start_session w) c h).0 in
            let there : here v h' ≡ some s =
              rw (made, same) (get-put_self (resolve w) s h.sessions.sessions) in
            serves (handle_all resolve project_id_for id_text cmds h').0 v s
              (handle_all-session_for cmds h' v s there) is_ready,
      )

  -- A command that the client sends is what the handler reads, and the answer that the handler sends is
  -- what the client reads, however both streams are split into segments and whatever follows the
  -- frames, when the frames can be made and each JSON codec reads back what it wrote of the two.
  pub exchange :
      (write_command : Command → List ℕ) (parse_command : List ℕ → Option Command)
      (write_response : CommandResponse → List ℕ) (parse_response : List ℕ → Option CommandResponse)
      (cmd : Command) (c : Readings) (h : CommandHandler) (f g more after : List ℕ) (s t : Stream)
      → parse_command (write_command cmd) ≡ some cmd
      → parse_response (write_response (handle resolve project_id_for id_text cmd c h).1)
        ≡ some (handle resolve project_id_for id_text cmd c h).1
      → encode write_command parse_command cmd ≡ frame f
      → encode write_response parse_response (handle resolve project_id_for id_text cmd c h).1
        ≡ frame g
      → IsFlowing s
      → IsFlowing t
      → bytes s ≡ f ++ more
      → bytes t ≡ g ++ after
      → ((read_frame write_command parse_command s).0 ≡ message cmd)
        × ((read_frame write_response parse_response t).0
            ≡ message (handle resolve project_id_for id_text cmd c h).1)
  exchange wc pc wr pr cmd c h f g more after s t parsed parsed' made made' flows flows' arrives
        arrives' =
      (
        read_frame-encode wc pc cmd f more s parsed made flows arrives,
        read_frame-encode wr pr (handle resolve project_id_for id_text cmd c h).1 g after t parsed'
            made' flows' arrives',
      )
