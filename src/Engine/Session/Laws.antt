-- ===== src/Engine/Session/Laws.antt =====
-- engine/session.py: one session for each workspace.
use dev_harness.Common.{
  ℕ, ◌<◌, String, ◌≡◌, refl, false, none, some, arith, ◌==◌, nat_eq, string_eq, beq_refl,
  Option-cases, Bool-cases, inl, inr,
}
use dev_harness.Dict
use dev_harness.Dict.{get-put, get-remove, get-put_self}
use dev_harness.Contracts.State.{fresh_state}
use dev_harness.Engine.Session.{
  Session, SessionManager, created, session_exists, next_ns, Readings, new_found, new_session, get,
  remove,
}

module _ (resolve project_id_for : String → String) (id_text : ℕ → String → String) where
  pub new_session_free :
      (w : String) (c : Readings) (m : SessionManager)
      → get resolve project_id_for id_text w m ≡ none
      → (s : Session) × (new_session resolve project_id_for id_text w c m ≡ (
        record {
          last_ns = next_ns c.now_ns m.last_ns;
          sessions = Dict.put (resolve w) s m.sessions;
        },
        created s,
      ))
        × (s.workspace_path ≡ resolve w)
        × (s.thread_id ≡ id_text (next_ns c.now_ns m.last_ns) c.suffix)
        × (s.state ≡ fresh_state (project_id_for (resolve w)) (resolve w) s.thread_id)
  unfolding new_session new_found get
  new_session_free w c m free = rw free (_, refl, refl, refl, refl)

  -- A call leaves the sessions that are there.
  pub new_session_keeps :
      (v w : String) (c : Readings) (m : SessionManager) (s : Session)
      → get resolve project_id_for id_text w m ≡ some s
      → get resolve project_id_for id_text w (new_session resolve project_id_for id_text v c m).0
        ≡ some s
  unfolding new_session new_found get
  new_session_keeps v w c m s e = elim (Option-cases (Dict.get (resolve v) m.sessions)) [
    | inr (old, there) ↦ rw there e
    | inl free ↦ rw free (
        rw get-put (elim (Bool-cases (resolve v == resolve w)) [
          | inl same ↦ absurd (ground (arith, string_eq.beq_iff (resolve v) (resolve w), e, free))
          | inr other ↦ rw other e
        ]))
  ]

  pub new_session_refused :
      (w : String) (c : Readings) (m : SessionManager) (s : Session)
      → get resolve project_id_for id_text w m ≡ some s
      → new_session resolve project_id_for id_text w c m ≡ (m, session_exists s.thread_id)
  unfolding new_session new_found get
  new_session_refused w c m s e = rw e refl

  -- A workspace without a session gets one, for its resolved path and with an id whose number is above
  -- all that were given before. Then every path that resolves to the same place finds that session and
  -- is refused a second one, with the first one's id and no change, and all other places find what they
  -- did. After its removal the workspace has no session.
  pub new_session_once :
      (w : String) (c : Readings) (m : SessionManager)
      → get resolve project_id_for id_text w m ≡ none
      → (s : Session) × (m' : SessionManager) × (new_session resolve project_id_for id_text w c m
          ≡ (m', created s))
        × (m.last_ns < m'.last_ns)
        × (s.thread_id ≡ id_text m'.last_ns c.suffix)
        × ((v : String) (d : Readings)
            → resolve v ≡ resolve w
            → (get resolve project_id_for id_text v m' ≡ some s)
              × (new_session resolve project_id_for id_text v d m'
                  ≡ (m', session_exists s.thread_id))
              × (get resolve project_id_for id_text v (remove resolve project_id_for id_text w m').0
                  ≡ none))
        × ((v : String)
            → (resolve w == resolve v) ≡ false
            → get resolve project_id_for id_text v m' ≡ get resolve project_id_for id_text v m)
  unfolding new_session new_found get remove
  new_session_once w c m free =
      let (s, made, path, id, _) = new_session_free w c m free in
      (
        s,
        _,
        made,
        later,
        id,
        λ v d same.
            (rw (same, get-put_self), rw (same, get-put_self), rw (same, get-remove, beq_refl)),
        λ v other. rw (get-put, other),
      )
    where
      later : m.last_ns < next_ns c.now_ns m.last_ns
      later = unfold next_ns in ground arith
