-- ===== src/Ipc/Router/Laws.antt =====
-- ipc/router.py: isolation of the handlers.
use dev_harness.Common.{
  ℕ, ◌≡◌, refl, ◌∙◌, inl, inr, Bool, List, [], ◌∷◌, ◌++◌, append-nil, arith, ◌==◌, nat_eq,
  string_eq, Bool-cases, if◌then◌else◌, keep,
}
use dev_harness.Dict
use dev_harness.Dict.{get-put}
use dev_harness.Contracts.Enums.{EventType, event_eq}
use dev_harness.Contracts.Events.{Envelope}
use dev_harness.Ipc.Router.{EventRouter, subscribers, subscribe, run_handlers, publish}

module _ (raises : ℕ → Envelope → Bool) where
  run_handlers_lem :
      (hs : List ℕ) (e : Envelope) → run_handlers raises hs e ≡ (hs, keep (λ h. raises h e) hs)
  unfolding run_handlers
  run_handlers_lem [] e = refl
  run_handlers_lem (h ∷ hs) e = ground (arith, run_handlers_lem hs e)

  subscribers-put :
      (t u : EventType) (hs : List ℕ) (r : EventRouter)
      → subscribers u (Dict.put t hs r) ≡ (if t == u then hs else subscribers u r)
  unfolding subscribers
  subscribers-put t u hs r = ground (arith, get-put t u hs r)

  -- A published envelope is handed to every handler that is subscribed to its type, in the order of
  -- subscription, the new one last, whichever of them raise; each one that raises is logged once; and
  -- the subscriptions are afterwards what they were.
  pub publish-subscribe :
      (h : ℕ) (e : Envelope) (t u : EventType) (r : EventRouter)
      → let r' = subscribe t h r in
        let hs = subscribers e.type r ++ (if t == e.type then h ∷ [] else []) in
        ((publish raises e r').1 ≡ (hs, keep (λ g. raises g e) hs))
        × (subscribers u (publish raises e r').0 ≡ subscribers u r')
  unfolding publish subscribe
  publish-subscribe h e t u r =
      let handed : subscribers e.type (Dict.put t (subscribers t r ++ h ∷ []) r)
          ≡ subscribers e.type r ++ (if t == e.type then h ∷ [] else []) =
        subscribers-put t e.type _ r ∙ joins t e.type h r in
      (
        rw (handed, run_handlers_lem),
        subscribers-put e.type u _ _ ∙ ground (arith, event_eq.beq_iff e.type u),
      )
    where
      joins :
          (t v : EventType) (h : ℕ) (r : EventRouter)
          → (if t == v then subscribers t r ++ h ∷ [] else subscribers v r)
            ≡ subscribers v r ++ (if t == v then h ∷ [] else [])
      joins t v h r = elim (Bool-cases (t == v)) [
        | inl same ↦ rw (same, (event_eq.beq_iff t v).0 same)
        | inr other ↦ rw (other, append-nil)
      ]
