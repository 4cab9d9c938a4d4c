-- ===== src/Engine/Integrator/Laws.antt =====
-- engine/integrator.py: all the branches are merged, or the primary branch stands where it did.
use mathlib.Core.Path.{subst}
use dev_harness.Sorted.{str_leb}
use dev_harness.Common.{
  beq_refl, arith, String, ◌≡◌, refl, sym, ap, ◌∙◌, ◌⊎◌, inl, inr, true, false, Option, none, some,
  List, [], ◌∷◌, ◌++◌, map, append-nil, append_assoc, nat_eq, string_eq, Bool-cases, Option-cases,
}
use dev_harness.Contracts.State.{Chunk}
use dev_harness.Engine.WorkerPool.{contains}
use dev_harness.Engine.Integrator.{
  Git, IsLawful, Outcome, integrated, integration_conflict, vcs_error, chunk_branch, least, Touched,
  other_chunk, abort_merge, aborted, reset_to, roll_back, merge_failed, merge_all, integrate,
  integrate_from,
}

abbrev pub ids : List Chunk → List String
ids cs = map (λ (c : Chunk). c.chunk_id) cs

-- No chunk of the list is recorded as having touched the file.
abbrev pub Untouched : String → Touched → Type 0
Untouched file [] = Unit
Untouched file ((id, files) ∷ touched) = (contains file files ≡ false) × Untouched file touched

-- The chunk named is the first of those merged that touched the file.
abbrev pub IsFirst : String → String → Touched → Type 0
IsFirst other file touched =
    (before after : Touched) × (files : List String) × (touched ≡ before ++ (other, files) ∷ after)
    × (contains file files ≡ true)
    × Untouched file before

other_chunk_lem :
    (file fallback : String) (touched : Touched)
    → ((other_chunk file touched fallback ≡ fallback) × Untouched file touched)
      ⊎ IsFirst (other_chunk file touched fallback) file touched
unfolding other_chunk
other_chunk_lem file fallback [] = inl (refl, tt)
other_chunk_lem file fallback ((id, files) ∷ touched) = elim (Bool-cases (contains file files)) [
  | inl hit ↦ rw hit (inr ([], touched, files, refl, hit, tt))
  | inr miss ↦ rw miss (elim (other_chunk_lem file fallback touched) [
    | inl (is, none_before) ↦ inl (is, (refl, none_before))
    | inr (before, after, fs, is, hit, none_before) ↦
        inr
          ((id, files) ∷ before, after, fs, ap (λ l. (id, files) ∷ l) is, hit, (miss, none_before))
  ])
]

abbrev pub names : Touched → List String
names touched = map (λ (t : String × List String). t.0) touched

names-snoc :
    (touched : Touched) (id : String) (files : List String)
    → names (touched ++ (id, files) ∷ []) ≡ names touched ++ id ∷ []
names-snoc [] id files = refl
names-snoc (t ∷ touched) id files = ap (λ l. t.0 ∷ l) (names-snoc touched id files)

-- The name given is the first of the merged chunks that touched the file, or else that of the branch.
abbrev pub IsBlamed : String → String → String → Touched → Type 0
IsBlamed other branch file touched =
    ((other ≡ branch) × Untouched file touched) ⊎ IsFirst other file touched

contains_more :
    (l file f : String) (files : List String)
    → (contains l (file ∷ files) ≡ true) ⊎ (contains l (f ∷ files) ≡ true)
    → contains l (file ∷ f ∷ files) ≡ true
unfolding contains
contains_more l file f files (inl h) = ground arith
contains_more l file f files (inr h) = ground arith

least_step :
    (file f : String) (files : List String)
    → (least file (f ∷ files) ≡ least file files) ⊎ (least file (f ∷ files) ≡ least f files)
unfolding least
least_step file f files = elim (Bool-cases (str_leb file f)) [
  | inl first ↦ inl (rw first refl)
  | inr later ↦ inr (rw later refl)
]

contains-least :
    (file : String) (files : List String) → contains (least file files) (file ∷ files) ≡ true
unfolding least contains
contains-least file [] = rw (beq_refl file) refl
contains-least file (f ∷ files) = elim (least_step file f files) [
  | inl same ↦
      subst (λ l. contains l (file ∷ f ∷ files) ≡ true) (sym same)
        (contains_more (least file files) file f files (inl (contains-least file files)))
  | inr other ↦
      subst (λ l. contains l (file ∷ f ∷ files) ≡ true) (sym other)
        (contains_more (least f files) file f files (inr (contains-least f files)))
]

module _ (G : Git) (lawful : IsLawful G) where
  -- The branches of the chunks are merged one after the other, from `s` to `t`, each recorded with what
  -- it changes against the primary branch before it.
  abbrev pub Merges : G.State → Touched → G.State → Type 0
  Merges s [] t = s ≡ t
  Merges s ((id, files) ∷ touched) t =
      (G.changed_files (chunk_branch id) s ≡ some files)
      × ((G.merge (chunk_branch id) s).1 ≡ true)
      × Merges (G.merge (chunk_branch id) s).0 touched t

  Merges-snoc :
      (s t : G.State) (touched : Touched) (id : String) (files : List String)
      → Merges s touched t
      → G.changed_files (chunk_branch id) t ≡ some files
      → (G.merge (chunk_branch id) t).1 ≡ true
      → Merges s (touched ++ (id, files) ∷ []) (G.merge (chunk_branch id) t).0
  Merges-snoc s t [] id files e known clean =
      subst (λ u. Merges u ((id, files) ∷ []) (G.merge (chunk_branch id) t).0) (sym e)
        (known, clean, refl)
  Merges-snoc s t ((c, fs) ∷ touched) id files (k, m, rest) known clean =
      (k, m, Merges-snoc (G.merge (chunk_branch c) s).0 t touched id files rest known clean)

  -- The merge of the chunk `id` into `s` fails, and leaves `t`.
  abbrev pub Fails : String → G.State → G.State → Type 0
  Fails id s t = ((G.merge (chunk_branch id) s).1 ≡ false) × ((G.merge (chunk_branch id) s).0 ≡ t)

  -- What an integration of the chunks `total` that starts at the commit `start`, in the state `s`, may
  -- end with.
  abbrev pub Integrates : String → G.State → List String → G.State × Outcome → Type 0
  Integrates start s total (t, integrated merged) =
      (touched : Touched) × (merged ≡ total) × (names touched ≡ total) × Merges s touched t
  Integrates start s total (t, integration_conflict file other id) =
      (touched : Touched) × (before : G.State) × (conflict : G.State) × (after : List String)
      × (branch : String) × (total ≡ names touched ++ id ∷ after)
      × Merges s touched before
      × Fails id before conflict
      × (contains file (G.conflicting_files conflict) ≡ true)
      × (G.primary_branch conflict ≡ some branch)
      × IsBlamed other branch file touched
      × (G.head t ≡ some start)
  Integrates start s total (t, vcs_error) =
      (touched : Touched) × (before : G.State) × (after : List String) × (id : String) × (total
        ≡ names touched ++ id ∷ after)
      × Merges s touched before
      × (((G.changed_files (chunk_branch id) before ≡ none) × (t ≡ before))
          ⊎ ((conflict : G.State) × Fails id before conflict
              × (((t ≡ conflict)
                    × ((G.conflicting_files conflict ≡ []) ⊎ (G.primary_branch conflict ≡ none)))
                  ⊎ (abort_merge G start conflict ≡ (t, false)))))

  abort-head :
      (start : String) (s : G.State)
      → (abort_merge G start s).1 ≡ true
      → G.head (abort_merge G start s).0 ≡ some start
  unfolding abort_merge aborted reset_to
  abort-head start s e = elim (Option-cases (G.merge_abort s)) [
    | inl refused ↦ absurd (cc (rw (refused, abort_merge, aborted) at e))
    | inr (u, done) ↦ elim (Option-cases (G.reset start u)) [
      | inl failed ↦ absurd (cc (rw (done, abort_merge, aborted, failed, reset_to) at e))
      | inr (t, is) ↦ rw (done, abort_merge, aborted, is, reset_to) (lawful.head-reset start u t is)
    ]
  ]

  module _ (start : String) (s before conflict : G.State) (id : String) (touched : Touched)
      (after total : List String) (is : total ≡ names touched ++ id ∷ after)
      (merges : Merges s touched before) (fails : Fails id before conflict) where
    rolled-Integrates :
        (file : String) (branch : Option String)
        → G.primary_branch conflict ≡ branch
        → contains file (G.conflicting_files conflict) ≡ true
        → Integrates start s total (roll_back G start touched id conflict file branch)
    unfolding roll_back
    rolled-Integrates file none e some_file =
        (touched, before, after, id, is, merges, inr (conflict, fails, inl (refl, inr e)))
    rolled-Integrates file (some branch) e some_file =
        elim (Bool-cases (abort_merge G start conflict).1) [
          | inl done ↦ rw done (
            touched,
            before,
            conflict,
            after,
            branch,
            is,
            merges,
            fails,
            some_file,
            e,
            other_chunk_lem file branch touched,
            abort-head start conflict done,
          )
          | inr failed ↦ rw failed (
            touched,
            before,
            after,
            id,
            is,
            merges,
            inr (conflict, fails, inr (ap (λ b. ((abort_merge G start conflict).0, b)) failed)),
          )
        ]

    failed-Integrates :
        (files : List String)
        → G.conflicting_files conflict ≡ files
        → Integrates start s total (merge_failed G start touched id conflict files)
    unfolding merge_failed
    failed-Integrates [] e =
        (touched, before, after, id, is, merges, inr (conflict, fails, inl (refl, inl e)))
    failed-Integrates (f ∷ files) e =
        rolled-Integrates (least f files) (G.primary_branch conflict) refl
          (rw e (contains-least f files))

  merge_all-Integrates :
      (start : String) (s t : G.State) (cs : List Chunk) (touched : Touched) (total : List String)
      → total ≡ names touched ++ ids cs
      → Merges s touched t
      → Integrates start s total (merge_all G start cs (names touched) touched t)
  unfolding merge_all
  merge_all-Integrates start s t [] touched total is merges =
      let all : names touched ≡ total = sym (is ∙ append-nil (names touched)) in
      (touched, all, all, merges)
  merge_all-Integrates start s t (c ∷ cs) touched total is merges =
      let id = c.chunk_id in
      let branch = chunk_branch id in
      elim (Option-cases (G.changed_files branch t)) [
        | inl unknown ↦
            rw (unknown, merge_all) (touched, t, ids cs, id, is, merges, inl (unknown, refl))
        | inr (changed, known) ↦ elim (Bool-cases (G.merge branch t).1) [
          | inl clean ↦
              let more = names-snoc touched id changed in
              rw (known, merge_all, clean)
                (rw (← more) (
                  merge_all-Integrates start s (G.merge branch t).0 cs
                    (touched ++ (id, changed) ∷ []) total
                    (is
                      ∙ sym (append_assoc (names touched) (id ∷ []) (ids cs))
                      ∙ ap (λ l. l ++ ids cs) (sym more))
                    (Merges-snoc s t touched id changed merges known clean)))
          | inr conflict ↦
              rw (known, merge_all, conflict)
                (failed-Integrates start s t (G.merge branch t).0 id touched (ids cs) total is
                  merges (conflict, refl) (G.conflicting_files (G.merge branch t).0) refl)
        ]
      ]

  -- When an integration returns, it has merged the branch of every chunk, in their order, and names them.
  -- When it ends in a conflict, those of the chunks before the second one named were merged, and that of
  -- the second one did not merge and left the file in conflict; the first one named is the first of the
  -- merged ones whose branch changed that file, or the primary branch if none of them did; and the
  -- primary branch stands at the commit where it stood before. Any other error comes after some of the
  -- branches were merged: of a branch whose changes cannot be read, of a merge that failed without a
  -- conflict, or of a roll back that failed. Git resets as it is documented to.
  pub integrate_atomic :
      (cs : List Chunk) (s : G.State) (start : String)
      → G.head s ≡ some start
      → Integrates start s (ids cs) (integrate G cs s)
  unfolding integrate integrate_from
  integrate_atomic cs s start e = rw e (merge_all-Integrates start s s cs [] (ids cs) refl refl)
