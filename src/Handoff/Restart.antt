-- ===== src/Handoff/Restart.antt =====
-- A run as a sequence of operations on its hand-off, and a later process that reads its directory.
use oh_my_graph.Base.{
  ◌⊎◌, String, ◌≡◌, refl, sym, subst, inl, inr, true, List, [], ◌∷◌, map, some, All,
}
use oh_my_graph.Base.Bytes.{Bytes, bytes}
use oh_my_graph.Base.Table.{Table, get, get-put_same}
use oh_my_graph.Disk.{FileSystem, Read, IsLawful, held}
use oh_my_graph.Names.{node_id_matches}
use oh_my_graph.Handoff.{Handoff, new, take_prior_reply, feedback_path, previous_path}
use oh_my_graph.Handoff.Files.{
  persist_output, set_feedback, seed_feedback, archive_round, seed_previous, persist_failure,
  drop_failure,
}
use oh_my_graph.Handoff.InStep.{remembered, InStep}
use oh_my_graph.Handoff.Paths.{Place, place_path}
use oh_my_graph.Handoff.Writes.{read_content}
use oh_my_graph.Handoff.Steps.{
  set_feedback-InStep, archive_round-InStep, persist_output-InStep, persist_failure-InStep,
  drop_failure-InStep, take_prior_reply-InStep,
}

-- What the scheduler calls while the run goes on.
pub data Operation : Type 0 where
  persist_output_of : String → Bytes → Bytes → Operation
  set_feedback_of : String → Bytes → Operation
  archive_round_of : String → Bytes → List String → Operation
  persist_failure_of : String → Bytes → Operation
  drop_failure_of take_prior_reply_of : String → Operation

abbrev IsId : String → Type 0
IsId id = node_id_matches id ≡ true

abbrev NamesIds : Operation → Type 0
NamesIds (Operation.persist_output_of id _ _) = IsId id
NamesIds (Operation.set_feedback_of id _) = IsId id
NamesIds (Operation.archive_round_of _ _ body) = All IsId body
NamesIds (Operation.persist_failure_of id _) = IsId id
NamesIds (Operation.drop_failure_of id) = IsId id
NamesIds (Operation.take_prior_reply_of id) = IsId id

module _ (F : FileSystem) where
  unfoldable pub perform : Operation → Handoff → F.Disk → Handoff × F.Disk
  perform (Operation.persist_output_of id result session) h d =
      (persist_output F h d (bytes id) result session).1
  perform (Operation.set_feedback_of id payload) h d = (set_feedback F h d (bytes id) payload).1
  perform (Operation.archive_round_of declarer reply body) h d =
      (archive_round F (bytes declarer) reply (map bytes body) h d).1
  perform (Operation.persist_failure_of id reply) h d =
      (h, (persist_failure F h d (bytes id) reply).1)
  perform (Operation.drop_failure_of id) h d = (h, (drop_failure F h d (bytes id)).1)
  perform (Operation.take_prior_reply_of id) h d = ((take_prior_reply h (bytes id)).1, d)

  -- The operations one after the other, whether or not they report errors.
  unfoldable pub perform_all : List Operation → Handoff → F.Disk → Handoff × F.Disk
  unfolding perform
  perform_all [] h d = (h, d)
  perform_all (op ∷ ops) h d = let (h', d') = perform op h d in perform_all ops h' d'

  -- What a later process reads back for one node.
  unfoldable pub reread : Handoff → F.Disk → Bytes → Handoff
  unfolding seed_feedback seed_previous
  reread h d id = (seed_previous F (seed_feedback F h d id).1 d id).1

some_place :
    (p : Place) (h : Handoff) (id c : Bytes)
    → remembered p h id ≡ some c
    → (p ≡ Place.feedback) ⊎ (p ≡ Place.previous)
some_place Place.artifact h id c e = absurd (cc e)
some_place Place.feedback h id c e = inl refl
some_place Place.previous h id c e = inr refl
some_place Place.failed h id c e = absurd (cc e)

module _ (F : FileSystem) (lawful : IsLawful F) where
  perform-InStep :
      (op : Operation) (h : Handoff) (d : F.Disk)
      → NamesIds op
      → InStep F h d
      → InStep F (perform F op h d).0 (perform F op h d).1
  unfolding perform
  perform-InStep (Operation.persist_output_of id result session) h d ids step =
      persist_output-InStep F lawful h d id result session ids step
  perform-InStep (Operation.set_feedback_of id payload) h d ids step =
      set_feedback-InStep F lawful h d id payload ids step
  perform-InStep (Operation.archive_round_of declarer reply body) h d ids step =
      archive_round-InStep F lawful (bytes declarer) reply body h d ids step
  perform-InStep (Operation.persist_failure_of id reply) h d ids step =
      persist_failure-InStep F lawful h d id reply ids step
  perform-InStep (Operation.drop_failure_of id) h d ids step =
      drop_failure-InStep F lawful h d id ids step
  perform-InStep (Operation.take_prior_reply_of id) h d ids step =
      take_prior_reply-InStep F lawful h d (bytes id) step

  perform_all-InStep :
      (ops : List Operation) (h : Handoff) (d : F.Disk)
      → All NamesIds ops
      → InStep F h d
      → InStep F (perform_all F ops h d).0 (perform_all F ops h d).1
  unfolding perform_all
  perform_all-InStep [] h d ids step = step
  perform_all-InStep (op ∷ ops) h d (here, ids) step =
      perform_all-InStep ops (perform F op h d).0 (perform F op h d).1 ids
        (perform-InStep op h d here step)

  new-InStep :
      (run_dir : Bytes) (inputs : Table Bytes) (d : F.Disk) → InStep F (new run_dir inputs) d
  unfolding new
  new-InStep run_dir inputs d = record { stored = λ p id c hid e. absurd (nothing p id c e) }
    where
      nothing :
          (p : Place) (id : String) (c : Bytes)
          → ¬ (remembered p (new run_dir inputs) (bytes id) ≡ some c)
      nothing Place.artifact id c e = cc e
      nothing Place.feedback id c e = cc e
      nothing Place.previous id c e = cc e
      nothing Place.failed id c e = cc e

  read_cases :
      (r : Read)
      → ((c : Bytes) × (r ≡ Read.content c)) ⊎ ((r ≡ Read.missing) ⊎ (r ≡ Read.unreadable))
  read_cases (Read.content c) = inl (c, refl)
  read_cases Read.missing = inr (inl refl)
  read_cases Read.unreadable = inr (inr refl)

  -- Seeding the one table leaves the directory and the other table as they were.
  seed_feedback-keeps :
      (h : Handoff) (d : F.Disk) (id : Bytes) → ((seed_feedback F h d id).1.run_dir ≡ h.run_dir)
  unfolding seed_feedback
  seed_feedback-keeps h d id = elim (read_cases (F.read_file d (feedback_path h.run_dir id))) [
    | inl (c, e) ↦ rw (e, seed_feedback) refl
    | inr (inl e) ↦ rw (e, seed_feedback) refl
    | inr (inr e) ↦ rw (e, seed_feedback) refl
  ]

  seed_previous-keeps :
      (h : Handoff) (d : F.Disk) (id : Bytes) → (seed_previous F h d id).1.feedback ≡ h.feedback
  unfolding seed_previous
  seed_previous-keeps h d id = elim (read_cases (F.read_file d (previous_path h.run_dir id))) [
    | inl (c, e) ↦ rw (e, seed_previous) refl
    | inr (inl e) ↦ rw (e, seed_previous) refl
    | inr (inr e) ↦ rw (e, seed_previous) refl
  ]

  seed_feedback-get :
      (h : Handoff) (d : F.Disk) (id c : Bytes)
      → held F d (feedback_path h.run_dir id) ≡ some c
      → get (seed_feedback F h d id).1.feedback id ≡ some c
  unfolding seed_feedback
  seed_feedback-get h d id c e =
      rw (read_content F d (feedback_path h.run_dir id) c e, seed_feedback)
        (get-put_same h.feedback id c)

  seed_previous-get :
      (h : Handoff) (d : F.Disk) (id c : Bytes)
      → held F d (previous_path h.run_dir id) ≡ some c
      → get (seed_previous F h d id).1.previous id ≡ some c
  unfolding seed_previous
  seed_previous-get h d id c e =
      rw (read_content F d (previous_path h.run_dir id) c e, seed_previous)
        (get-put_same h.previous id c)

  -- A node's two files are read back into the two tables.
  reread-stored :
      (h : Handoff) (d : F.Disk) (p : Place) (id c : Bytes)
      → (p ≡ Place.feedback) ⊎ (p ≡ Place.previous)
      → held F d (place_path p h.run_dir id) ≡ some c
      → remembered p (reread F h d id) id ≡ some c
  unfolding reread
  reread-stored h d Place.artifact id c (inl e) there = absurd (cc e)
  reread-stored h d Place.artifact id c (inr e) there = absurd (cc e)
  reread-stored h d Place.failed id c (inl e) there = absurd (cc e)
  reread-stored h d Place.failed id c (inr e) there = absurd (cc e)
  reread-stored h d Place.feedback id c _ there =
      let again = seed_feedback F h d id in
      subst (λ t. get t id ≡ some c) (sym (seed_previous-keeps again.1 d id))
        (seed_feedback-get h d id c there)
  reread-stored h d Place.previous id c _ there =
      let again = seed_feedback F h d id in
      seed_previous-get again.1 d id c (
        subst (λ x. held F d (previous_path x id) ≡ some c) (sym (seed_feedback-keeps h d id))
          there)

  -- Whatever a run did, failed calls included: a later process that rereads its directory has every
  -- feedback payload and every reply of an earlier round that the run had in memory.
  pub reread-remembers :
      (run_dir : Bytes) (inputs : Table Bytes) (d : F.Disk) (ops : List Operation)
      → All NamesIds ops
      → (p : Place) (id : String) (c : Bytes) → node_id_matches id ≡ true
      → remembered p (perform_all F ops (new run_dir inputs) d).0 (bytes id) ≡ some c
      → let (h, d') = perform_all F ops (new run_dir inputs) d in
        remembered p (reread F (new h.run_dir inputs) d' (bytes id)) (bytes id) ≡ some c
  unfolding reread new
  reread-remembers run_dir inputs d ops ids p id c hid e =
      let (h, d') = perform_all F ops (new run_dir inputs) d in
      let step = perform_all-InStep ops (new run_dir inputs) d ids (new-InStep run_dir inputs d) in
      reread-stored (new h.run_dir inputs) d' p (bytes id) c (some_place p h (bytes id) c e)
        (step.stored p id c hid e)
