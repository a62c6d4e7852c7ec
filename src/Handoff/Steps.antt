-- ===== src/Handoff/Steps.antt =====
-- Each operation keeps the memory and the run directory in step.
use oh_my_graph.Base.{
  String, ◌≡◌, ◌≢◌, refl, sym, subst, ◌∙◌, ◌⊎◌, inl, inr, true, List, [], ◌∷◌, map, Option, none,
  some, Bool-cases, Option-cases, All,
}
use oh_my_graph.Base.Bytes.{Bytes, bytes, is_blank_bytes}
use oh_my_graph.Base.Table.{Table, get, put}
use oh_my_graph.Disk.{FileSystem, Removal, IsLawful, held}
use oh_my_graph.FailedReply.{excerpt_failed_reply}
use oh_my_graph.Names.{node_id_matches}
use oh_my_graph.Handoff.{
  Handoff, HandoffError, take_prior_reply, artifact_path_of, feedback_path, previous_path,
  failed_output_path,
}
use oh_my_graph.Handoff.Files.{
  write_under_run_dir, persist_output, set_feedback, round_reply, archive_reply, archive_round,
  persist_failure, drop_failure,
}
use oh_my_graph.Handoff.InStep.{
  remembered, feedback-News, previous-News, InStep, written, failed_write, good_write,
}
use oh_my_graph.Handoff.Paths.{Place, place_path, place_path_distinct}
use oh_my_graph.Handoff.Writes.{write_under_run_dir-IsAtomic}

round_reply-cases :
    (r : HandoffError ⊎ Option Bytes)
    → ((e : HandoffError) × (r ≡ inl e))
      ⊎ ((r ≡ inr none) ⊎ ((text : Bytes) × (r ≡ inr (some text))))
round_reply-cases (inl e) = inl (e, refl)
round_reply-cases (inr none) = inr (inl refl)
round_reply-cases (inr (some text)) = inr (inr (text, refl))

not_artifact :
    (p : Place) (h : Handoff) (id : String) (c : Bytes)
    → remembered p h (bytes id) ≡ some c
    → p ≢ Place.artifact
not_artifact Place.artifact h id c e same = cc e
not_artifact Place.feedback h id c e same = cc same
not_artifact Place.previous h id c e same = cc same
not_artifact Place.failed h id c e same = cc same

not_failed :
    (p : Place) (h : Handoff) (id : String) (c : Bytes)
    → remembered p h (bytes id) ≡ some c
    → p ≢ Place.failed
not_failed Place.artifact h id c e same = cc same
not_failed Place.feedback h id c e same = cc same
not_failed Place.previous h id c e same = cc same
not_failed Place.failed h id c e same = cc e

removal-cases :
    (r : Removal) → (r ≡ Removal.removed) ⊎ ((r ≡ Removal.absent) ⊎ (r ≡ Removal.not_removed))
removal-cases Removal.removed = inl refl
removal-cases Removal.absent = inr (inl refl)
removal-cases Removal.not_removed = inr (inr refl)

persisted_memory :
    (h : Handoff) (paths sessions : Table Bytes) (p : Place) (id : Bytes)
    → remembered p (record h { artifact_paths = paths; sessions = sessions }) id ≡ remembered p h id
persisted_memory h paths sessions Place.artifact id = refl
persisted_memory h paths sessions Place.feedback id = refl
persisted_memory h paths sessions Place.previous id = refl
persisted_memory h paths sessions Place.failed id = refl

taken_memory :
    (h : Handoff) (replies : Table Bytes) (p : Place) (id : Bytes)
    → remembered p (record h { prior_replies = replies }) id ≡ remembered p h id
taken_memory h replies Place.artifact id = refl
taken_memory h replies Place.feedback id = refl
taken_memory h replies Place.previous id = refl
taken_memory h replies Place.failed id = refl

module _ (F : FileSystem) (lawful : IsLawful F) where
  pub set_feedback-InStep :
      (h : Handoff) (d : F.Disk) (id : String) (payload : Bytes)
      → node_id_matches id ≡ true
      → InStep F h d
      → let after = set_feedback F h d (bytes id) payload in InStep F after.1.0 after.1.1
  unfolding set_feedback
  set_feedback-InStep h d id payload hid step =
      let result =
        write_under_run_dir F d (feedback_path h.run_dir (bytes id)) payload
          (bytes "feedback payload") (bytes id) in
      let atomic =
        write_under_run_dir-IsAtomic F lawful d (feedback_path h.run_dir (bytes id)) payload
          (bytes "feedback payload") (bytes id) in
      elim (Option-cases result.0) [
        | inl ok ↦
            rw (ok, set_feedback)
              (good_write F lawful h (record h { feedback = put h.feedback (bytes id) payload }) d
                step Place.feedback id hid payload result atomic ok refl
                (feedback-News h (bytes id) payload))
        | inr (e, err) ↦
            rw (err, set_feedback)
              (failed_write F lawful h d step Place.feedback id hid payload result atomic
                (λ x. cc (sym err ∙ x)))
      ]

  archive_reply-InStep :
      (h : Handoff) (d : F.Disk) (id : String) (reply : Bytes)
      → node_id_matches id ≡ true
      → InStep F h d
      → let after = archive_reply F h d (bytes id) reply in InStep F after.1.0 after.1.1
  unfolding archive_reply
  archive_reply-InStep h d id reply hid step =
      let result =
        write_under_run_dir F d (previous_path h.run_dir (bytes id)) reply
          (bytes "previous-round reply") (bytes id) in
      let atomic =
        write_under_run_dir-IsAtomic F lawful d (previous_path h.run_dir (bytes id)) reply
          (bytes "previous-round reply") (bytes id) in
      elim (Option-cases result.0) [
        | inl ok ↦
            rw (ok, archive_reply)
              (good_write F lawful h (record h { previous = put h.previous (bytes id) reply }) d
                step Place.previous id hid reply result atomic ok refl
                (previous-News h (bytes id) reply))
        | inr (e, err) ↦
            rw (err, archive_reply)
              (failed_write F lawful h d step Place.previous id hid reply result atomic
                (λ x. cc (sym err ∙ x)))
      ]

  pub archive_round-InStep :
      (declarer reply : Bytes) (body : List String) (h : Handoff) (d : F.Disk)
      → All (λ id. node_id_matches id ≡ true) body
      → InStep F h d
      → let after = archive_round F declarer reply (map bytes body) h d in
        InStep F after.1.0 after.1.1
  unfolding archive_round
  archive_round-InStep declarer reply [] h d accepted step = step
  archive_round-InStep declarer reply (id ∷ body) h d (hid, accepted) step =
      elim (round_reply-cases (round_reply F h d declarer reply (bytes id))) [
        | inl (e, k) ↦ rw (k, archive_round) step
        | inr (inl k) ↦
            rw (k, archive_round) (archive_round-InStep declarer reply body h d accepted step)
        | inr (inr (text, k)) ↦
            let one = archive_reply-InStep h d id text hid step in
            elim (Option-cases (archive_reply F h d (bytes id) text).0) [
              | inl ok ↦
                  rw (k, ok, archive_round)
                    (archive_round-InStep declarer reply body _ _ accepted one)
              | inr (e, err) ↦ rw (k, err, archive_round) one
            ]
      ]

  -- An operation that writes nothing the memory would have to agree with.
  same_memory :
      (h h' : Handoff) (d d' : F.Disk)
      → InStep F h d
      → h'.run_dir ≡ h.run_dir
      → ((p : Place) (id : Bytes) → remembered p h' id ≡ remembered p h id)
      → ((p : Place) (id : String) (c : Bytes)
          → node_id_matches id ≡ true
          → remembered p h (bytes id) ≡ some c
          → held F d' (place_path p h.run_dir (bytes id))
            ≡ held F d (place_path p h.run_dir (bytes id)))
      → InStep F h' d'
  same_memory h h' d d' step dir memory files = record {
    stored = λ p id c hid e.
        let old = sym (memory p (bytes id)) ∙ e in
        subst (λ x. held F d' (place_path p x (bytes id)) ≡ some c) (sym dir)
          (files p id c hid old ∙ step.stored p id c hid old);
  }

  pub persist_output-InStep :
      (h : Handoff) (d : F.Disk) (id : String) (result session : Bytes)
      → node_id_matches id ≡ true
      → InStep F h d
      → let after = persist_output F h d (bytes id) result session in InStep F after.1.0 after.1.1
  unfolding persist_output
  persist_output-InStep h d id result session hid step =
      let path = artifact_path_of h.run_dir (bytes id) in
      let made = F.mkdir_all d h.run_dir in
      let out = F.write_file made.1 path result in
      let apart : (p : Place) (other : String) (c : Bytes)
          → node_id_matches other ≡ true
          → remembered p h (bytes other) ≡ some c
          → held F out.1 (place_path p h.run_dir (bytes other))
            ≡ held F d (place_path p h.run_dir (bytes other)) =
        λ p other c ho e.
          lawful.write_file_keeps made.1 path result _ (λ same.
            not_artifact p h other c e
              (place_path_distinct p Place.artifact h.run_dir other id ho hid same).0)
          ∙ lawful.mkdir_keeps d h.run_dir _ in
      elim (Bool-cases made.0) [
        | inr failed ↦
            rw (failed, persist_output)
              (same_memory h h d made.1 step refl (λ _ _. refl)
                (λ p other c ho e. lawful.mkdir_keeps d h.run_dir _))
        | inl ok ↦ elim (Bool-cases out.0) [
          | inr failed ↦
              rw (ok, failed, persist_output)
                (same_memory h h d out.1 step refl (λ _ _. refl) apart)
          | inl stored ↦
              rw (ok, stored, persist_output)
                (same_memory h _ d out.1 step refl (persisted_memory h _ _) apart)
        ]
      ]

  pub persist_failure-InStep :
      (h : Handoff) (d : F.Disk) (id : String) (reply : Bytes)
      → node_id_matches id ≡ true
      → InStep F h d
      → InStep F h (persist_failure F h d (bytes id) reply).1
  unfolding persist_failure
  persist_failure-InStep h d id reply hid step =
      let path = failed_output_path h.run_dir (bytes id) in
      let text = excerpt_failed_reply reply in
      let result = write_under_run_dir F d path text (bytes "failed reply") (bytes id) in
      let atomic =
        write_under_run_dir-IsAtomic F lawful d path text (bytes "failed reply") (bytes id) in
      elim (Bool-cases (is_blank_bytes reply)) [
        | inl blank ↦ rw (blank, persist_failure) step
        | inr says ↦ elim (Option-cases result.0) [
          | inl ok ↦
              rw (says, ok, persist_failure)
                (same_memory h h d result.1 step refl (λ _ _. refl)
                  (λ p other c ho e.
                    written F lawful h d step Place.failed id hid text result atomic p other c ho
                      (λ (same, _). not_failed p h other c e same) e
                    ∙ sym (step.stored p other c ho e)))
          | inr (e, err) ↦
              rw (says, err, persist_failure)
                (failed_write F lawful h d step Place.failed id hid text result atomic
                  (λ x. cc (sym err ∙ x)))
        ]
      ]

  pub drop_failure-InStep :
      (h : Handoff) (d : F.Disk) (id : String)
      → node_id_matches id ≡ true
      → InStep F h d
      → InStep F h (drop_failure F h d (bytes id)).1
  unfolding drop_failure
  drop_failure-InStep h d id hid step =
      let path = failed_output_path h.run_dir (bytes id) in
      let after = F.remove d path in
      let kept =
        same_memory h h d after.1 step refl (λ _ _. refl)
          (λ p other c ho e. lawful.remove_keeps d path _ (λ same.
            not_failed p h other c e
              (place_path_distinct p Place.failed h.run_dir other id ho hid same).0)) in
      elim (removal-cases after.0) [
        | inl e ↦ rw (e, drop_failure) kept
        | inr (inl e) ↦ rw (e, drop_failure) kept
        | inr (inr e) ↦ rw (e, drop_failure) kept
      ]

  pub take_prior_reply-InStep :
      (h : Handoff) (d : F.Disk) (id : Bytes) → InStep F h d → InStep F (take_prior_reply h id).1 d
  unfolding take_prior_reply
  take_prior_reply-InStep h d id step = elim (Option-cases (get h.prior_replies id)) [
    | inl e ↦ rw (e, take_prior_reply) step
    | inr (reply, e) ↦
        rw (e, take_prior_reply)
          (same_memory h _ d d step refl (taken_memory h _) (λ p other c ho e. refl))
  ]
