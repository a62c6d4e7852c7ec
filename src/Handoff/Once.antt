-- ===== src/Handoff/Once.antt =====
-- What one call stores in the hand-off and another hands out.
use oh_my_graph.Base.{
  ◌==◌, eq_iff, String, ◌≡◌, ◌≢◌, refl, sym, ap, subst, ◌⊎◌, inl, inr, Bool, true, false, [], ◌∷◌,
  Option, none, some, Bool-cases, Option-cases,
}
use oh_my_graph.Base.Bytes.{Bytes, bytes, is_blank_bytes}
use oh_my_graph.Base.Table.{get, put, delete, get-put_same, get-delete_same}
use oh_my_graph.Disk.{FileSystem, IsLawful, held}
use oh_my_graph.FailedReply.{excerpt_failed_reply}
use oh_my_graph.Graph.{Node, handoff_session}
use oh_my_graph.Placeholders.{Kind, Placeholder, Resolved}
use oh_my_graph.Handoff.{
  Handoff, HandoffError, Self, Prints, take_prior_reply, resume_session_for, artifact_path_of,
  failed_output_path,
}
use oh_my_graph.Handoff.Files.{
  write_under_run_dir, persist_output, persist_failure, seed_prior_reply, resolve_artifact,
  resolve_locked,
}
use oh_my_graph.Handoff.Writes.{write_under_run_dir-IsAtomic, read_content}

abbrev path_in : HandoffError ⊎ Option Bytes → Bytes
path_in (inl _) = []
path_in (inr none) = []
path_in (inr (some path)) = path

abbrev pub artifact_token : Bytes → Bool → Placeholder
artifact_token id inline = record { kind = Kind.artifacts; ref = id; inline = inline }

take-known :
    (h : Handoff) (id reply : Bytes)
    → get h.prior_replies id ≡ some reply
    → take_prior_reply h id ≡ (some reply, record h { prior_replies = delete h.prior_replies id })
unfolding take_prior_reply
take-known h id reply e = rw (e, take_prior_reply) refl

take-unknown :
    (h : Handoff) (id : Bytes) → get h.prior_replies id ≡ none → (take_prior_reply h id).0 ≡ none
unfolding take_prior_reply
take-unknown h id e = rw (e, take_prior_reply) refl

resolve_artifact-known :
    (F : FileSystem) (prints : Prints) (h : Handoff) (d : F.Disk) (id path text : Bytes)
    → get h.artifact_paths id ≡ some path
    → held F d path ≡ some text
    → (resolve_artifact F prints h d (artifact_token id true) ≡ Resolved.value text)
      × (resolve_artifact F prints h d (artifact_token id false) ≡ Resolved.value path)
unfolding resolve_artifact
resolve_artifact-known F prints h d id path text known there =
    let read = read_content F d path text there in
    (rw (known, read, resolve_artifact) refl, rw (known, resolve_artifact) refl)

resume-known :
    (h : Handoff) (child : Node) (parent : String) (session : Bytes)
    → child.handoff ≡ handoff_session
    → child.depends_on ≡ parent ∷ []
    → get h.sessions (bytes parent) ≡ some session
    → session ≢ []
    → resume_session_for h child ≡ inr session
unfolding resume_session_for
resume-known h child parent [] kind parents known some_id = absurd (some_id refl)
resume-known h child parent (c ∷ cs) kind parents known some_id =
    let test : (child.handoff == handoff_session) ≡ true = (eq_iff _ _).1 kind in
    rw (test, parents, known, resume_session_for) refl

module _ (F : FileSystem) (lawful : IsLawful F) where
  persist_failure-stores :
      (h : Handoff) (d d' : F.Disk) (id reply path : Bytes)
      → persist_failure F h d id reply ≡ (inr (some path), d')
      → (path ≡ failed_output_path h.run_dir id)
        × (held F d' (failed_output_path h.run_dir id) ≡ some (excerpt_failed_reply reply))
  unfolding persist_failure
  persist_failure-stores h d d' id reply path e =
      let file = failed_output_path h.run_dir id in
      let text = excerpt_failed_reply reply in
      let result = write_under_run_dir F d file text (bytes "failed reply") id in
      let atomic = write_under_run_dir-IsAtomic F lawful d file text (bytes "failed reply") id in
      elim (Bool-cases (is_blank_bytes reply)) [
        | inl blank ↦
            let x : inr none ≡ inr (some path) = ap (λ r. r.0) (rw (blank, persist_failure) at e) in
            absurd (cc x)
        | inr says ↦ elim (Option-cases result.0) [
          | inl ok ↦
              let e' = rw (says, ok, persist_failure) at e in
              (
                sym (ap (λ r. path_in r.0) e'),
                subst (λ x. held F x file ≡ some text) (ap (λ r. r.1) e') (atomic.stored ok),
              )
          | inr (err, failed) ↦
              let x : inl err ≡ inr (some path) =
                ap (λ r. r.0) (rw (says, failed, persist_failure) at e) in
              absurd (cc x)
        ]
      ]

  -- A failed node's reply that was written is handed to one later execution: a process that seeds it
  -- from the same directory takes its bounded text once, and then has none.
  pub take_prior_reply-once :
      (h later : Handoff) (d d' : F.Disk) (id reply path : Bytes)
      → persist_failure F h d id reply ≡ (inr (some path), d')
      → later.run_dir ≡ h.run_dir
      → let (seeded, before) = seed_prior_reply F later d' id in
        let (taken, after) = take_prior_reply before id in
        (seeded ≡ inr true)
        × ((taken ≡ some (excerpt_failed_reply reply)) × ((take_prior_reply after id).0 ≡ none))
  unfolding seed_prior_reply take_prior_reply
  take_prior_reply-once h later d d' id reply path e dir =
      let text = excerpt_failed_reply reply in
      let (_, there) = persist_failure-stores h d d' id reply path e in
      let file = subst (λ x. held F d' (failed_output_path x id) ≡ some text) (sym dir) there in
      let read = read_content F d' (failed_output_path later.run_dir id) text file in
      let seeded : Handoff = record later { prior_replies = put later.prior_replies id text } in
      let take = take-known seeded id text (get-put_same later.prior_replies id text) in
      rw (read, seed_prior_reply)
        (
          refl,
          (
            ap (λ r. r.0) take,
            subst (λ r. (take_prior_reply r.1 id).0 ≡ none) (sym take)
                (take-unknown _ id (get-delete_same seeded.prior_replies id)),
          ),
        )

  -- What a call that reported no error has recorded.
  record Persisted (h after : Handoff) (d' : F.Disk) (id result session : Bytes) : Type 0 where
    path_known : get after.artifact_paths id ≡ some (artifact_path_of h.run_dir id)
    session_known : get after.sessions id ≡ some session
    stored : held F d' (artifact_path_of h.run_dir id) ≡ some result

  persist_output-Persisted :
      (h after : Handoff) (d d' : F.Disk) (id result session : Bytes)
      → persist_output F h d id result session ≡ (none, (after, d'))
      → Persisted h after d' id result session
  unfolding persist_output
  persist_output-Persisted h after d d' id result session e =
      let path = artifact_path_of h.run_dir id in
      let made = F.mkdir_all d h.run_dir in
      let out = F.write_file made.1 path result in
      elim (Bool-cases made.0) [
        | inr failed ↦ absurd (cc (ap (λ r. r.0) (rw (failed, persist_output) at e)))
        | inl ok ↦ elim (Bool-cases out.0) [
          | inr failed ↦ absurd (cc (ap (λ r. r.0) (rw (ok, failed, persist_output) at e)))
          | inl good ↦
              subst (λ r. Persisted h r.1.0 r.1.1 id result session)
                (rw (ok, good, persist_output) at e)
                (record {
                  path_known = get-put_same h.artifact_paths id path;
                  session_known = get-put_same h.sessions id session;
                  stored = lawful.write_file_stores made.1 path result good;
                })
        ]
      ]

  -- A result that was persisted is what the node's artifact stands for: its path by default, its text
  -- when inlined.
  pub persist_output-resolves :
      (h after : Handoff) (d d' : F.Disk) (id result session : Bytes) (prints : Prints) (who : Self)
      → persist_output F h d id result session ≡ (none, (after, d'))
      → (resolve_locked F prints after d' who 0 (artifact_token id true) ≡ Resolved.value result)
        × (resolve_locked F prints after d' who 0 (artifact_token id false)
            ≡ Resolved.value (artifact_path_of h.run_dir id))
  unfolding resolve_locked
  persist_output-resolves h after d d' id result session prints who e =
      let kept = persist_output-Persisted h after d d' id result session e in
      resolve_artifact-known F prints after d' id _ result kept.path_known kept.stored

  -- A session node whose only parent was persisted with a session id resumes that session.
  pub persist_output-resumes :
      (h after : Handoff) (d d' : F.Disk) (parent : String) (result session : Bytes) (child : Node)
      → persist_output F h d (bytes parent) result session ≡ (none, (after, d'))
      → session ≢ []
      → child.handoff ≡ handoff_session
      → child.depends_on ≡ parent ∷ []
      → resume_session_for after child ≡ inr session
  persist_output-resumes h after d d' parent result session child e some_id kind parents =
      let kept = persist_output-Persisted h after d d' (bytes parent) result session e in
      resume-known after child parent session kind parents kept.session_known some_id
