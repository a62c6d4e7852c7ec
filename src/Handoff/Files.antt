-- ===== src/Handoff/Files.antt =====
-- internal/handoff/handoff.go: the operations that read or write the run directory.
use oh_my_graph.Base.{
  ℕ, ltb, Bool, true, false, not, List, [], ◌∷◌, ◌++◌, Option, none, some, if◌then◌else◌, ◌⊎◌, inl,
  inr,
}
use oh_my_graph.Base.Bytes.{Bytes, bytes, same_bytes, is_blank_bytes}
use oh_my_graph.Base.Table.{get, put}
use oh_my_graph.Disk.{FileSystem, Read, Removal, dir_of, base_of}
use oh_my_graph.FailedReply.{excerpt_failed_reply}
use oh_my_graph.Placeholders.{Kind, Placeholder, Resolved, replace_all}
use oh_my_graph.Handoff.{
  Handoff, HandoffError, Reason, Refusal, InterpolationError, Self, Prints, self_token_refused,
  self_timeout, artifact_path_of, feedback_path, previous_path, failed_output_path, quote_previous,
  text_at, interpolation_failed,
}

module _ (F : FileSystem) where
  -- A call that may fail, with the disk that it leaves.
  abbrev pub Write : Type 0
  Write = Option HandoffError × F.Disk

  -- `writeUnderRunDir` from the open temporary file on, until its deferred removal.
  unfoldable pub fill_temp : F.Disk → Bytes → Bytes → Bytes → Bytes → Bytes → Write
  fill_temp d name path payload what id =
      let (written, d1) = F.write d name payload in
      let (synced, d2) = F.sync d1 name in
      let (closed, d3) = F.close d2 name in
      let (renamed, d4) = F.rename d3 name path in
      if not written
      then (some (HandoffError.write_temp what id), (F.close d1 name).1)
      else if not synced
      then (some (HandoffError.sync_temp what id), (F.close d2 name).1)
      else if not closed
      then (some (HandoffError.close_temp what id), d3)
      else if not renamed
      then (some (HandoffError.persist what id), d4)
      else (none, d4)

  unfoldable pub write_under_run_dir : F.Disk → Bytes → Bytes → Bytes → Bytes → Write
  unfolding dir_of base_of fill_temp
  write_under_run_dir d path payload what id =
      let dir = dir_of path in
      let (made, d1) = F.mkdir_all d dir in
      let (temp, d2) = F.create_temp d1 dir (base_of path ++ bytes ".tmp-") in
      if not made then (some (HandoffError.create_dir what id), d1) else elim temp [
        | none ↦ (some (HandoffError.create_temp what id), d2)
        | some name ↦
            let (err, d3) = fill_temp d2 name path payload what id in (err, (F.remove d3 name).1)
      ]

  abbrev pub Call : Type 0
  Call = Option HandoffError × (Handoff × F.Disk)

  unfoldable pub persist_output : Handoff → F.Disk → Bytes → Bytes → Bytes → Call
  unfolding artifact_path_of
  persist_output h d id result session =
      let path = artifact_path_of h.run_dir id in
      let (made, d1) = F.mkdir_all d h.run_dir in
      let (written, d2) = F.write_file d1 path result in
      if not made
      then (some (HandoffError.create_run_dir h.run_dir), (h, d1))
      else if not written
      then (some (HandoffError.persist_output id), (h, d2))
      else let h' : Handoff = record h {
        artifact_paths = put h.artifact_paths id path;
        sessions = put h.sessions id session;
      } in
        (none, (h', d2))

  unfoldable pub set_feedback : Handoff → F.Disk → Bytes → Bytes → Call
  unfolding feedback_path write_under_run_dir
  set_feedback h d id payload =
      let (err, d') =
        write_under_run_dir d (feedback_path h.run_dir id) payload (bytes "feedback payload") id in
      elim err [
        | some e ↦ (some e, (h, d'))
        | none ↦ (none, (record h { feedback = put h.feedback id payload }, d'))
      ]

  unfoldable pub seed_feedback : Handoff → F.Disk → Bytes → Option HandoffError × Handoff
  unfolding feedback_path
  seed_feedback h d id = elim (F.read_file d (feedback_path h.run_dir id)) [
    | Read.missing ↦ (none, h)
    | Read.unreadable ↦ (some (HandoffError.reread_feedback id), h)
    | Read.content payload ↦ (none, record h { feedback = put h.feedback id payload })
  ]

  -- The reply of one member of the body: `none` is a member that has no artifact.
  unfoldable pub round_reply :
      Handoff → F.Disk → Bytes → Bytes → Bytes → HandoffError ⊎ Option Bytes
  round_reply h d declarer declarer_reply id =
      if same_bytes id declarer then inr (some declarer_reply) else elim (get h.artifact_paths id) [
        | none ↦ inr none
        | some path ↦ elim (F.read_file d path) [
          | Read.content c ↦ inr (some c)
          | _ ↦ inl (HandoffError.reread_artifact id)
        ]
      ]

  unfoldable pub archive_reply : Handoff → F.Disk → Bytes → Bytes → Call
  unfolding previous_path write_under_run_dir
  archive_reply h d id reply =
      let (err, d') =
        write_under_run_dir d (previous_path h.run_dir id) reply (bytes "previous-round reply")
          id in
      elim err [
        | some e ↦ (some e, (h, d'))
        | none ↦ (none, (record h { previous = put h.previous id reply }, d'))
      ]

  -- The loop over the body, which ends at its first error.
  unfoldable pub archive_round : Bytes → Bytes → List Bytes → Handoff → F.Disk → Call
  unfolding round_reply archive_reply
  archive_round declarer declarer_reply [] h d = (none, (h, d))
  archive_round declarer declarer_reply (id ∷ body) h d =
      elim (round_reply h d declarer declarer_reply id) [
        | inl e ↦ (some e, (h, d))
        | inr none ↦ archive_round declarer declarer_reply body h d
        | inr (some reply) ↦
            let (err, (h', d')) = archive_reply h d id reply in
            elim err [
              | some e ↦ (some e, (h', d'))
              | none ↦ archive_round declarer declarer_reply body h' d'
            ]
      ]

  unfoldable pub seed_previous : Handoff → F.Disk → Bytes → Option HandoffError × Handoff
  unfolding previous_path
  seed_previous h d id = elim (F.read_file d (previous_path h.run_dir id)) [
    | Read.missing ↦ (none, h)
    | Read.unreadable ↦ (some (HandoffError.reread_previous id), h)
    | Read.content reply ↦ (none, record h { previous = put h.previous id reply })
  ]

  -- The path of the file written, or `none` for a reply that says nothing.
  unfoldable pub persist_failure :
      Handoff → F.Disk → Bytes → Bytes → (HandoffError ⊎ Option Bytes) × F.Disk
  unfolding is_blank_bytes failed_output_path excerpt_failed_reply write_under_run_dir
  persist_failure h d id reply =
      let path = failed_output_path h.run_dir id in
      let (err, d') =
        write_under_run_dir d path (excerpt_failed_reply reply) (bytes "failed reply") id in
      if is_blank_bytes reply
      then (inr none, d)
      else elim err [ some e ↦ (inl e, d') | none ↦ (inr (some path), d') ]

  unfoldable pub drop_failure : Handoff → F.Disk → Bytes → Write
  unfolding failed_output_path
  drop_failure h d id =
      let (removal, d') = F.remove d (failed_output_path h.run_dir id) in
      elim removal [
        | Removal.removed ↦ (none, d')
        | Removal.absent ↦ (none, d')
        | Removal.not_removed ↦ (some (HandoffError.remove_failed id), d')
      ]

  -- Whether a reply was seeded, or why it could not be read.
  unfoldable pub seed_prior_reply : Handoff → F.Disk → Bytes → (HandoffError ⊎ Bool) × Handoff
  unfolding failed_output_path
  seed_prior_reply h d id = elim (F.read_file d (failed_output_path h.run_dir id)) [
    | Read.missing ↦ (inr false, h)
    | Read.unreadable ↦ (inl (HandoffError.reread_failed id), h)
    | Read.content reply ↦ (inr true, record h { prior_replies = put h.prior_replies id reply })
  ]

  module _ (prints : Prints) (h : Handoff) (d : F.Disk) where
    -- The `self` branch of `resolveLocked`.
    unfoldable pub resolve_self : Self → ℕ → Placeholder → Resolved InterpolationError
    unfolding self_token_refused quote_previous
    resolve_self who k p = elim (self_token_refused p.ref p.inline) [
      | some Refusal.refused_reference ↦ interpolation_failed p Reason.self_reference
      | some Refusal.refused_filter ↦ interpolation_failed p Reason.self_filter
      | none ↦
          if same_bytes who.id []
          then interpolation_failed p Reason.no_self
          else if same_bytes p.ref self_timeout
          then (if ltb 0 who.timeout
              then Resolved.value (prints.duration_text who.timeout)
              else interpolation_failed p Reason.no_timeout)
          else elim (quote_previous (prints.nonce k) (text_at h.previous who.id)) [
            | none ↦ interpolation_failed p Reason.nonce_failed
            | some text ↦ Resolved.value text
          ]
    ]

    -- The `artifacts` branch.
    unfoldable pub resolve_artifact : Placeholder → Resolved InterpolationError
    resolve_artifact p = elim (get h.artifact_paths p.ref) [
      | none ↦ interpolation_failed p Reason.no_artifact
      | some path ↦
          if p.inline
          then elim (F.read_file d path) [
            | Read.content c ↦ Resolved.value c
            | _ ↦ interpolation_failed p Reason.unreadable_artifact
          ]
          else Resolved.value path
    ]

    unfoldable pub resolve_locked : Self → ℕ → Placeholder → Resolved InterpolationError
    unfolding resolve_self resolve_artifact
    resolve_locked who k p = elim p.kind [
      | Kind.inputs ↦ elim (get h.inputs p.ref) [
        | none ↦ interpolation_failed p Reason.no_such_input
        | some value ↦ Resolved.value value
      ]
      | Kind.feedback ↦
          if p.inline
          then interpolation_failed p Reason.feedback_filter
          else Resolved.value (text_at h.feedback p.ref)
      | Kind.self ↦ resolve_self who k p
      | Kind.artifacts ↦ resolve_artifact p
    ]

    unfoldable pub interpolate_as : Self → Bytes → Resolved InterpolationError
    unfolding replace_all resolve_locked
    interpolate_as who tmpl = replace_all (resolve_locked who) tmpl

    -- `Interpolate`: there is no node to be `self`.
    unfoldable pub interpolate : Bytes → Resolved InterpolationError
    unfolding interpolate_as
    interpolate tmpl = interpolate_as (record { id = []; timeout = 0 }) tmpl

    -- `InterpolateFor`
    unfoldable pub interpolate_for : Bytes → Bytes → Resolved InterpolationError
    unfolding interpolate_as
    interpolate_for id tmpl = interpolate_as (record { id = id; timeout = 0 }) tmpl
