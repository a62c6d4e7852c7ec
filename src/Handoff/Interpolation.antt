-- ===== src/Handoff/Interpolation.antt =====
-- Which templates can be interpolated, and which error is reported for the others.
use oh_my_graph.Base.{
  ℕ, suc, ◌<◌, ◌≡◌, ◌≢◌, refl, ◌↔◌, ◌⊎◌, inl, inr, Bool, true, false, List, [], ◌∷◌, none, some,
  arith, Option-cases,
}
use oh_my_graph.Base.Bytes.{Bytes, same_bytes_iff, is_blank_bytes}
use oh_my_graph.Base.Table.{get}
use oh_my_graph.Disk.{FileSystem, held}
use oh_my_graph.Issue.Collect.{iff_trans}
use oh_my_graph.Placeholders.{Kind, Placeholder, Resolved, placeholders_of}
use oh_my_graph.Placeholders.Template.{
  is_value, replace_all-is_value, first_failure, replace_all_failed,
}
use oh_my_graph.Handoff.{
  Handoff, InterpolationError, Self, Prints, self_previous, self_timeout, self_token_refused,
  quote_previous, text_at,
}
use oh_my_graph.Handoff.Files.{resolve_self, resolve_artifact, resolve_locked, interpolate_as}

module _ (F : FileSystem) (prints : Prints) (h : Handoff) (d : F.Disk) (who : Self) where
  -- The reference names one of the two things a node knows of itself, and that one is there.
  abbrev IsOfSelf : ℕ → Bytes → Type 0
  IsOfSelf k ref =
      ((ref ≡ self_timeout) × (0 < who.timeout))
      ⊎ ((ref ≡ self_previous)
          × ((is_blank_bytes (text_at h.previous who.id) ≡ true) ⊎ (prints.nonce k ≢ none)))

  -- A placeholder for which there is something to put in its place.
  abbrev pub IsResolvable : ℕ → Placeholder → Type 0
  IsResolvable k p = elim p.kind [
    | Kind.inputs ↦ get h.inputs p.ref ≢ none
    | Kind.feedback ↦ p.inline ≡ false
    | Kind.self ↦ (p.inline ≡ false) × ((who.id ≢ []) × IsOfSelf k p.ref)
    | Kind.artifacts ↦
        (path : Bytes) × ((get h.artifact_paths p.ref ≡ some path)
          × ((p.inline ≡ true) → held F d path ≢ none))
  ]

  abbrev pub AllResolvable : List Placeholder → ℕ → Type 0
  AllResolvable [] k = Unit
  AllResolvable (p ∷ ps) k = IsResolvable k p × AllResolvable ps (suc k)

  resolve_artifact_iff :
      (ref : Bytes) (inline : Bool)
      → (is_value (
            resolve_artifact F prints h d
              (record { kind = Kind.artifacts; ref = ref; inline = inline }))
          ≡ true)
        ↔ IsResolvable 0 (record { kind = Kind.artifacts; ref = ref; inline = inline })
  unfolding resolve_artifact
  resolve_artifact_iff ref inline = elim (Option-cases (get h.artifact_paths ref)) [
    | inl e ↦ ground (arith, e)
    | inr (path, e) ↦ ground (arith, e)
  ]

  resolve_self_iff :
      (k : ℕ) (ref : Bytes) (inline : Bool)
      → (is_value (
            resolve_self F prints h d who k
              (record { kind = Kind.self; ref = ref; inline = inline }))
          ≡ true)
        ↔ IsResolvable k (record { kind = Kind.self; ref = ref; inline = inline })
  unfolding resolve_self self_token_refused quote_previous
  resolve_self_iff k ref inline = ground (
    arith,
    same_bytes_iff who.id [],
    same_bytes_iff ref self_timeout,
    same_bytes_iff ref self_previous,
  )

  resolve_kind_iff :
      (k : ℕ) (kind : Kind) (ref : Bytes) (inline : Bool)
      → let p : Placeholder = record { kind = kind; ref = ref; inline = inline } in
        (is_value (resolve_locked F prints h d who k p) ≡ true) ↔ IsResolvable k p
  unfolding resolve_locked
  resolve_kind_iff k Kind.inputs ref inline = ground arith
  resolve_kind_iff k Kind.feedback ref inline = ground arith
  resolve_kind_iff k Kind.self ref inline = resolve_self_iff k ref inline
  resolve_kind_iff k Kind.artifacts ref inline = resolve_artifact_iff ref inline

  resolve_locked_iff :
      (k : ℕ) (p : Placeholder)
      → (is_value (resolve_locked F prints h d who k p) ≡ true) ↔ IsResolvable k p
  resolve_locked_iff k p = resolve_kind_iff k p.kind p.ref p.inline

  first_failure_iff :
      (ps : List Placeholder) (k : ℕ)
      → (first_failure (resolve_locked F prints h d who) ps k ≡ none) ↔ AllResolvable ps k
  first_failure_iff [] k = (λ _. tt, λ _. refl)
  first_failure_iff (p ∷ ps) k =
      ground (arith, resolve_locked_iff k p, first_failure_iff ps (suc k))

  -- A template is interpolated exactly if each of its placeholders can be resolved: an input that is
  -- bound; a feedback token without a filter; a `self` token without a filter, on behalf of a node,
  -- that names its timeout when one is supplied, or its reply of the previous round; an artifact whose
  -- path is recorded, and that can be read if it is to be inlined. The error of any other template is
  -- that of its first placeholder that cannot.
  pub interpolate_as_decides :
      (tmpl : Bytes)
      → ((is_value (interpolate_as F prints h d who tmpl) ≡ true)
          ↔ AllResolvable (placeholders_of tmpl) 0)
        × ((e : InterpolationError)
            → (interpolate_as F prints h d who tmpl ≡ Resolved.failed e)
              ↔ (first_failure (resolve_locked F prints h d who) (placeholders_of tmpl) 0 ≡ some e))
  unfolding interpolate_as
  interpolate_as_decides tmpl = (
    iff_trans (replace_all-is_value (resolve_locked F prints h d who) tmpl)
        (first_failure_iff (placeholders_of tmpl) 0),
    λ e. replace_all_failed (resolve_locked F prints h d who) tmpl e,
  )
