-- ===== src/Lint/Runs.antt =====
-- A graph without findings: its templates can be interpolated when the nodes run.
use oh_my_graph.Base.{
  ℕ, suc, ◌<◌, String, ◌≡◌, ◌≢◌, refl, sym, ap, subst, ◌∙◌, ◌⊎◌, inl, inr, Bool, true, false, List,
  [], ◌∷◌, map, none, some, arith, All, Memᴰ, All-mem, Bool-cases, Option-cases,
}
use oh_my_graph.Base.Bytes.{Bytes, bytes, same_bytes, same_bytes_iff}
use oh_my_graph.Base.Table.{get}
use oh_my_graph.Ancestors.{ancestor_set}
use oh_my_graph.Ancestors.Decides.{ancestor_set_iff}
use oh_my_graph.Disk.{FileSystem, held}
use oh_my_graph.Graph.{Graph, Node, Index, type_gate}
use oh_my_graph.Graph.Index.{IsIndexed}
use oh_my_graph.Graph.Paths.{Above}
use oh_my_graph.Handoff.{Handoff, Prints, self_previous, self_timeout, self_token_refused}
use oh_my_graph.Handoff.Interpolation.{IsResolvable, AllResolvable, interpolate_as_decides}
use oh_my_graph.Handoff.Files.{interpolate_as}
use oh_my_graph.Placeholders.{Kind, Placeholder, placeholders_of}
use oh_my_graph.Placeholders.Template.{is_value}
use oh_my_graph.Lint.{
  holds, id_of, judge_self, judge_artifact, judge_placeholder, templated_fields,
  placeholder_findings,
}
use oh_my_graph.Lint.Clean.{IsSilent, findings_from-nil}
use oh_my_graph.Schedule.Prompts.{self_of, effective_timeout}

holds-mem :
    (names : List String) (ref : Bytes)
    → holds (map bytes names) ref ≡ true
    → (name : String) × (Memᴰ name names × (bytes name ≡ ref))
holds-mem [] ref h = absurd (cc h)
holds-mem (name ∷ names) ref h = elim (Bool-cases (same_bytes (bytes name) ref)) [
  | inl same ↦ (name, (Memᴰ.head refl, (same_bytes_iff (bytes name) ref).0 same))
  | inr other ↦
      let (found, (m, e)) = holds-mem names ref (rw (other, holds) at h) in
      (found, (Memᴰ.tail m, e))
]

id_of-eq : (index : Index) (ref : Bytes) (id : String) → id_of index ref ≡ some id → bytes id ≡ ref
id_of-eq [] ref id h = absurd (cc h)
id_of-eq ((k, n) ∷ index) ref id h = elim (Bool-cases (same_bytes (bytes k) ref)) [
  | inl same ↦
      let e : k ≡ id = ground (arith, same, h) in
      ap bytes (sym e) ∙ (same_bytes_iff (bytes k) ref).0 same
  | inr other ↦ id_of-eq index ref id (rw (other, id_of) at h)
]

-- A filter on a feedback token is refused when the graph is loaded.
abbrev pub HasNoFilter : Placeholder → Type 0
HasNoFilter p = p.kind ≡ Kind.feedback → p.inline ≡ false

-- A node that asks for an approval: it has no reply, so nothing is stored under its id.
abbrev pub IsGate : Graph → String → Type 0
IsGate g id = (m : Node) × Memᴰ m g.nodes × (m.id ≡ id) × (m.type ≡ type_gate)

-- The placeholder is not for the artifact of a gate.
abbrev pub NamesNoGate : Graph → Placeholder → Type 0
NamesNoGate g p = p.kind ≡ Kind.artifacts → (id : String) → bytes id ≡ p.ref → ¬ IsGate g id

refused-none :
    (ref : Bytes) (inline : Bool)
    → self_token_refused ref inline ≡ none
    → (inline ≡ false) × ((ref ≡ self_timeout) ⊎ (ref ≡ self_previous))
unfolding self_token_refused
refused-none ref inline h =
    ground (arith, h, same_bytes_iff ref self_timeout, same_bytes_iff ref self_previous)

judge_self-none : (p : Placeholder) → judge_self p ≡ none → self_token_refused p.ref p.inline ≡ none
unfolding judge_self
judge_self-none p h = ground (arith, h)

self_of-timeout : (n : Node) → 0 < (self_of n).timeout
unfolding self_of effective_timeout
self_of-timeout n = ground arith

self_of-id : (n : Node) → (self_of n).id ≡ bytes n.id
unfolding self_of
self_of-id n = refl

judge_artifact-none :
    (g : Graph) (id : String) (p : Placeholder)
    → judge_artifact g id p ≡ none
    → (a : String) × ((id_of g.by_id p.ref ≡ some a) × (ancestor_set g id a ≡ true))
unfolding judge_artifact
judge_artifact-none g id p h = elim (Bool-cases (same_bytes p.ref (bytes id))) [
  | inl own ↦ absurd (cc (rw (own, judge_artifact) at h))
  | inr other ↦ elim (Option-cases (id_of g.by_id p.ref)) [
    | inl unknown ↦ absurd (cc (rw (other, unknown, judge_artifact) at h))
    | inr (a, known) ↦ elim (Bool-cases (ancestor_set g id a)) [
      | inl above ↦ (a, (known, above))
      | inr apart ↦ absurd (cc (rw (other, known, apart, judge_artifact) at h))
    ]
  ]
]

module _ (F : FileSystem) (prints : Prints) (g : Graph) (n : Node) (h : Handoff) (d : F.Disk) where
  -- When the scheduler launches a node: the declared inputs are bound, every node above it but the
  -- gates has left an artifact that can be read, nonces can be drawn, and the node has an id and a timeout.
  pub record IsReadyToRun : Type 0 where
    pub inputs : (name : String) → Memᴰ name g.inputs → get h.inputs (bytes name) ≢ none
    pub artifacts :
        (a : String)
        → Above g n.id a
        → ¬ IsGate g a
        → (path : Bytes) × ((get h.artifact_paths (bytes a) ≡ some path) × (held F d path ≢ none))
    pub named : bytes n.id ≢ []
    pub nonces : (k : ℕ) → prints.nonce k ≢ none

  module _ (indexed : IsIndexed g) (ready : IsReadyToRun) where
    resolvable :
        (k : ℕ) (kind : Kind) (ref : Bytes) (inline : Bool)
        → let p : Placeholder = record { kind = kind; ref = ref; inline = inline } in
          HasNoFilter p
          → NamesNoGate g p
          → judge_placeholder g n.id p ≡ none
          → IsResolvable F prints h d (self_of n) k p
    unfolding judge_placeholder
    resolvable k Kind.inputs ref inline plain gateless silent =
        elim (Bool-cases (holds (map bytes g.inputs) ref)) [
          | inr unknown ↦ absurd (cc (rw (unknown, judge_placeholder) at silent))
          | inl declared ↦
              let (name, (m, e)) = holds-mem g.inputs ref declared in
              subst (λ x. get h.inputs x ≢ none) e (ready.inputs name m)
        ]
    resolvable k Kind.feedback ref inline plain gateless silent = plain refl
    resolvable k Kind.self ref inline plain gateless silent =
        let (unfiltered, which) =
          refused-none ref inline
            (judge_self-none (record { kind = Kind.self; ref = ref; inline = inline }) silent) in
        (
          unfiltered,
          (
            subst (λ x. x ≢ []) (sym (self_of-id n)) ready.named,
            elim which [
              | inl timeout ↦ inl (timeout, self_of-timeout n)
              | inr previous ↦ inr (previous, inr (ready.nonces k))
            ],
          ),
        )
    resolvable k Kind.artifacts ref inline plain gateless silent =
        let (a, (known, above)) =
          judge_artifact-none g n.id (record { kind = Kind.artifacts; ref = ref; inline = inline })
            silent in
        let named = id_of-eq g.by_id ref a known in
        let (path, (there, readable)) =
          ready.artifacts a ((ancestor_set_iff g indexed n.id a).0 above) (gateless refl a named) in
        (path, (subst (λ x. get h.artifact_paths x ≡ some path) named there, λ _. readable))

    all_resolvable :
        (ps : List Placeholder) (k : ℕ)
        → All HasNoFilter ps
        → All (NamesNoGate g) ps
        → IsSilent g n.id ps
        → AllResolvable F prints h d (self_of n) ps k
    all_resolvable [] k plain gateless silent = tt
    all_resolvable (p ∷ ps) k (plain, plains) (gateless, others) (silent, silents) = (
      resolvable k p.kind p.ref p.inline plain gateless silent,
      all_resolvable ps (suc k) plains others silents,
    )

-- Where the lint finds nothing in a graph, a templated field of a node, its prompt, its cwd or a text
-- of its verification, is interpolated without an error when the node is ready to run, for a field
-- that has no filter on a feedback token and does not ask for the artifact of a gate.
pub placeholder_findings-nil :
    (F : FileSystem) (prints : Prints) (g : Graph) (n : Node) (h : Handoff) (d : F.Disk)
    → IsIndexed g
    → placeholder_findings g ≡ []
    → Memᴰ n g.nodes
    → IsReadyToRun F prints g n h d
    → (field : String × String) → Memᴰ field (templated_fields n)
    → All HasNoFilter (placeholders_of (bytes field.1))
    → All (NamesNoGate g) (placeholders_of (bytes field.1))
    → is_value (interpolate_as F prints h d (self_of n) (bytes field.1)) ≡ true
unfolding placeholder_findings
placeholder_findings-nil F prints g n h d indexed clean m ready field f plain gateless =
    let fields = All-mem _ g.nodes (findings_from-nil g g.nodes clean) n m in
    let silent = All-mem _ (templated_fields n) fields field f in
    (interpolate_as_decides F prints h d (self_of n) (bytes field.1)).0.1
      (all_resolvable F prints g n h d indexed ready _ 0 plain gateless silent)
