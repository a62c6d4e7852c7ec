-- ===== src/Examples/Handoffs.antt =====
-- The hand-off of the sample graph on a disk in memory.
use oh_my_graph.Base.{
  ℕ, zero, suc, ap, inl, ◌+◌, ◌-◌, ◌≤◌, ◌<◌, String, eq_iff, ◌≡◌, ◌≢◌, ◌↔◌, ◌⊎◌, inr, refl, subst,
  true, false, List, [], ◌∷◌, ◌++◌, Option, none, some, arith, length, Memᴰ, All,
}
use oh_my_graph.Base.Bytes.{Bytes, bytes}
use oh_my_graph.Base.Table.{Table, get}
use oh_my_graph.Disk.{held}
use oh_my_graph.Disk.Memory.{memory, memory-IsLawful}
use oh_my_graph.FailedReply.{max_failed_reply_bytes, unrunnable_front_block, excerpt_failed_reply}
use oh_my_graph.FailedReply.Bounds.{IsCutFile, excerpt_failed_reply-bounded}
use oh_my_graph.Fence.{excerpt, excerpt_marker}
use oh_my_graph.Fence.Bounds.{AreEnds, excerpt-keeps}
use oh_my_graph.Handoff.{
  Handoff, HandoffError, InterpolationError, Self, Prints, new, take_prior_reply, artifact_path_of,
  failed_output_path, sanitize_node_id,
}
use oh_my_graph.Handoff.Files.{
  write_under_run_dir, persist_output, persist_failure, seed_prior_reply, set_feedback,
  archive_round, resolve_locked, interpolate_as,
}
use oh_my_graph.Handoff.InStep.{remembered}
use oh_my_graph.Handoff.Paths.{
  Place, restore_node_id, place_path_distinct, restore-sanitize_node_id,
}
use oh_my_graph.Handoff.Restart.{Operation, perform_all, reread, reread-remembers}
use oh_my_graph.Handoff.Writes.{write_under_run_dir-atomic}
use oh_my_graph.Handoff.Once.{artifact_token, take_prior_reply-once, persist_output-resolves}
use oh_my_graph.Names.{node_id_matches, matches_id}
use oh_my_graph.Placeholders.{Resolved, placeholders_of, loose_tokens}
use oh_my_graph.Placeholders.Scan.{matching, placeholders_of-loose}
use oh_my_graph.Placeholders.Template.{is_value, first_failure}
use mathlib.Core.List.Memᴰ
use oh_my_graph.Ancestors.{ancestor_set}
use oh_my_graph.Ancestors.Decides.{ancestor_set_iff}
use oh_my_graph.Examples.Samples.{sample_raw, plan_node, build_node}
use oh_my_graph.Graph.{Graph, Node, type_gate, normalize_node, from_raw, parents_of}
use oh_my_graph.Graph.Index.{IsIndexed, from_raw-IsIndexed}
use oh_my_graph.Handoff.Interpolation.{AllResolvable, interpolate_as_decides}
use oh_my_graph.Lint.{placeholder_findings, judge_token, templated_fields}
use oh_my_graph.Lint.Runs.{IsReadyToRun, HasNoFilter, NamesNoGate, placeholder_findings-nil}
use oh_my_graph.Schedule.Prompts.{self_of}

abbrev run_dir : Bytes
run_dir = bytes "/runs/1"

abbrev empty_handoff : Handoff
empty_handoff = new run_dir []

abbrev prints : Prints
prints = record { nonce = λ _. some (bytes "a1b2c3"); duration_text = λ _. bytes "20m0s" }

abbrev quote_limit : ℕ
quote_limit = 34

abbrev long_text : Bytes
long_text = bytes "The check failed: two tests of the parser, and one of the printer."

excerpt-keeps_example :
    (length (excerpt long_text quote_limit) ≤ quote_limit)
    × (((length long_text ≤ quote_limit) × (excerpt long_text quote_limit ≡ long_text))
        ⊎ (((quote_limit < length long_text) × (quote_limit ≤ length excerpt_marker))
            ⊎ ((head : Bytes) × ((tail : Bytes) × ((excerpt long_text quote_limit
                      ≡ head ++ (excerpt_marker ++ tail))
                    × AreEnds long_text head tail (quote_limit - length excerpt_marker))))))
excerpt-keeps_example = excerpt-keeps long_text quote_limit

abbrev failed_reply : Bytes
failed_reply = bytes "FAIL\n  UNRUNNABLE: go vet ./...\nnothing covers it"

unfoldable filler : ℕ → Bytes
filler zero = []
filler (suc n) = b'x' ∷ filler n

length-filler : (n : ℕ) → length (filler n) ≡ n
unfolding filler
length-filler zero = refl
length-filler (suc n) = ap suc (length-filler n)

-- A reply of 300000 bytes, which is cut.
excerpt_failed_reply-bounded_example :
    let reply = filler 300_000 in
    let size = length (unrunnable_front_block reply) + length reply in
    (length (excerpt_failed_reply reply) ≤ max_failed_reply_bytes)
    × (((size ≤ max_failed_reply_bytes)
          × (excerpt_failed_reply reply ≡ unrunnable_front_block reply ++ reply))
        ⊎ ((max_failed_reply_bytes < size) × IsCutFile reply (excerpt_failed_reply reply)))
excerpt_failed_reply-bounded_example =
    excerpt_failed_reply-bounded (filler 300_000) (omega (arith, length-filler 300_000))

spliced_id : node_id_matches "qa-a/impl" ≡ true
unfolding node_id_matches matches_id
spliced_id = refl

restore-sanitize_node_id_example :
    restore_node_id (sanitize_node_id (bytes "qa-a/impl")) ≡ bytes "qa-a/impl"
restore-sanitize_node_id_example = restore-sanitize_node_id "qa-a/impl" spliced_id

place_path_distinct_example :
    (Place.failed ≡ Place.failed) × (bytes "qa-a/impl" ≡ bytes "qa-a/impl")
place_path_distinct_example =
    place_path_distinct Place.failed Place.failed run_dir "qa-a/impl" "qa-a/impl" spliced_id
      spliced_id refl

abbrev files : Table Bytes
files = (bytes "/runs/1/plan.out", bytes "the plan") ∷ []

write_under_run_dir-atomic_example :
    let (err, d') =
      write_under_run_dir memory files
        (bytes "/runs/1/feedback/check.out")
        (bytes "two tests fail")
        (bytes "feedback payload")
        (bytes "check") in
    (((err ≡ none)
        × (held memory d' (bytes "/runs/1/feedback/check.out") ≡ some (bytes "two tests fail")))
      ⊎ ((err ≢ none)
          × (held memory d' (bytes "/runs/1/feedback/check.out")
              ≡ held memory files (bytes "/runs/1/feedback/check.out"))))
    × (held memory d' (bytes "/runs/1/plan.out") ≡ some (bytes "the plan"))
write_under_run_dir-atomic_example =
    write_under_run_dir-atomic memory memory-IsLawful files (bytes "/runs/1/feedback/check.out")
      (bytes "two tests fail") (bytes "feedback payload") (bytes "check") (bytes "/runs/1/plan.out")
      (bytes "the plan") (λ e. cc e) refl

-- A round: build leaves a result, check sends its payload, and the arc fires.
abbrev round : List Operation
round =
    Operation.persist_output_of "build" (bytes "done") (bytes "s1")
    ∷ Operation.set_feedback_of "check" (bytes "two tests fail")
    ∷ Operation.archive_round_of "check" (bytes "two tests fail") ("build" ∷ "check" ∷ [])
    ∷ []

build_id : node_id_matches "build" ≡ true
unfolding node_id_matches matches_id
build_id = refl

check_id : node_id_matches "check" ≡ true
unfolding node_id_matches matches_id
check_id = refl

round_remembers :
    remembered Place.previous (perform_all memory round empty_handoff []).0 (bytes "build")
    ≡ some (bytes "done")
unfolding perform_all new set_feedback archive_round persist_output
round_remembers = refl

reread-remembers_example :
    let (h, d') = perform_all memory round (new run_dir []) [] in
    remembered Place.previous (reread memory (new h.run_dir []) d' (bytes "build")) (bytes "build")
    ≡ some (bytes "done")
reread-remembers_example =
    reread-remembers memory memory-IsLawful run_dir [] [] round
      (build_id, (check_id, ((build_id, (check_id, tt)), tt))) Place.previous "build" (bytes "done")
      build_id round_remembers

failure_kept : persist_failure memory empty_handoff [] (bytes "check") failed_reply ≡ (
  inr (some (failed_output_path run_dir (bytes "check"))),
  (persist_failure memory empty_handoff [] (bytes "check") failed_reply).1,
)
unfolding persist_failure new
failure_kept = refl

take_prior_reply-once_example :
    let (seeded, before) =
      seed_prior_reply memory empty_handoff
        (persist_failure memory empty_handoff [] (bytes "check") failed_reply).1
        (bytes "check") in
    let (taken, after) = take_prior_reply before (bytes "check") in
    (seeded ≡ inr true)
    × ((taken ≡ some (excerpt_failed_reply failed_reply))
        × ((take_prior_reply after (bytes "check")).0 ≡ none))
take_prior_reply-once_example =
    take_prior_reply-once memory memory-IsLawful empty_handoff empty_handoff [] _ (bytes "check")
      failed_reply (failed_output_path run_dir (bytes "check")) failure_kept refl

abbrev plan_kept : Option HandoffError × (Handoff × Table Bytes)
plan_kept = persist_output memory empty_handoff [] (bytes "plan") (bytes "the plan") (bytes "s1")

plan_saved : plan_kept ≡ (none, (plan_kept.1.0, plan_kept.1.1))
unfolding persist_output
plan_saved = refl

abbrev build_self : Self
build_self = record { id = bytes "build"; timeout = 1200000000000 }

persist_output-resolves_example :
    (resolve_locked memory prints plan_kept.1.0 plan_kept.1.1 build_self 0
        (artifact_token (bytes "plan") true)
      ≡ Resolved.value (bytes "the plan"))
    × (resolve_locked memory prints plan_kept.1.0 plan_kept.1.1 build_self 0
          (artifact_token (bytes "plan") false)
        ≡ Resolved.value (artifact_path_of empty_handoff.run_dir (bytes "plan")))
persist_output-resolves_example =
    persist_output-resolves memory memory-IsLawful empty_handoff plan_kept.1.0 [] plan_kept.1.1
      (bytes "plan") (bytes "the plan") (bytes "s1") prints build_self plan_saved

abbrev build_prompt : Bytes
build_prompt = bytes "Follow {{ artifacts.plan | inline }} and note {{x}}. {{ feedback.check }}"

interpolate_as_decides_example :
    ((is_value (interpolate_as memory prints plan_kept.1.0 plan_kept.1.1 build_self build_prompt)
        ≡ true)
      ↔ AllResolvable memory prints plan_kept.1.0 plan_kept.1.1 build_self
          (placeholders_of build_prompt)
          0)
    × ((e : InterpolationError)
        → (interpolate_as memory prints plan_kept.1.0 plan_kept.1.1 build_self build_prompt
            ≡ Resolved.failed e)
          ↔ (first_failure
                (resolve_locked memory prints plan_kept.1.0 plan_kept.1.1 build_self)
                (placeholders_of build_prompt)
                0
              ≡ some e))
interpolate_as_decides_example =
    interpolate_as_decides memory prints plan_kept.1.0 plan_kept.1.1 build_self build_prompt

placeholders_of-loose_example : placeholders_of build_prompt ≡ matching (loose_tokens build_prompt)
placeholders_of-loose_example = placeholders_of-loose build_prompt

-- The two nodes plan and build, where the prompt of build quotes the plan's result.
abbrev reader_node : Node
reader_node = record build_node {
  type = "claude-run";
  handoff = "artifact";
  prompt = "Follow {{ artifacts.plan | inline }} within {{ self.timeout }}.";
}

abbrev reader_graph : Graph
reader_graph = from_raw (record sample_raw { nodes = plan_node ∷ reader_node ∷ [] })

reader_indexed : IsIndexed reader_graph
reader_indexed = from_raw-IsIndexed (record sample_raw { nodes = plan_node ∷ reader_node ∷ [] })

reader_clean : placeholder_findings reader_graph ≡ []
unfolding placeholder_findings from_raw judge_token ancestor_set parents_of
reader_clean = refl

plan_above : (a : String) → ancestor_set reader_graph "build" a ≡ true → "plan" ≡ a
unfolding ancestor_set parents_of from_raw
plan_above a h = ground (arith, h, eq_iff "plan" a)

reader_there : Memᴰ reader_node reader_graph.nodes
unfolding from_raw
reader_there = Memᴰ.tail (Memᴰ.head refl)

no_gate : (m : Node) → Memᴰ m reader_graph.nodes → m.type ≢ type_gate
unfolding from_raw
no_gate m there gate = elim (Memᴰ.cases_cons there) [
  | inl same ↦
      let e : (normalize_node plan_node).type ≡ type_gate =
        subst (λ (x : Node). x.type ≡ type_gate) same gate in
      absurd (cc e)
  | inr later ↦ elim (Memᴰ.cases_cons later) [
    | inl same ↦
        let e : (normalize_node reader_node).type ≡ type_gate =
          subst (λ (x : Node). x.type ≡ type_gate) same gate in
        absurd (cc e)
    | inr none_left ↦ absurd (Memᴰ.not-nil none_left)
  ]
]

prompt_there : Memᴰ ("prompt", reader_node.prompt) (templated_fields reader_node)
unfolding templated_fields
prompt_there = Memᴰ.head refl

reader_plain : All HasNoFilter (placeholders_of (bytes reader_node.prompt))
unfolding placeholders_of
reader_plain = (λ e. cc e, (λ e. refl, tt))

reader_gateless : All (NamesNoGate reader_graph) (placeholders_of (bytes reader_node.prompt))
unfolding placeholders_of
reader_gateless = (λ _ _ _ (m, there, _, gate). no_gate m there gate, (λ e. cc e, tt))

build_ready : IsReadyToRun memory prints reader_graph reader_node plan_kept.1.0 plan_kept.1.1
unfolding persist_output new from_raw
build_ready = record {
  inputs = λ name m. absurd (Memᴰ.not-nil m);
  artifacts = λ a above _.
      let e : "plan" ≡ a =
        plan_above a ((ancestor_set_iff reader_graph reader_indexed "build" a).1 above) in
      subst
        (λ x.
          (path : Bytes) × ((get plan_kept.1.0.artifact_paths (bytes x) ≡ some path)
            × (held memory plan_kept.1.1 path ≢ none)))
        e (artifact_path_of run_dir (bytes "plan"), (refl, λ h. cc h));
  named = λ h. cc h;
  nonces = λ k h. cc h;
}

placeholder_findings-nil_example :
    is_value (
      interpolate_as memory prints plan_kept.1.0 plan_kept.1.1
        (self_of reader_node)
        (bytes reader_node.prompt))
    ≡ true
placeholder_findings-nil_example =
    placeholder_findings-nil memory prints reader_graph reader_node plan_kept.1.0 plan_kept.1.1
      reader_indexed reader_clean reader_there build_ready ("prompt", reader_node.prompt)
      prompt_there reader_plain reader_gateless
