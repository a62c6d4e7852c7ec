-- ===== src/Validate/Planner.antt =====
-- `ParsePlannerReply` in internal/graph/graph.go: what it passes over, and what it refuses.
use oh_my_graph.Base.{
  ◌≡◌, refl, sym, ◌∙◌, ap, ◌⊎◌, inl, inr, true, false, List, [], ◌∷◌, ◌++◌, none, some, All,
  Bool-cases,
}
use oh_my_graph.Graph.{Graph, RawGraph, from_raw}
use oh_my_graph.Issue.{Issue, Kind, unspliced_reuse, misplaced_description}
use oh_my_graph.Validate.Decides.{first_issue-cases}
use oh_my_graph.Validate.{
  Std, is_planner_business, first_structural, issues_of, validate, accepted, refused, parse,
  parse_planner_reply,
}

-- An issue that the coordinator judges: a citation that is not spliced yet, or a description off a
-- gate.
abbrev pub IsPlannerBusiness : Issue → Type 0
IsPlannerBusiness i = (i.kind ≡ unspliced_reuse) ⊎ (i.kind ≡ misplaced_description)

business_known :
    (k : Kind) → is_planner_business k ≡ true → (k ≡ unspliced_reuse) ⊎ (k ≡ misplaced_description)
business_known unspliced_reuse h = inl refl
business_known misplaced_description h = inr refl
business_known _ h = absurd (cc h)

structural_known : (i : Issue) → is_planner_business i.kind ≡ false → ¬ IsPlannerBusiness i
structural_known i e (inl k) = absurd (cc (rw k at e))
structural_known i e (inr k) = absurd (cc (rw k at e))

-- The first issue that is not the coordinator's, and what stands in front of it.
abbrev pub IsFirstStructural : List Issue → Issue → Type 0
IsFirstStructural issues i =
    (skipped : List Issue) × (rest : List Issue) × (issues ≡ skipped ++ i ∷ rest)
    × All IsPlannerBusiness skipped
    × ¬ IsPlannerBusiness i

first_structural-cases :
    (issues : List Issue)
    → ((first_structural issues ≡ none) × All IsPlannerBusiness issues)
      ⊎ ((i : Issue) × (first_structural issues ≡ some i) × IsFirstStructural issues i)
unfolding first_structural
first_structural-cases [] = inl (refl, tt)
first_structural-cases (j ∷ issues) = elim (Bool-cases (is_planner_business j.kind)) [
  | inr e ↦ inr (j, rw e refl, ([], issues, refl, tt, structural_known j e))
  | inl e ↦ elim (first_structural-cases issues) [
    | inl (same, all) ↦ inl (rw e same, (business_known j.kind e, all))
    | inr (i, same, (skipped, rest, split, all, structural)) ↦ inr (
      i,
      rw e same,
      (j ∷ skipped, rest, ap (λ l. j ∷ l) split, (business_known j.kind e, all), structural),
    )
  ]
]

abbrev pub IsJudgedReply : Std → RawGraph → Type 0
IsJudgedReply std raw =
    ((parse_planner_reply std raw ≡ accepted (issues_of std (from_raw raw)).0)
      × All IsPlannerBusiness (issues_of std (from_raw raw)).1)
    ⊎ ((i : Issue) × (parse_planner_reply std raw ≡ refused i)
        × IsFirstStructural (issues_of std (from_raw raw)).1 i)

-- `ParsePlannerReply` either returns the graph, and then every issue of it is an unspliced citation or a
-- misplaced description; or it returns the first issue that is neither, and all before it are.
pub parse_planner_reply_decides : (std : Std) (raw : RawGraph) → IsJudgedReply std raw
unfolding parse_planner_reply
parse_planner_reply_decides std raw =
    elim (first_structural-cases (issues_of std (from_raw raw)).1) [
      | inl (e, all) ↦ inl (rw (e, parse_planner_reply) refl, all)
      | inr (i, e, first) ↦ inr (i, rw (e, parse_planner_reply) refl, first)
    ]

accepted-empty :
    (std : Std) (raw : RawGraph) (g : Graph)
    → parse std raw ≡ accepted g
    → ((issues_of std (from_raw raw)).1 ≡ []) × ((issues_of std (from_raw raw)).0 ≡ g)
unfolding parse validate
accepted-empty std raw g h =
    let (stored, issues) = issues_of std (from_raw raw) in
    elim (first_issue-cases issues) [
      | inl (e, empty) ↦
          let run : parse std raw ≡ accepted stored = rw (e, parse) refl in
          let same : accepted stored ≡ accepted g = sym run ∙ h in (empty, cc)
      | inr (i, rest, e, split) ↦
          let run : parse std raw ≡ refused i = rw (e, parse) refl in absurd (cc (run, h))
    ]

-- What `Parse` accepts, `ParsePlannerReply` accepts, and returns the same graph.
pub parse_planner_reply-accepts :
    (std : Std) (raw : RawGraph) (g : Graph)
    → parse std raw ≡ accepted g
    → parse_planner_reply std raw ≡ accepted g
unfolding parse_planner_reply first_structural
parse_planner_reply-accepts std raw g h =
    let (empty, same) = accepted-empty std raw g h in
    let clear : first_structural (issues_of std (from_raw raw)).1 ≡ none = rw empty refl in
    rw (clear, parse_planner_reply) (ap accepted same)
