-- ===== src/Reach.antt =====
-- internal/graph/feedback_reach.go: the advice on feedback arcs that cannot reach a producer, and the
-- target that it suggests. `ancestorSet` is a map, and Go ranges over a map in any order: the order in
-- which the ancestors of an id come up, a list, is an argument.
pub mod Covering
pub mod Target
pub mod Parents
pub mod Advisories
use oh_my_graph.Base.{
  ℕ, zero, suc, String, ◌==◌, Bool, true, false, not, ◌&&◌, ◌||◌, List, [], ◌∷◌, ◌++◌, map, Option,
  none, some, if◌then◌else◌, eqb, ltb, length, all, contains,
}
use oh_my_graph.Graph.{Graph, Node, Feedback, node_by_id, build_index, is_none, type_gate}
use oh_my_graph.Ancestors.{ancestor_set, between_set, IdSet}
use oh_my_graph.Feedback.{feedback_body, validate_feedback, validate_feedback_placeholders}

-- `FeedbackAdvisory`; its Detail prints these fields.
pub record FeedbackAdvisory : Type 0 where
  pub declarer : String
  pub rerun : String
  pub body : List String
  pub producer : String
  pub suggestion : String

abbrev pub is_nil {ℓ} : {A : Type ℓ} → List A → Bool
is_nil [] = true
is_nil (_ ∷ _) = false

abbrev pub aim : String → String → Node → Node
aim declarer target n =
    if n.id == declarer
    then elim n.feedback [
      | none ↦ n
      | some f ↦ record n { feedback = some (record f { rerun = target }) }
    ]
    else n

unfoldable pub with_rerun : Graph → String → String → Graph
with_rerun g declarer target =
    let nodes = map (aim declarer target) g.nodes in
    record g { nodes = nodes; by_id = build_index [] nodes }

-- `declarationIndex`
abbrev index_in : List Node → String → ℕ
index_in [] id = zero
index_in (n ∷ nodes) id = let rest = index_in nodes id in if n.id == id then zero else suc rest

unfoldable pub declaration_index : Graph → String → ℕ
declaration_index g id = index_in g.nodes id

-- Whether a candidate for the target gets past the three `continue`s.
unfoldable pub qualifies : Graph → String → String → List String → String → Bool
qualifies g declarer current unreachable candidate =
    let body = between_set g candidate declarer in
    let aimed = with_rerun g declarer candidate in
    contains body current
    && all (contains body) unreachable
    && is_nil (validate_feedback aimed)
    && is_nil (validate_feedback_placeholders aimed)

-- The condition under which a candidate with a body of this size takes the place of the best one.
unfoldable pub is_better : Graph → String → ℕ → String → ℕ → Bool
unfolding declaration_index
is_better g candidate size best best_size =
    best == ""
    || ltb size best_size
    || (eqb size best_size && ltb (declaration_index g candidate) (declaration_index g best))

-- The loop over the candidates, from the best one and the size of its body.
unfoldable pub best_of : Graph → String → String → List String → List String → String → ℕ → String
unfolding qualifies is_better
best_of g declarer current unreachable [] best best_size = best
best_of g declarer current unreachable (candidate ∷ candidates) best best_size =
    let size = length (between_set g candidate declarer) in
    if qualifies g declarer current unreachable candidate
      && is_better g candidate size best best_size
    then best_of g declarer current unreachable candidates candidate size
    else best_of g declarer current unreachable candidates best best_size

-- `g.byID[declarer].Feedback.Rerun`; the caller has seen that the declarer has an arc.
abbrev pub current_target : Graph → String → String
current_target g declarer = elim (node_by_id g declarer) [
  | none ↦ ""
  | some n ↦ elim n.feedback [ none ↦ "" | some f ↦ f.rerun ]
]

unfoldable pub covering_feedback_target :
    Graph → (listing : String → List String) → String → List String → String
unfolding best_of
covering_feedback_target g listing declarer unreachable =
    best_of g declarer (current_target g declarer) unreachable (listing declarer) "" 0

-- The loop over the parents: the producers that the arc cannot reach.
unfoldable pub unreachable_from : Graph → List String → IdSet → List String → List String
unreachable_from g body upstream [] = []
unreachable_from g body upstream (parent ∷ parents) =
    let rest = unreachable_from g body upstream parents in
    if contains body parent || upstream parent then rest else elim (node_by_id g parent) [
      | none ↦ rest
      | some node ↦ if node.type == type_gate then rest else parent ∷ rest
    ]

-- `unreachable`
abbrev pub unreachable_producers : Graph → Node → Feedback → List String
unreachable_producers g n f =
    unreachable_from g (feedback_body g n.id) (ancestor_set g f.rerun) n.depends_on

abbrev pub advisory :
    Graph → (listing : String → List String) → Node → Feedback → String → FeedbackAdvisory
advisory g listing n f producer = record {
  declarer = n.id;
  rerun = f.rerun;
  body = feedback_body g n.id;
  producer = producer;
  suggestion = covering_feedback_target g listing n.id (unreachable_producers g n f);
}

-- The advisories about one arc.
unfoldable pub arc_advisories :
    Graph → (listing : String → List String) → Node → Feedback → List FeedbackAdvisory
arc_advisories g listing n f =
    let unreachable = unreachable_producers g n f in
    if is_nil (feedback_body g n.id) || is_nil unreachable
    then []
    else map (advisory g listing n f) unreachable

unfoldable pub advisories_from :
    Graph → (listing : String → List String) → List Node → List FeedbackAdvisory
unfolding arc_advisories
advisories_from g listing [] = []
advisories_from g listing (n ∷ nodes) =
    let rest = advisories_from g listing nodes in
    elim n.feedback [ none ↦ rest | some f ↦ arc_advisories g listing n f ++ rest ]

unfoldable pub lint_feedback_reach :
    Graph → (listing : String → List String) → List FeedbackAdvisory
unfolding advisories_from
lint_feedback_reach g listing = advisories_from g listing g.nodes
