-- ===== src/Reach/Target.antt =====
-- coveringFeedbackTarget of internal/graph/feedback_reach.go on a well-formed graph.
use mathlib.Core.Bool.{false≢true}
use oh_my_graph.Base.{
  String, true, false, List, [], ◌∷◌, ◌≡◌, ◌≢◌, ◌↔◌, ◌⊎◌, inl, inr, refl, sym, ap, some, ◌∙◌, Memᴰ,
  All, All-mem, mem-All, arith, contains_iff, and_iff, all_iff,
}
use oh_my_graph.Base.Text.{is_blank, trim_space, drop_spaces}
use oh_my_graph.Graph.{Graph, Node, node_by_id, parents_of}
use oh_my_graph.Graph.Index.{IsIndexed, node_by_id-mem, node_by_id-mem_ids, parents_of-known}
use oh_my_graph.Graph.Paths.{Above, parent, higher}
use oh_my_graph.Ancestors.{ancestor_set, between_set}
use oh_my_graph.Ancestors.Decides.{ancestor_set_iff}
use oh_my_graph.Feedback.{validate_feedback, validate_feedback_placeholders}
use oh_my_graph.Issue.Collect.{iff_trans}
use oh_my_graph.Validate.{Std}
use oh_my_graph.Validate.Decides.{IsWellFormed}
use oh_my_graph.Reach.{
  is_nil, with_rerun, declaration_index, qualifies, covering_feedback_target, current_target,
}
use oh_my_graph.Reach.Covering.{AtMost, IsAnswer, start-IsAnswer, index_in-injective}

is_nil_iff : {A : Type 0} (xs : List A) → (is_nil xs ≡ true) ↔ (xs ≡ [])
is_nil_iff [] = (λ _. refl, λ _. refl)
is_nil_iff (x ∷ xs) = (λ h. cc, λ h. cc)

-- A target whose body holds the current one and the producers, and with which the graph still loads.
abbrev pub Covers : Graph → String → String → List String → String → Type 0
Covers g declarer current unreachable c =
    ((Memᴰ current (between_set g c declarer)
        × All (λ producer. Memᴰ producer (between_set g c declarer)) unreachable)
      × (validate_feedback (with_rerun g declarer c) ≡ []))
    × (validate_feedback_placeholders (with_rerun g declarer c) ≡ [])

qualifies_iff :
    (g : Graph) (declarer current : String) (unreachable : List String) (c : String)
    → (qualifies g declarer current unreachable c ≡ true) ↔ Covers g declarer current unreachable c
unfolding qualifies
qualifies_iff g declarer current unreachable c =
    and_iff
      (and_iff
        (and_iff (contains_iff (between_set g c declarer) current)
          (all_iff _ _ (contains_iff (between_set g c declarer)) unreachable))
        (is_nil_iff (validate_feedback (with_rerun g declarer c))))
      (is_nil_iff (validate_feedback_placeholders (with_rerun g declarer c)))

empty_blank : is_blank "" ≡ true
unfolding is_blank trim_space drop_spaces
empty_blank = refl

module _ (std : Std) (g : Graph) (indexed : IsIndexed g) (sound : IsWellFormed std g indexed) where
  edge-declared : (x y : String) → Memᴰ y (parents_of g x) → (n : Node) × (node_by_id g y ≡ some n)
  unfolding parents_of
  edge-declared x y m =
      let (n, found) = parents_of-known indexed x y m in
      let listed = (node_by_id-mem indexed x n found).0 in
      (All-mem _ _ (All-mem _ g.nodes sound.edges n listed) y (rw (found, parents_of) at m)).0

  Above-declared : (x y : String) → Above g x y → (n : Node) × (node_by_id g y ≡ some n)
  Above-declared x y (parent m) = edge-declared x y m
  Above-declared x z (higher {y} _ m) = edge-declared y z m

  Above-named : (x y : String) → Above g x y → y ≢ ""
  Above-named x y up e =
      let (n, found) = Above-declared x y up in
      let (listed, same) = node_by_id-mem indexed y n found in
      let named : is_blank n.id ≡ false = All-mem _ g.nodes sound.named n listed in
      absurd (false≢true (sym named ∙ ap is_blank (same ∙ e) ∙ empty_blank))

  -- The order in which Go ranges over the set of the ancestors of an id.
  abbrev pub Lists : String → List String → Type 0
  Lists id listed = (a : String) → Memᴰ a listed ↔ (ancestor_set g id a ≡ true)

  -- The advice of one arc: nothing where no ancestor covers, or else an ancestor that covers and whose
  -- body is the smallest, the first declared of several.
  abbrev pub IsAdvice : String → List String → String → Type 0
  IsAdvice declarer unreachable r =
      ((r ≡ "")
        × ((d : String)
            → Above g declarer d
            → ¬ Covers g declarer (current_target g declarer) unreachable d))
      ⊎ (Above g declarer r
          × (Covers g declarer (current_target g declarer) unreachable r
              × ((d : String)
                  → Above g declarer d
                  → Covers g declarer (current_target g declarer) unreachable d
                  → AtMost g declarer r d)))

  module _ (listing : String → List String) (declarer : String) (unreachable : List String)
      (listed : Lists declarer (listing declarer)) where
    mem-Above : (a : String) → Memᴰ a (listing declarer) ↔ Above g declarer a
    mem-Above a = iff_trans (listed a) (ancestor_set_iff g indexed declarer a)

    answer :
        IsAnswer g declarer
          (current_target g declarer)
          unreachable
          (listing declarer)
          (covering_feedback_target g listing declarer unreachable)
    unfolding covering_feedback_target
    answer =
        start-IsAnswer g declarer (current_target g declarer) unreachable (listing declarer)
          (mem-All _ _ (λ a m. Above-named declarer a ((mem-Above a).0 m)))

    -- On a well-formed graph, the search suggests nothing exactly if no ancestor of the declarer covers
    -- the current target and the producers and leaves the graph valid, and otherwise such an ancestor
    -- whose body is the smallest, the first declared of several.
    pub covering_feedback_target-IsAdvice :
        IsAdvice declarer unreachable (covering_feedback_target g listing declarer unreachable)
    covering_feedback_target-IsAdvice = elim answer [
      | inl (e, none) ↦ inl (
        e,
        λ d up covers. absurd (
            false≢true (
              sym (none d ((mem-Above d).1 up))
              ∙ (qualifies_iff g declarer _ unreachable d).1 covers)),
      )
      | inr (m, (ok, least)) ↦ inr (
        (mem-Above _).0 m,
        (
          (qualifies_iff g declarer _ unreachable _).0 ok,
          λ d up covers.
              least d ((mem-Above d).1 up) ((qualifies_iff g declarer _ unreachable d).1 covers),
        ),
      )
    ]

  AtMost-antisym :
      (declarer a b : String)
      → AtMost g declarer a b
      → AtMost g declarer b a
      → declaration_index g a ≡ declaration_index g b
  AtMost-antisym declarer a b p q = ground arith

  IsAdvice-unique :
      (declarer : String) (unreachable : List String) (r r' : String)
      → IsAdvice declarer unreachable r
      → IsAdvice declarer unreachable r'
      → r ≡ r'
  unfolding declaration_index
  IsAdvice-unique declarer unreachable r r' (inl (e, _)) (inl (e', _)) = e ∙ sym e'
  IsAdvice-unique declarer unreachable r r' (inl (_, none)) (inr (up, (covers, _))) =
      absurd (none r' up covers)
  IsAdvice-unique declarer unreachable r r' (inr (up, (covers, _))) (inl (_, none)) =
      absurd (none r up covers)
  IsAdvice-unique declarer unreachable r r' (inr (up, (covers, least)))
        (inr (up', (covers', least'))) =
      let (n, found) = Above-declared declarer r up in
      index_in-injective g.nodes r r' (node_by_id-mem_ids indexed r n found)
        (AtMost-antisym declarer r r' (least r' up' covers') (least' r up covers))

  -- On a well-formed graph, the suggestion does not depend on the order in which the map of ancestors
  -- is read.
  pub covering_feedback_target-order :
      (listing listing' : String → List String) (declarer : String) (unreachable : List String)
      → Lists declarer (listing declarer)
      → Lists declarer (listing' declarer)
      → covering_feedback_target g listing declarer unreachable
        ≡ covering_feedback_target g listing' declarer unreachable
  covering_feedback_target-order listing listing' declarer unreachable listed listed' =
      IsAdvice-unique declarer unreachable _ _
        (covering_feedback_target-IsAdvice listing declarer unreachable listed)
        (covering_feedback_target-IsAdvice listing' declarer unreachable listed')
