-- ===== src/Ancestors/Decides.antt =====
-- `ancestorSet` holds exactly the proper ancestors, and `betweenSet` the nodes on a path.
use mathlib.Core.List.Memᴰ
use oh_my_graph.Base.{
  ◌+◌, String, ◌==◌, eq_iff, ◌≡◌, refl, map, ◌↔◌, ◌⊎◌, inl, inr, true, ◌&&◌, ◌||◌, List, [], ◌∷◌,
  arith, length, Memᴰ, mem-if_cons, if◌then◌else◌,
}
use oh_my_graph.Graph.{Graph, Node}
use oh_my_graph.Graph.Index.{IsIndexed, ids}
use oh_my_graph.Graph.Paths.{Above, Above-first, Above-closed}
use oh_my_graph.Ancestors.{no_ids, ancestor_set, between_from, between_set}
use oh_my_graph.Ancestors.Walk.{walk-Walked}
use oh_my_graph.Ancestors.Fuel.{walk_total}

-- On an indexed graph, cyclic or not, the walk ends and its set holds exactly the ids that a
-- non-empty chain of depends_on edges leads up to.
pub ancestor_set_iff :
    (g : Graph) → IsIndexed g → (id a : String) → (ancestor_set g id a ≡ true) ↔ Above g id a
unfolding ancestor_set
ancestor_set_iff g indexed id a =
    let (set, e) = walk_total g indexed id in
    let w = walk-Walked g (length g.nodes + 2) id no_ids set e in
    rw (e, ancestor_set)
      (
        λ h. w.above a h refl,
        λ up.
            let (y, m, rest) = Above-first up in
            elim rest [
              | inl same ↦ rw (← same) (w.all_in y m)
              | inr up_from ↦
                  Above-closed (λ z. set z ≡ true) (λ x p h m'. w.closed x p h refl m') y a up_from
                    (w.all_in y m)
            ],
      )

-- The node `id` lies on a path of depends_on edges from `target` up to `declarer`.
abbrev pub Between : Graph → String → String → String → Type 0
Between g target declarer id =
    (id ≡ declarer) ⊎ (id ≡ target) ⊎ (Above g declarer id × Above g id target)

Between-test :
    (g : Graph)
    → IsIndexed g
    → (target declarer id : String)
    → ((id == declarer || id == target || (ancestor_set g declarer id && ancestor_set g id target))
        ≡ true)
      ↔ Between g target declarer id
Between-test g indexed target declarer id = ground (
  arith,
  eq_iff id declarer,
  eq_iff id target,
  ancestor_set_iff g indexed declarer id,
  ancestor_set_iff g indexed id target,
)

between_from-cons :
    (g : Graph) (target declarer : String) (n : Node) (nodes : List Node)
    → between_from g target declarer (n ∷ nodes) ≡ (
        if n.id == declarer
          || n.id == target
          || (ancestor_set g declarer n.id && ancestor_set g n.id target)
        then n.id ∷ between_from g target declarer nodes
        else between_from g target declarer nodes)
unfolding between_from
between_from-cons g target declarer n nodes = ground arith

mem-between_from :
    (g : Graph)
    → IsIndexed g
    → (target declarer id : String) (nodes : List Node)
    → Memᴰ id (between_from g target declarer nodes)
      ↔ (Memᴰ id (map (λ n. n.id) nodes) × Between g target declarer id)
mem-between_from g indexed target declarer id [] =
    unfold between_from in (λ m. absurd (Memᴰ.not-nil m), λ m. absurd (Memᴰ.not-nil m.0))
mem-between_from g indexed target declarer id (n ∷ nodes) =
    rw (between_from-cons g target declarer n nodes) (
      mem-if_cons (Between g target declarer) _ id n.id _ _
        (Between-test g indexed target declarer n.id)
        (mem-between_from g indexed target declarer id nodes))

-- The body of a loop is the declared nodes on a path of depends_on edges from the target up to the
-- declarer, these two included.
pub mem-between_set :
    (g : Graph)
    → IsIndexed g
    → (target declarer id : String)
    → Memᴰ id (between_set g target declarer) ↔ (Memᴰ id (ids g) × Between g target declarer id)
unfolding between_set
mem-between_set g indexed target declarer id = mem-between_from g indexed target declarer id g.nodes
