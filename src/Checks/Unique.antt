-- ===== src/Checks/Unique.antt =====
-- `validateNodesUnique` accepts exactly the graphs whose ids are non-blank and pairwise different.
use mathlib.Core.List.Memᴰ
use oh_my_graph.Base.{
  String, ◌≡◌, refl, sym, ◌↔◌, inl, inr, false, List, [], ◌∷◌, map, contains, contains_iff, All,
  Memᴰ, Bool-cases, IsDistinct,
}
use oh_my_graph.Base.Text.{is_blank}
use oh_my_graph.Graph.{Graph, Node}
use oh_my_graph.Graph.Index.{ids}
use oh_my_graph.Checks.{unique_from, validate_nodes_unique}

abbrev pub HasId : Node → Type 0
HasId n = is_blank n.id ≡ false

abbrev Unseen : List String → List Node → Type 0
Unseen seen nodes = (id : String) → Memᴰ id (map (λ (n : Node). n.id) nodes) → ¬ Memᴰ id seen

unique_from-nil :
    (seen : List String) (nodes : List Node)
    → (unique_from seen nodes ≡ [])
      ↔ (All HasId nodes × (IsDistinct (map (λ (n : Node). n.id) nodes) × Unseen seen nodes))
unfolding unique_from
unique_from-nil seen [] = (λ _. (tt, (tt, λ id m. absurd (Memᴰ.not-nil m))), λ _. refl)
unique_from-nil seen (n ∷ nodes) = elim (Bool-cases (is_blank n.id)) [
  | inl blank ↦ (
    λ h. absurd (cc (rw (blank, unique_from) at h)),
    λ ((named, _), _). absurd (cc (blank, named)),
  )
  | inr named ↦ elim (Bool-cases (contains seen n.id)) [
    | inl old ↦ (
      λ h. absurd (cc (rw (named, old, unique_from) at h)),
      λ (_, (_, unseen)). absurd (unseen n.id (Memᴰ.head refl) ((contains_iff seen n.id).0 old)),
    )
    | inr new ↦
        let ih = unique_from-nil (n.id ∷ seen) nodes in
        rw (named, new)
          (
            λ h.
                let (has, (distinct, unseen)) = ih.0 h in
                (
                  (refl, has),
                  (
                    (λ m. unseen n.id m (Memᴰ.head refl), distinct),
                    λ id m s. elim (Memᴰ.cases_cons m) [
                      | inl e ↦ not_seen new (Memᴰ.cast (sym e) s)
                      | inr later ↦ unseen id later (Memᴰ.tail s)
                    ],
                  ),
                ),
            λ ((_, has), ((fresh, distinct), unseen)). ih.1 (
              has,
              (
                distinct,
                λ id m s. elim (Memᴰ.cases_cons s) [
                  | inl e ↦ fresh (Memᴰ.cast (sym e) m)
                  | inr older ↦ unseen id (Memᴰ.tail m) older
                ],
              ),
            ),
          )
  ]
]
  where
    not_seen : contains seen n.id ≡ false → ¬ Memᴰ n.id seen
    not_seen new m = cc (new, (contains_iff seen n.id).1 m)

-- The check of unique ids finds nothing exactly if no id is blank and no two nodes share one.
pub validate_nodes_unique-nil :
    (g : Graph) → (validate_nodes_unique g ≡ []) ↔ (All HasId g.nodes × IsDistinct (ids g))
unfolding validate_nodes_unique
validate_nodes_unique-nil g =
    let whole = unique_from-nil [] g.nodes in
    (
      λ h. let (has, (distinct, _)) = whole.0 h in (has, distinct),
      λ (has, distinct). whole.1 (has, (distinct, λ id m s. absurd (Memᴰ.not-nil s))),
    )
