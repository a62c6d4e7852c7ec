-- ===== src/Feedback/Declared.antt =====
-- One arc among the sound arcs of internal/graph/feedback.go.
use mathlib.Core.List.Memᴰ
use oh_my_graph.Base.{◌≡◌, sym, subst, inl, inr, List, [], ◌∷◌, some, Memᴰ, Option-cases}
use oh_my_graph.Graph.{Graph, Node, Feedback}
use oh_my_graph.Graph.Index.{IsIndexed}
use oh_my_graph.Feedback.Shape.{IsSoundArc, AllArcs}

pub AllArcs-mem :
    (g : Graph) (indexed : IsIndexed g) (nodes : List Node) (n : Node) (f : Feedback)
    → AllArcs g indexed nodes
    → Memᴰ n nodes
    → n.feedback ≡ some f
    → IsSoundArc g n.id f
AllArcs-mem g indexed [] n f all m e = absurd (Memᴰ.not-nil m)
AllArcs-mem g indexed (k ∷ nodes) n f all m e = elim (Option-cases k.feedback) [
  | inl none_here ↦ elim (Memᴰ.cases_cons m) [
    | inl same ↦
        let here : k.feedback ≡ some f = subst (λ (x : Node). x.feedback ≡ some f) same e in
        absurd (cc (none_here, here))
    | inr later ↦ AllArcs-mem g indexed nodes n f (rw (none_here, AllArcs) at all) later e
  ]
  | inr (f', here) ↦
      let (sound, rest) = rw (here, AllArcs) at all in
      elim (Memᴰ.cases_cons m) [
        | inr later ↦ AllArcs-mem g indexed nodes n f rest later e
        | inl same ↦
            let found : k.feedback ≡ some f = subst (λ (x : Node). x.feedback ≡ some f) same e in
            let one : f' ≡ f = cc in
            subst (λ (x : Node). IsSoundArc g x.id f) (sym same)
              (subst (λ x. IsSoundArc g k.id x) one sound)
      ]
]
