-- ===== src/Acyclic/Decides.antt =====
-- The search of validateAcyclic decides whether the graph has a dependency cycle.
use oh_my_graph.Base.{String, ◌≡◌, ◌⊎◌, inl, inr}
use oh_my_graph.Graph.{Graph}
use oh_my_graph.Graph.Index.{IsIndexed}
use oh_my_graph.Graph.Paths.{Above, IsAcyclic}
use oh_my_graph.Acyclic.{Colours, cycle, clear, search_cycle}
use oh_my_graph.Acyclic.Colours.{visit_cases, is_cycle, is_clear, is_out}
use oh_my_graph.Acyclic.Fuel.{search_cycle-ne-out}
use oh_my_graph.Acyclic.Sound.{search_cycle_sound}
use oh_my_graph.Acyclic.Complete.{search_cycle-clear}

-- On an indexed graph the depth-first search always returns. Either it reports an id that is a
-- proper ancestor of itself along depends_on, or it reports no cycle and then no id is one.
pub search_cycle_decides :
    (g : Graph)
    → IsIndexed g
    → ((y : String) × (search_cycle g ≡ cycle y) × Above g y y)
      ⊎ ((c : Colours) × (search_cycle g ≡ clear c) × IsAcyclic g)
search_cycle_decides g indexed = elim (visit_cases (search_cycle g)) [
  | is_cycle y e ↦ inl (y, e, search_cycle_sound g y e)
  | is_clear c e ↦ inr (c, e, search_cycle-clear g indexed c e)
  | is_out e ↦ absurd (search_cycle-ne-out g indexed e)
]
