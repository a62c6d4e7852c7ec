-- ===== src/Schedule/Policy/Bounds.antt =====
-- What the width of a run and the policy of a node can be.
use oh_my_graph.Base.{◌≡◌, arith}
use oh_my_graph.Base.Int.{ℤ, pos, ◌≤ℤ◌}
use oh_my_graph.Schedule.Policy.{effective_concurrency}

-- A run is one to ten nodes wide, whatever the flag and the graph ask for.
pub effective_concurrency_bounds :
    (override graph_concurrency : ℤ)
    → (pos 1 ≤ℤ effective_concurrency override graph_concurrency)
      × (effective_concurrency override graph_concurrency ≤ℤ pos 10)
unfolding effective_concurrency
effective_concurrency_bounds override graph_concurrency = ground arith

abbrev pub IsChosen : ℤ → ℤ → Type 0
IsChosen override graph_concurrency =
    ((pos 1 ≤ℤ override)
      → (override ≤ℤ pos 10)
      → effective_concurrency override graph_concurrency ≡ override)
    × ((override ≤ℤ pos 0)
        → (pos 1 ≤ℤ graph_concurrency)
        → (graph_concurrency ≤ℤ pos 10)
        → effective_concurrency override graph_concurrency ≡ graph_concurrency)
    × ((override ≤ℤ pos 0)
        → (graph_concurrency ≤ℤ pos 0)
        → effective_concurrency override graph_concurrency ≡ pos 4)

-- An override of 1 to 10 is the width of the run; without a positive override, a graph's own 1 to 10
-- is; without either, it is 4.
pub effective_concurrency_choice :
    (override graph_concurrency : ℤ) → IsChosen override graph_concurrency
unfolding effective_concurrency
effective_concurrency_choice override graph_concurrency = ground arith
