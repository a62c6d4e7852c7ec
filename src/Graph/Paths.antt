-- ===== src/Graph/Paths.antt =====
-- The proper ancestors of a node along depends_on: the relation that the walks of
-- internal/graph are measured against.
use oh_my_graph.Base.{String, ◌≡◌, Memᴰ, ◌⊎◌, inl, inr, refl}
use oh_my_graph.Graph.{Graph, parents_of}

-- `Above g x y`: a non-empty chain of depends_on edges leads from x up to y.
pub data Above (g : Graph) (x : String) : String → Type 0 where
  parent : {y : String} → Memᴰ y (parents_of g x) → Above g x y
  higher : {y z : String} → Above g x y → Memᴰ z (parents_of g y) → Above g x z

pub Above-trans : {g : Graph} {x y z : String} → Above g x y → Above g y z → Above g x z
Above-trans p (parent m) = higher p m
Above-trans p (higher q m) = higher (Above-trans p q) m

-- The first edge of a chain.
pub Above-first :
    {g : Graph} {x z : String}
    → Above g x z
    → (y : String) × Memᴰ y (parents_of g x) × ((y ≡ z) ⊎ Above g y z)
Above-first {z} (parent m) = (z, m, inl refl)
Above-first {z} (higher {y} p m) =
    let (w, first, rest) = Above-first p in
    (w, first, inr (elim rest [ inl e ↦ parent (rw e m) | inr q ↦ higher q m ]))

-- A set of ids that has the parents of its members has all their ancestors.
pub Above-closed {ℓ} :
    {g : Graph} (P : String → Type ℓ)
    → ((x y : String) → P x → Memᴰ y (parents_of g x) → P y)
    → (x y : String) → Above g x y
    → P x
    → P y
Above-closed P step x y (parent m) p = step x y p m
Above-closed P step x z (higher {y} q m) p = step y z (Above-closed P step x y q p) m

-- No chain of depends_on edges returns to its start.
abbrev pub IsAcyclic : Graph → Type 0
IsAcyclic g = (x : String) → ¬ Above g x x
