-- ===== src/Names.antt =====
-- internal/graph/validate.go: the shapes that a node id and a worktree name must take. The
-- anchored regular expressions are read by their deterministic automata over the code points.
pub mod Segments
use oh_my_graph.Base.{
  ℕ, String, Bool, true, false, ◌&&◌, ◌||◌, List, [], ◌∷◌, if◌then◌else◌, leb, eqb, all,
}
use oh_my_graph.Base.Text.{codes}

-- [A-Za-z0-9]
abbrev pub is_alnum : ℕ → Bool
is_alnum c = (leb b'A' c && leb c b'Z') || (leb b'a' c && leb c b'z') || (leb b'0' c && leb c b'9')

-- [A-Za-z0-9._-]
abbrev pub is_name_char : ℕ → Bool
is_name_char c = is_alnum c || eqb c b'.' || eqb c b'_' || eqb c b'-'

-- `[A-Za-z0-9][A-Za-z0-9._-]*`, the whole text.
unfoldable pub is_segment : List ℕ → Bool
is_segment [] = false
is_segment (c ∷ cs) = is_alnum c && all is_name_char cs

-- `^segment(?:/segment)*$`: `at_start` says that a segment has to begin here.
unfoldable pub matches_id : Bool → List ℕ → Bool
matches_id true [] = false
matches_id false [] = true
matches_id true (c ∷ cs) = is_alnum c && matches_id false cs
matches_id false (c ∷ cs) =
    if eqb c b'/' then matches_id true cs else is_name_char c && matches_id false cs

-- `worktreeNamePattern.MatchString`
unfoldable pub worktree_name_matches : String → Bool
unfolding is_segment
worktree_name_matches name = is_segment (codes name)

-- `nodeIDPattern.MatchString`
unfoldable pub node_id_matches : String → Bool
unfolding matches_id
node_id_matches id = matches_id true (codes id)
