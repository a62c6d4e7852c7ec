-- ===== src/Validate/Stored.antt =====
-- The two passes that store durations change nothing else: the bare form of the graph stays.
use mathlib.Core.List.Memᴰ
use mathlib.Core.Path.{ap₂}
use oh_my_graph.Base.{
  String, ◌==◌, ◌≡◌, refl, sym, subst, ◌∙◌, ap, Bool, true, false, not, List, [], ◌∷◌, ◌++◌, map,
  Option, none, some, if◌then◌else◌, Memᴰ, Bool-cases, Option-cases, any, inl, inr, ◌⊎◌, IsDistinct,
}
use oh_my_graph.Base.Int.{ℤ, pos, leb_ℤ}
use oh_my_graph.Graph.{Graph, Node, Index, Verification, index_lookup, index_set, node_by_id}
use oh_my_graph.Graph.Index.{IsIndexed, ids, last_with_id-distinct}
use oh_my_graph.Issue.{Issue, each}
use oh_my_graph.Validate.{
  Std, VerifyCheck, good, bad, validate_verification, check_success, set_verify_timeout,
  success_checks_from, validate_success_checks, check_timeout, timeouts_from,
  validate_node_timeouts,
}
use oh_my_graph.Bare.{bare_node, bare_verify, bare_index, bare, bare_found}
use oh_my_graph.Bare.Lookup.{index_lookup-bare}

-- Replacing an entry by a node of the same bare form.
index_set-bare :
    (index : Index) (id : String) (n : Node)
    → index_lookup (bare_index index) id ≡ some (bare_node n)
    → bare_index (index_set index id n) ≡ bare_index index
unfolding index_lookup index_set
index_set-bare [] id n h = absurd (cc)
index_set-bare ((k, old) ∷ index) id n h = elim (Bool-cases (k == id)) [
  | inl e ↦
      let found : some (bare_node old) ≡ some (bare_node n) = rw e at h in
      let same : bare_node old ≡ bare_node n = cc in
      rw e (ap (λ m. (k, m) ∷ bare_index index) (sym same))
  | inr e ↦ rw e (ap (λ l. (k, bare_node old) ∷ l) (index_set-bare index id n (rw e at h)))
]

-- Every node of the list stands in the index, up to stored durations.
abbrev AreListed : List Node → Index → Type 0
AreListed nodes index =
    (n : Node) → Memᴰ n nodes → index_lookup (bare_index index) n.id ≡ some (bare_node n)

VerifyCheck-cases : (c : VerifyCheck) → ((t : ℤ) × (c ≡ good t)) ⊎ ((i : Issue) × (c ≡ bad i))
VerifyCheck-cases (good t) = inl (t, refl)
VerifyCheck-cases (bad i) = inr (i, refl)

set_verify_timeout-bare :
    (t : ℤ) (v : Verification) (n : Node)
    → n.success_check.verify ≡ some v
    → bare_node (set_verify_timeout t v n) ≡ bare_node n
unfolding set_verify_timeout
set_verify_timeout-bare t v n e =
    ap
      (λ verify. record n {
        parsed_timeout = pos 0;
        success_check = record n.success_check { verify = verify };
      })
      (sym (ap bare_verify e))

check_success-bare : (std : Std) (n : Node) → bare_node (check_success std n).0 ≡ bare_node n
unfolding check_success
check_success-bare std n = elim (Option-cases n.success_check.verify) [
  | inl e ↦ let same : (check_success std n).0 ≡ n = simp (e, check_success) in ap bare_node same
  | inr (v, e) ↦ elim (VerifyCheck-cases (validate_verification std n.id v)) [
    | inl (t, h) ↦
        let stored : (check_success std n).0 ≡ set_verify_timeout t v n =
          simp (e, h, check_success) in
        ap bare_node stored ∙ set_verify_timeout-bare t v n e
    | inr (i, h) ↦
        let same : (check_success std n).0 ≡ n = simp (e, h, check_success) in ap bare_node same
  ]
]

-- A write of the same bare form, made or not.
write-bare :
    (b : Bool) (index : Index) (n n' : Node)
    → index_lookup (bare_index index) n.id ≡ some (bare_node n)
    → bare_node n' ≡ bare_node n
    → bare_index (if b then index_set index n.id n' else index) ≡ bare_index index
write-bare true index n n' found same = index_set-bare index n.id n' (found ∙ ap some (sym same))
write-bare false index n n' found same = refl

AreListed-tail :
    (n : Node) (nodes : List Node) (index index' : Index)
    → bare_index index' ≡ bare_index index
    → AreListed (n ∷ nodes) index
    → AreListed nodes index'
AreListed-tail n nodes index index' same listed m mem = rw same (listed m (Memᴰ.tail mem))

-- What a pass that stores durations leaves: the same bare nodes, the same bare index, and the
-- issues of the nodes one by one.
abbrev Stores : List Node → Index → (Node → List Issue) → List Node × Index × List Issue → Type 0
Stores nodes index issues r =
    (map bare_node r.0 ≡ map bare_node nodes)
    × (bare_index r.1 ≡ bare_index index)
    × (r.2 ≡ each issues nodes)

module _ (std : Std) where
  success_checks_from-bare :
      (nodes : List Node) (index : Index)
      → AreListed nodes index
      → Stores nodes index (λ n. (check_success std n).1) (success_checks_from std nodes index)
  unfolding success_checks_from
  success_checks_from-bare [] index listed = (refl, refl, refl)
  success_checks_from-bare (n ∷ nodes) index listed =
      let n' = (check_success std n).0 in
      let same = check_success-bare std n in
      let shared = not (any (λ m. m.id == n.id) nodes) in
      let index1 : Index = if shared then index_set index n.id n' else index in
      let kept = write-bare shared index n n' (listed n (Memᴰ.head refl)) same in
      let (nodes_kept, index_kept, issues) =
        success_checks_from-bare nodes index1 (AreListed-tail n nodes index index1 kept listed) in
      (
        ap₂ (λ m ms. m ∷ ms) same nodes_kept,
        index_kept ∙ kept,
        ap (λ l. (check_success std n).1 ++ l) issues,
      )

  -- The node that the timeout pass leaves in the list.
  abbrev retimed : Node → Option Node → Node
  retimed n none = n
  retimed n (some m) = m

  abbrev written : Node → Option Node → Index → Index
  written n none index = index
  written n (some m) index = index_set index n.id m

  retimed-bare : (n : Node) → bare_node (retimed n (check_timeout std n).0) ≡ bare_node n
  unfolding check_timeout
  retimed-bare n = elim (Bool-cases (n.timeout == "")) [
    | inl e ↦ simp (e, check_timeout)
    | inr e ↦ elim (Option-cases (std.parse_duration n.timeout)) [
      | inl p ↦ simp (e, p, check_timeout)
      | inr (t, p) ↦ elim (Bool-cases (leb_ℤ t (pos 0))) [
        | inl low ↦ simp (e, p, low, check_timeout)
        | inr high ↦ simp (e, p, high, check_timeout)
      ]
    ]
  ]

  written-bare :
      (n : Node) (o : Option Node) (index : Index)
      → index_lookup (bare_index index) n.id ≡ some (bare_node n)
      → bare_node (retimed n o) ≡ bare_node n
      → bare_index (written n o index) ≡ bare_index index
  written-bare n none index found same = refl
  written-bare n (some m) index found same = write-bare true index n m found same

  timeouts_from-eq :
      (n : Node) (nodes : List Node) (index : Index)
      → timeouts_from std (n ∷ nodes) index ≡ (
          let r = timeouts_from std nodes (written n (check_timeout std n).0 index) in
          (retimed n (check_timeout std n).0 ∷ r.0, r.1, (check_timeout std n).1 ++ r.2))
  unfolding timeouts_from
  timeouts_from-eq n nodes index = elim (Option-cases (check_timeout std n).0) [
    | inl e ↦ rw (e, timeouts_from, retimed, written)
    | inr (m, e) ↦ rw (e, timeouts_from, retimed, written)
  ]

  timeouts_from-bare :
      (nodes : List Node) (index : Index)
      → AreListed nodes index
      → Stores nodes index (λ n. (check_timeout std n).1) (timeouts_from std nodes index)
  timeouts_from-bare [] index listed = unfold timeouts_from in (refl, refl, refl)
  timeouts_from-bare (n ∷ nodes) index listed =
      let same = retimed-bare n in
      let index1 = written n (check_timeout std n).0 index in
      let kept = written-bare n (check_timeout std n).0 index (listed n (Memᴰ.head refl)) same in
      let (nodes_kept, index_kept, issues) =
        timeouts_from-bare nodes index1 (AreListed-tail n nodes index index1 kept listed) in
      rw (timeouts_from-eq n nodes index) (
        ap₂ (λ m ms. m ∷ ms) same nodes_kept,
        index_kept ∙ kept,
        ap (λ l. (check_timeout std n).1 ++ l) issues,
      )

-- The index lists every node, up to stored durations.
abbrev pub IsListed : Graph → Type 0
IsListed g = (n : Node) → Memᴰ n (bare g).nodes → index_lookup (bare g).by_id n.id ≡ some n

IsListed-all : (g : Graph) → IsListed g → AreListed g.nodes g.by_id
IsListed-all g listed n m = listed (bare_node n) (Memᴰ.map bare_node m)

-- On a graph whose index lists every node, the success-check pass changes stored durations alone,
-- and its issues are those of the nodes one by one.
pub validate_success_checks-bare :
    (std : Std) (g : Graph)
    → IsListed g
    → (bare (validate_success_checks std g).0 ≡ bare g)
      × ((validate_success_checks std g).1 ≡ each (λ n. (check_success std n).1) g.nodes)
unfolding validate_success_checks
validate_success_checks-bare std g listed =
    let (nodes, index, issues) =
      success_checks_from-bare std g.nodes g.by_id (IsListed-all g listed) in
    (λ i. record (bare g) { nodes = nodes i; by_id = index i }, issues)

-- On a graph whose index lists every node, the timeout pass changes stored durations alone, and its
-- issues are those of the nodes one by one.
pub validate_node_timeouts-bare :
    (std : Std) (g : Graph)
    → IsListed g
    → (bare (validate_node_timeouts std g).0 ≡ bare g)
      × ((validate_node_timeouts std g).1 ≡ each (λ n. (check_timeout std n).1) g.nodes)
unfolding validate_node_timeouts
validate_node_timeouts-bare std g listed =
    let (nodes, index, issues) = timeouts_from-bare std g.nodes g.by_id (IsListed-all g listed) in
    (λ i. record (bare g) { nodes = nodes i; by_id = index i }, issues)

-- An index whose nodes have different ids lists each of them.
pub IsIndexed-IsListed : (g : Graph) → IsIndexed g → IsDistinct (ids g) → IsListed g
unfolding node_by_id
IsIndexed-IsListed g indexed distinct n m =
    let (k, mem, same) = Memᴰ.of_map bare_node g.nodes m in
    let found = indexed.last k.id ∙ last_with_id-distinct g.nodes k distinct mem in
    subst (λ x. index_lookup (bare g).by_id x.id ≡ some x) same
      (index_lookup-bare g.by_id k.id ∙ ap bare_found found)

-- The bare form keeps this property.
pub IsListed-bare : (g h : Graph) → bare g ≡ bare h → IsListed g → IsListed h
IsListed-bare g h same =
    subst (λ b. (n : Node) → Memᴰ n b.nodes → index_lookup b.by_id n.id ≡ some n) same
