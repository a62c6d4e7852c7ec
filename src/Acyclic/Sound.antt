-- ===== src/Acyclic/Sound.antt =====
-- A cycle that the search reports is one: the reported id is its own proper ancestor.
use oh_my_graph.Base.{
  ℕ, zero, suc, String, ◌==◌, eq_iff, Bool-cases, ◌≡◌, ◌∙◌, refl, ◌≢◌, inl, inr, List, [], ◌∷◌,
  arith, Memᴰ, length,
}
use oh_my_graph.Graph.{Graph, Node, parents_of}
use oh_my_graph.Graph.Paths.{Above, parent, higher}
use oh_my_graph.Acyclic.{
  white, grey, Colours, all_white, paint, Visit, cycle, clear, out_of_fuel, scan_parents, finish,
  visit, sweep, search_cycle,
}
use oh_my_graph.Acyclic.Colours.{
  colour_cases, is_white, is_grey, is_black, visit_cases, is_cycle, is_clear, is_out, closes, skips,
  descends, finds, starves, scan_step, visit-Extends,
}

-- Every grey id lies below `id`: the grey ids are the stack of the search.
abbrev StackBelow : Graph → Colours → String → Type 0
StackBelow g c id = (x : String) → c x ≡ grey → Above g x id

abbrev GoSound : Graph → (String → Colours → Visit) → Type 0
GoSound g go =
    (p : String) (c : Colours) (y : String)
    → c p ≡ white
    → StackBelow g c p
    → go p c ≡ cycle y
    → Above g y y

scan_parents_sound :
    (g : Graph) (fuel : ℕ)
    → GoSound g (visit g fuel)
    → (ps : List String) (c : Colours) (y : String) → ((p : String) → Memᴰ p ps → StackBelow g c p)
    → scan_parents (visit g fuel) ps c ≡ cycle y
    → Above g y y
unfolding scan_parents
scan_parents_sound g fuel known [] c y below h = absurd (cc)
scan_parents_sound g fuel known (p ∷ ps) c y below h =
    elim (scan_step (visit g fuel) p ps c (cycle y) h) [
      | closes e r ↦ let same : y ≡ p = cc in rw same (below p (Memᴰ.head refl) p e)
      | starves e v r ↦ absurd (cc)
      | finds at e v r ↦
          let same : y ≡ at = cc in rw same (known p c at e (below p (Memᴰ.head refl)) v)
      | skips e rest ↦ scan_parents_sound g fuel known ps c y (λ q m. below q (Memᴰ.tail m)) rest
      | descends c1 e v rest ↦
          let ext = (visit-Extends g fuel p c c1 e v).0 in
          scan_parents_sound g fuel known ps c1 y
            (λ q m x grey1. below q (Memᴰ.tail m) x (ext.no_grey x grey1)) rest
    ]

finish-cycle : (id : String) (v : Visit) (y : String) → finish id v ≡ cycle y → v ≡ cycle y
unfolding finish
finish-cycle id (cycle at) y h = h
finish-cycle id (clear c) y h = absurd (cc)
finish-cycle id out_of_fuel y h = absurd (cc)

visit_sound : (g : Graph) (fuel : ℕ) → GoSound g (visit g fuel)
unfolding visit
visit_sound g zero id c y w below h = absurd (cc)
visit_sound g (suc fuel) id c y w below h =
    scan_parents_sound g fuel (visit_sound g fuel) (parents_of g id) (paint c id grey) y stack
      (finish-cycle id _ y h)
  where
    old_grey : (x : String) → paint c id grey x ≡ grey → x ≢ id → c x ≡ grey
    old_grey x e other = unfold paint in ground (arith, eq_iff id x)

    stack : (p : String) → Memᴰ p (parents_of g id) → StackBelow g (paint c id grey) p
    stack p m x e = elim (Bool-cases (id == x)) [
      | inl same ↦ rw (← (eq_iff id x).0 same) (parent m)
      | inr other ↦ higher (below x (old_grey x e (λ q. ground (arith, eq_iff id x)))) m
    ]

sweep_sound :
    (g : Graph) (fuel : ℕ) (nodes : List Node) (c : Colours) (y : String)
    → ((x : String) → c x ≢ grey)
    → sweep g fuel nodes c ≡ cycle y
    → Above g y y
unfolding sweep
sweep_sound g fuel [] c y none_grey h = absurd (cc)
sweep_sound g fuel (n ∷ nodes) c y none_grey h = elim (colour_cases (c n.id)) [
  | is_grey e ↦ absurd (none_grey n.id e)
  | is_black e ↦ sweep_sound g fuel nodes c y none_grey (rw (e, sweep) at h)
  | is_white e ↦ elim (visit_cases (visit g fuel n.id c)) [
    | is_out v ↦ absurd (cc (rw (e, v, sweep) at h))
    | is_cycle at v ↦
        let same : cycle at ≡ cycle y = rw (e, v, sweep) at h in
        visit_sound g fuel n.id c y e (λ x e'. absurd (none_grey x e')) (v ∙ same)
    | is_clear c1 v ↦
        let ext = (visit-Extends g fuel n.id c c1 e v).0 in
        sweep_sound g fuel nodes c1 y (λ x e'. none_grey x (ext.no_grey x e'))
          (rw (e, v, sweep) at h)
  ]
]

pub search_cycle_sound : (g : Graph) (y : String) → search_cycle g ≡ cycle y → Above g y y
unfolding search_cycle
search_cycle_sound g y h = sweep_sound g (suc (length g.nodes)) g.nodes all_white y (λ x e. cc) h
