-- ===== src/Acyclic/Complete.antt =====
-- Colours that a search leaves: the black ids are closed under parents and lie on no cycle. So a
-- search that finds nothing proves the graph acyclic.
use mathlib.Core.List.Memᴰ
use oh_my_graph.Base.{
  ℕ, zero, suc, String, eq_iff, ◌≡◌, sym, ap, subst, ◌≢◌, ◌∙◌, inl, inr, List, [], ◌∷◌, arith, Memᴰ,
  length,
}
use oh_my_graph.Graph.{Graph, Node, parents_of}
use oh_my_graph.Graph.Index.{IsIndexed, parents_of-known, node_by_id-mem}
use oh_my_graph.Graph.Paths.{Above, Above-first, Above-closed, IsAcyclic}
use oh_my_graph.Acyclic.{
  white, grey, black, Colours, all_white, paint, Visit, clear, scan_parents, visit, sweep,
  search_cycle,
}
use oh_my_graph.Acyclic.Colours.{
  colour_cases, is_white, is_grey, is_black, visit_cases, is_cycle, is_clear, is_out, Extends,
  Extends-refl, Extends-trans, closes, skips, descends, finds, starves, scan_step, visit-clear,
  scan_parents-Extends, visit-Extends, paint_self,
}

record IsExplored (g : Graph) (c : Colours) : Type 0 where
  closed : (x p : String) → c x ≡ black → Memᴰ p (parents_of g x) → c p ≡ black
  acyclic : (x : String) → c x ≡ black → ¬ Above g x x

abbrev GoExplores : Graph → (String → Colours → Visit) → Type 0
GoExplores g go =
    (p : String) (c c' : Colours)
    → c p ≡ white
    → IsExplored g c
    → go p c ≡ clear c'
    → IsExplored g c'

scan_parents-IsExplored :
    (g : Graph) (go : String → Colours → Visit)
    → GoExplores g go
    → (ps : List String) (c c' : Colours) → IsExplored g c
    → scan_parents go ps c ≡ clear c'
    → IsExplored g c'
unfolding scan_parents
scan_parents-IsExplored g go known [] c c' inv h = let same : c ≡ c' = cc in rw (sym same) inv
scan_parents-IsExplored g go known (p ∷ ps) c c' inv h = elim (scan_step go p ps c (clear c') h) [
  | closes e r ↦ absurd (cc)
  | finds at e v r ↦ absurd (cc)
  | starves e v r ↦ absurd (cc)
  | skips e rest ↦ scan_parents-IsExplored g go known ps c c' inv rest
  | descends c1 e v rest ↦ scan_parents-IsExplored g go known ps c1 c' (known p c c1 e inv v) rest
]

-- Painting a white id grey leaves the black ids as they are.
paint_grey-IsExplored :
    (g : Graph) (c : Colours) (id : String)
    → c id ≡ white
    → IsExplored g c
    → IsExplored g (paint c id grey)
unfolding paint
paint_grey-IsExplored g c id w inv = record {
  closed = λ x p b m. ground (arith, eq_iff id x, eq_iff id p, inv.closed x p, ap c);
  acyclic = λ x b. inv.acyclic x (ground (arith, eq_iff id x));
}

-- A grey id whose parents are black can be painted black.
paint_black-IsExplored :
    (g : Graph) (c : Colours) (id : String)
    → c id ≡ grey
    → ((p : String) → Memᴰ p (parents_of g id) → c p ≡ black)
    → IsExplored g c
    → IsExplored g (paint c id black)
paint_black-IsExplored g c id at_id parents inv = record {
  closed = λ x p b m. elim (colour_cases (c x)) [
    | is_black e ↦ still p (inv.closed x p e m)
    | is_white e ↦ still p (parents p (moved x b (λ e'. cc) m))
    | is_grey e ↦ still p (parents p (moved x b (λ e'. cc) m))
  ];
  acyclic = λ x b round. elim (colour_cases (c x)) [
    | is_black e ↦ inv.acyclic x e round
    | is_white e ↦ no_return (turned x b (λ e'. cc) round)
    | is_grey e ↦ no_return (turned x b (λ e'. cc) round)
  ];
}
  where
    still : (p : String) → c p ≡ black → paint c id black p ≡ black
    still p e = unfold paint in ground (arith, eq_iff id p)

    is_id : (x : String) → paint c id black x ≡ black → c x ≢ black → x ≡ id
    is_id x b other = unfold paint in ground (arith, eq_iff id x)

    moved :
        (x : String)
        → paint c id black x ≡ black
        → c x ≢ black
        → {p : String} → Memᴰ p (parents_of g x)
        → Memᴰ p (parents_of g id)
    moved x b other m = rw (is_id x b other) at m

    turned : (x : String) → paint c id black x ≡ black → c x ≢ black → Above g x x → Above g id id
    turned x b other = subst (λ y. Above g y y) (is_id x b other)

    no_return : ¬ Above g id id
    no_return round =
        let (y, m, rest) = Above-first round in
        elim rest [
          | inl e ↦ let here : c id ≡ black = rw (← e) (parents y m) in cc
          | inr up ↦
              let here = Above-closed (λ z. c z ≡ black) inv.closed y id up (parents y m) in cc
        ]

visit-IsExplored : (g : Graph) (fuel : ℕ) → GoExplores g (visit g fuel)
unfolding visit
visit-IsExplored g zero id c c' w inv h = absurd (cc)
visit-IsExplored g (suc fuel) id c c' w inv h =
    let (c1, scanned, e) = visit-clear g fuel id c c' h in
    let greyed = paint c id grey in
    let (ext, done) =
      scan_parents-Extends (visit g fuel) (visit-Extends g fuel) (parents_of g id) greyed c1
        scanned in
    let inv1 =
      scan_parents-IsExplored g (visit g fuel) (visit-IsExplored g fuel) (parents_of g id) greyed c1
        (paint_grey-IsExplored g c id w inv) scanned in
    let self = paint_self c id grey in
    rw e (paint_black-IsExplored g c1 id (ext.kept id (λ p. cc) ∙ self) done inv1)

-- A sweep from colours without grey that ends clear: every id of its nodes is black.
sweep-IsExplored :
    (g : Graph) (fuel : ℕ) (nodes : List Node) (c c' : Colours)
    → ((x : String) → c x ≢ grey)
    → IsExplored g c
    → sweep g fuel nodes c ≡ clear c'
    → Extends c c' × IsExplored g c' × ((n : Node) → Memᴰ n nodes → c' n.id ≡ black)
unfolding sweep
sweep-IsExplored g fuel [] c c' none_grey inv h =
    let same : c ≡ c' = cc in
    (subst (Extends c) same (Extends-refl c), rw (← same) inv, λ n m. absurd (Memᴰ.not-nil m))
sweep-IsExplored g fuel (n ∷ nodes) c c' none_grey inv h = elim (colour_cases (c n.id)) [
  | is_grey e ↦ absurd (none_grey n.id e)
  | is_black e ↦
      let (ext, inv', done) =
        sweep-IsExplored g fuel nodes c c' none_grey inv (rw (e, sweep) at h) in
      (ext, inv', with_head c' (ext.kept n.id (λ w. cc) ∙ e) done)
  | is_white e ↦ elim (visit_cases (visit g fuel n.id c)) [
    | is_cycle at v ↦ absurd (cc (rw (e, v, sweep) at h))
    | is_out v ↦ absurd (cc (rw (e, v, sweep) at h))
    | is_clear c1 v ↦
        let (ext1, at_n) = visit-Extends g fuel n.id c c1 e v in
        let (ext, inv', done) =
          sweep-IsExplored g fuel nodes c1 c' (λ x grey1. none_grey x (ext1.no_grey x grey1))
            (visit-IsExplored g fuel n.id c c1 e inv v) (rw (e, v, sweep) at h) in
        (Extends-trans ext1 ext, inv', with_head c' (ext.kept n.id (λ w. cc) ∙ at_n) done)
  ]
]
  where
    with_head :
        (d : Colours)
        → d n.id ≡ black
        → ((m : Node) → Memᴰ m nodes → d m.id ≡ black)
        → (m : Node) → Memᴰ m (n ∷ nodes)
        → d m.id ≡ black
    with_head d at_n rest m mem = elim (Memᴰ.cases_cons mem) [
      | inl e ↦ rw e at_n
      | inr later ↦ rest m later
    ]

-- A search that finds no cycle proves that there is none.
pub search_cycle-clear :
    (g : Graph) → IsIndexed g → (c : Colours) → search_cycle g ≡ clear c → IsAcyclic g
unfolding search_cycle
search_cycle-clear g indexed c h x round =
    let (_, inv, done) =
      sweep-IsExplored g (suc (length g.nodes)) g.nodes all_white c (λ y e. cc)
        (record { closed = λ y p e m. absurd (cc); acyclic = λ y e. absurd (cc) }) h in
    let (p, m, _) = Above-first round in
    let (n, found) = parents_of-known indexed x p m in
    let (mem, e) = node_by_id-mem indexed x n found in inv.acyclic x (rw (← e) (done n mem)) round
