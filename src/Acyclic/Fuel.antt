-- ===== src/Acyclic/Fuel.antt =====
-- The search of validateAcyclic ends: its fuel, one more than the number of nodes, is never used up.
use oh_my_graph.Base.{
  ℕ, zero, suc, ◌≤◌, ◌<◌, String, ◌==◌, ◌≡◌, refl, ◌≢◌, inl, inr, Bool, true, false, Bool-cases,
  List, [], ◌∷◌, arith, length, length-map, count_if, count_if-le-length, count_if_mono,
  count_if_strict, Memᴰ,
}
use oh_my_graph.Graph.{Graph, Node, parents_of}
use oh_my_graph.Graph.Index.{IsIndexed, ids, parents_of-known, node_by_id-mem_ids}
use oh_my_graph.Acyclic.{
  white, grey, Colours, all_white, paint, Visit, cycle, clear, out_of_fuel, scan_parents, visit,
  sweep, search_cycle, finish,
}
use oh_my_graph.Acyclic.Colours.{
  colour_cases, is_white, is_grey, is_black, visit_cases, is_cycle, is_clear, is_out, Extends,
  closes, skips, descends, finds, starves, scan_step, visit-Extends, paint_self,
}

abbrev white? : Colours → String → Bool
white? c x = elim (c x) [ white ↦ true | _ ↦ false ]

-- How many declared ids are still white.
abbrev whites : Graph → Colours → ℕ
whites g c = count_if (white? c) (ids g)

white-back : {c c' : Colours} → Extends c c' → (x : String) → white? c' x ≡ true → white? c x ≡ true
white-back {c} {c'} ext x h = elim (colour_cases (c x)) [
  | is_white e ↦ rw (e, white?)
  | is_grey e ↦ let same : c' x ≡ c x = ext.kept x (λ w. cc) in absurd (ground arith)
  | is_black e ↦ let same : c' x ≡ c x = ext.kept x (λ w. cc) in absurd (ground arith)
]

Extends-whites-le : (g : Graph) {c c' : Colours} → Extends c c' → whites g c' ≤ whites g c
Extends-whites-le g {c} {c'} ext = count_if_mono (white? c) (white? c') (white-back ext) (ids g)

paint-whites-lt :
    (g : Graph) (c : Colours) (id : String)
    → Memᴰ id (ids g)
    → c id ≡ white
    → whites g (paint c id grey) < whites g c
paint-whites-lt g c id m w =
    count_if_strict (white? c) (white? (paint c id grey)) back (ids g) id m (rw (w, white?))
      (rw (paint_self c id grey, white?))
  where
    back : (x : String) → white? (paint c id grey) x ≡ true → white? c x ≡ true
    back x h =
        unfold paint in
        elim (Bool-cases (id == x)) [
          | inl e ↦ absurd (cc (rw (e, paint, white?) at h))
          | inr e ↦ rw (e, paint, white?) at h
        ]

-- What is known of the recursive call with the fuel `f`.
abbrev NeverStarves : Graph → ℕ → (String → Colours → Visit) → Type 0
NeverStarves g f go =
    (p : String) (c : Colours) → c p ≡ white → whites g c < f → go p c ≢ out_of_fuel

scan_parents-ne-out :
    (g : Graph) (f : ℕ)
    → NeverStarves g f (visit g f)
    → (ps : List String) (c : Colours) → whites g c < f
    → scan_parents (visit g f) ps c ≢ out_of_fuel
unfolding scan_parents
scan_parents-ne-out g f known [] c lt h = cc
scan_parents-ne-out g f known (p ∷ ps) c lt h = elim (scan_step (visit g f) p ps c out_of_fuel h) [
  | closes e r ↦ cc
  | finds at e v r ↦ cc
  | starves e v r ↦ known p c e lt v
  | skips e rest ↦ scan_parents-ne-out g f known ps c lt rest
  | descends c1 e v rest ↦
      let le = Extends-whites-le g (visit-Extends g f p c c1 e v).0 in
      scan_parents-ne-out g f known ps c1 (omega arith) rest
]

finish-ne-out : (id : String) (v : Visit) → v ≢ out_of_fuel → finish id v ≢ out_of_fuel
unfolding finish
finish-ne-out id (cycle at) h e = cc
finish-ne-out id (clear c) h e = cc
finish-ne-out id out_of_fuel h e = h refl

module _ (g : Graph) (indexed : IsIndexed g) where
  visit-ne-out : (f : ℕ) → NeverStarves g f (visit g f)
  unfolding visit
  visit-ne-out zero p c w lt e = omega arith
  visit-ne-out (suc f) id c w lt out =
      finish-ne-out id _ (from_parents (parents_of g id) (λ p m. m) (visit-ne-out f)) out
    where
      from_parents :
          (ps : List String)
          → ((p : String) → Memᴰ p ps → Memᴰ p (parents_of g id))
          → NeverStarves g f (visit g f)
          → scan_parents (visit g f) ps (paint c id grey) ≢ out_of_fuel
      from_parents [] sub known h = cc
      from_parents (p ∷ ps) sub known h =
          let (n, found) = parents_of-known indexed id p (sub p (Memᴰ.head refl)) in
          let lt' = paint-whites-lt g c id (node_by_id-mem_ids indexed id n found) w in
          scan_parents-ne-out g f known (p ∷ ps) (paint c id grey) (omega arith) h

  sweep-ne-out :
      (f : ℕ) (nodes : List Node) (c : Colours) → whites g c < f → sweep g f nodes c ≢ out_of_fuel
  unfolding sweep
  sweep-ne-out f [] c lt h = cc
  sweep-ne-out f (n ∷ nodes) c lt h = elim (colour_cases (c n.id)) [
    | is_grey e ↦ sweep-ne-out f nodes c lt (rw (e, sweep) at h)
    | is_black e ↦ sweep-ne-out f nodes c lt (rw (e, sweep) at h)
    | is_white e ↦ elim (visit_cases (visit g f n.id c)) [
      | is_cycle at v ↦ cc (rw (e, v, sweep) at h)
      | is_out v ↦ visit-ne-out f n.id c e lt v
      | is_clear c1 v ↦
          let le = Extends-whites-le g (visit-Extends g f n.id c c1 e v).0 in
          sweep-ne-out f nodes c1 (omega arith) (rw (e, v, sweep) at h)
    ]
  ]

  -- The depth-first search ends with a cycle or with colours, never for want of fuel.
  pub search_cycle-ne-out : search_cycle g ≢ out_of_fuel
  unfolding search_cycle
  search_cycle-ne-out =
      let bound = count_if-le-length (white? all_white) (ids g) in
      let size = length-map (λ (n : Node). n.id) g.nodes in
      sweep-ne-out (suc (length g.nodes)) g.nodes all_white (omega arith)
