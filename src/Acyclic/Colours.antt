-- ===== src/Acyclic/Colours.antt =====
-- What a search does to the colours: it leaves every coloured id as it was, paints its own id
-- black, and leaves no new grey.
use mathlib.Core.List.Memᴰ
use oh_my_graph.Base.{
  ℕ, zero, suc, String, eq_iff, ◌≡◌, refl, ap, subst, ◌∙◌, ◌≢◌, inl, inr, Memᴰ, List, [], ◌∷◌,
  arith,
}
use oh_my_graph.Graph.{Graph, parents_of}
use oh_my_graph.Acyclic.{
  Colour, white, grey, black, Colours, paint, Visit, cycle, clear, out_of_fuel, scan_parents,
  finish, visit,
}

pub data Colour-cases (c : Colour) : Type 0 where
  is_white : c ≡ white → Colour-cases c
  is_grey : c ≡ grey → Colour-cases c
  is_black : c ≡ black → Colour-cases c

pub colour_cases : (c : Colour) → Colour-cases c
colour_cases white = is_white refl
colour_cases grey = is_grey refl
colour_cases black = is_black refl

pub data Visit-cases (v : Visit) : Type 0 where
  is_cycle : (at : String) → v ≡ cycle at → Visit-cases v
  is_clear : (colour : Colours) → v ≡ clear colour → Visit-cases v
  is_out : v ≡ out_of_fuel → Visit-cases v

pub visit_cases : (v : Visit) → Visit-cases v
visit_cases (cycle at) = is_cycle at refl
visit_cases (clear colour) = is_clear colour refl
visit_cases out_of_fuel = is_out refl

pub paint_self : (colour : Colours) (id : String) (c : Colour) → paint colour id c id ≡ c
unfolding paint
paint_self colour id c = ground (arith, eq_iff id id)

pub paint_other :
    (colour : Colours) (id x : String) (c : Colour) → id ≢ x → paint colour id c x ≡ colour x
unfolding paint
paint_other colour id x c h = ground (arith, eq_iff id x)

-- From `before` to `after` no colour but white changed, and no grey was added.
pub record Extends (before after : Colours) : Type 0 where
  pub kept : (x : String) → before x ≢ white → after x ≡ before x
  pub no_grey : (x : String) → after x ≡ grey → before x ≡ grey

pub Extends-refl : (c : Colours) → Extends c c
Extends-refl c = record { kept = λ x _. refl; no_grey = λ x h. h }

pub Extends-trans : {a b c : Colours} → Extends a b → Extends b c → Extends a c
Extends-trans {a} {b} {c} p q = record {
  kept = λ x h. ground (arith, p.kept x, q.kept x);
  no_grey = λ x h. p.no_grey x (q.no_grey x h);
}

-- What the recursive call is known to do, at every white id.
abbrev pub GoExtends : (String → Colours → Visit) → Type 0
GoExtends go =
    (p : String) (c c' : Colours) → c p ≡ white → go p c ≡ clear c' → Extends c c' × (c' p ≡ black)

-- How `scan_parents` treats the first parent, with result `r`.
pub data ScanStep (go : String → Colours → Visit) (p : String) (ps : List String) (c : Colours)
    (r : Visit) : Type 0 where
  closes : c p ≡ grey → r ≡ cycle p → ScanStep go p ps c r
  skips : c p ≡ black → scan_parents go ps c ≡ r → ScanStep go p ps c r
  descends :
      (c1 : Colours)
      → c p ≡ white
      → go p c ≡ clear c1
      → scan_parents go ps c1 ≡ r
      → ScanStep go p ps c r
  finds : (at : String) → c p ≡ white → go p c ≡ cycle at → r ≡ cycle at → ScanStep go p ps c r
  starves : c p ≡ white → go p c ≡ out_of_fuel → r ≡ out_of_fuel → ScanStep go p ps c r

pub scan_step :
    (go : String → Colours → Visit) (p : String) (ps : List String) (c : Colours) (r : Visit)
    → scan_parents go (p ∷ ps) c ≡ r
    → ScanStep go p ps c r
unfolding scan_parents
scan_step go p ps c r h = elim (colour_cases (c p)) [
  | is_grey e ↦ closes e (cc (rw (e, scan_parents) at h))
  | is_black e ↦ skips e (rw (e, scan_parents) at h)
  | is_white e ↦ elim (visit_cases (go p c)) [
    | is_cycle at v ↦ finds at e v (cc (rw (e, v, scan_parents) at h))
    | is_out v ↦ starves e v (cc (rw (e, v, scan_parents) at h))
    | is_clear c1 v ↦ descends c1 e v (rw (e, v, scan_parents) at h)
  ]
]

pub scan_parents-Extends :
    (go : String → Colours → Visit)
    → GoExtends go
    → (parents : List String) (c c' : Colours) → scan_parents go parents c ≡ clear c'
    → Extends c c' × ((p : String) → Memᴰ p parents → c' p ≡ black)
unfolding scan_parents
scan_parents-Extends go known [] c c' h =
    let same : c ≡ c' = cc in
    (subst (Extends c) same (Extends-refl c), λ p m. absurd (Memᴰ.not-nil m))
scan_parents-Extends go known (p ∷ ps) c c' h = elim (scan_step go p ps c (clear c') h) [
  | closes e r ↦ absurd (cc)
  | finds at e v r ↦ absurd (cc)
  | starves e v r ↦ absurd (cc)
  | skips e rest ↦
      let (ext, done) = scan_parents-Extends go known ps c c' rest in
      (ext, mem_cons c' p ps (ext.kept p (λ w. cc) ∙ e) done)
  | descends c1 e v rest ↦
      let (ext1, at_p) = known p c c1 e v in
      let (ext, done) = scan_parents-Extends go known ps c1 c' rest in
      (Extends-trans ext1 ext, mem_cons c' p ps (ext.kept p (λ w. cc) ∙ at_p) done)
]
  where
    mem_cons :
        (d : Colours) (x : String) (xs : List String)
        → d x ≡ black
        → ((q : String) → Memᴰ q xs → d q ≡ black)
        → (q : String) → Memᴰ q (x ∷ xs)
        → d q ≡ black
    mem_cons d x xs at_x rest q m = elim (Memᴰ.cases_cons m) [
      | inl e ↦ rw e at_x
      | inr later ↦ rest q later
    ]

-- A successful visit is a successful scan from the colours with the id grey, painted black.
pub visit-clear :
    (g : Graph) (fuel : ℕ) (id : String) (c c' : Colours)
    → visit g (suc fuel) id c ≡ clear c'
    → (c1 : Colours) × (scan_parents (visit g fuel) (parents_of g id) (paint c id grey) ≡ clear c1)
      × (c' ≡ paint c1 id black)
unfolding visit
visit-clear g fuel id c c' h =
    elim (visit_cases (scan_parents (visit g fuel) (parents_of g id) (paint c id grey))) [
      | is_cycle at v ↦ absurd (cc (rw (v, finish) at h))
      | is_out v ↦ absurd (cc (rw (v, finish) at h))
      | is_clear c1 v ↦ (c1, v, cc (rw (v, finish) at h))
    ]

paint-Extends :
    (c c1 : Colours) (id : String)
    → c id ≡ white
    → Extends (paint c id grey) c1
    → Extends c (paint c1 id black)
unfolding paint
paint-Extends c c1 id w ext = record {
  kept = λ x h. ground (arith, eq_iff id x, ext.kept x, ap c);
  no_grey = λ x h. ground (arith, eq_iff id x, ext.no_grey x);
}

pub visit-Extends : (g : Graph) (fuel : ℕ) → GoExtends (visit g fuel)
unfolding visit
visit-Extends g zero id c c' w h = absurd (cc)
visit-Extends g (suc fuel) id c c' w h =
    let (c1, scanned, e) = visit-clear g fuel id c c' h in
    let (ext, _) = scan_parents-Extends (visit g fuel) (visit-Extends g fuel) _ _ c1 scanned in
    rw e (paint-Extends c c1 id w ext, paint_self c1 id black)
