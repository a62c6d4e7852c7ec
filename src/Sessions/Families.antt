-- ===== src/Sessions/Families.antt =====
-- The session children of each parent, as the first loop of `validateHandoffConstraints` in
-- internal/graph/validate.go collects them.
use mathlib.Core.List.Memᴰ
use mathlib.Core.Logic.{⊎_elim}
use oh_my_graph.Base.{
  String, ◌==◌, eq_iff, eq_false_iff, ◌≡◌, refl, sym, ◌∙◌, ◌≢◌, ◌↔◌, ◌⊎◌, inl, inr, List, [], ◌∷◌,
  ◌++◌, map, All, Memᴰ, Bool-cases, append-eq-nil, IsDistinct,
}
use oh_my_graph.Sessions.{Families, add_child, rest_of, sibling_issues}

abbrev pub keys : Families → List String
keys families = map (λ f. f.0) families

abbrev pub IsSingle : String × List String → Type 0
IsSingle f = rest_of f.1 ≡ []

abbrev pub HasChild : String × List String → Type 0
HasChild f = f.1 ≢ []

pub sibling_issues-nil : (f : String × List String) → (sibling_issues f ≡ []) ↔ IsSingle f
unfolding sibling_issues
sibling_issues-nil (p, []) = (λ h. refl, λ h. refl)
sibling_issues-nil (p, c ∷ []) = (λ h. refl, λ h. refl)
sibling_issues-nil (p, c ∷ d ∷ cs) = (λ h. cc, λ h. cc)

module _ (p c : String) where
  pub keys-add_child :
      (families : Families) (q : String)
      → Memᴰ q (keys (add_child p c families)) ↔ ((q ≡ p) ⊎ Memᴰ q (keys families))
  unfolding add_child
  keys-add_child [] q =
      (λ m. inl (Memᴰ.eq_of_singleton m), ⊎_elim Memᴰ.head (λ m. absurd (Memᴰ.not-nil m)))
  keys-add_child ((k, cs) ∷ families) q = elim (Bool-cases (k == p)) [
    | inl e ↦
        let same = (eq_iff k p).0 e in rw e (inr, ⊎_elim (λ at. Memᴰ.head (at ∙ sym same)) (λ m. m))
    | inr e ↦
        let ih = keys-add_child families q in
        rw e (
          λ m. elim (Memᴰ.cases_cons m) [
            | inl at ↦ inr (Memᴰ.head at)
            | inr later ↦ ⊎_elim inl (λ x. inr (Memᴰ.tail x)) (ih.0 later)
          ],
          ⊎_elim (λ at. Memᴰ.tail (ih.1 (inl at)))
              (λ m. elim (Memᴰ.cases_cons m) [
                | inl at ↦ Memᴰ.head at
                | inr later ↦ Memᴰ.tail (ih.1 (inr later))
              ]),
        )
  ]

  pub add_child-HasChild :
      (families : Families) → All HasChild families → All HasChild (add_child p c families)
  unfolding add_child
  add_child-HasChild [] h = (λ e. cc, tt)
  add_child-HasChild ((k, cs) ∷ families) (some_child, h) = elim (Bool-cases (k == p)) [
    | inl e ↦ rw e (λ e'. cc (((append-eq-nil cs (c ∷ [])).0 e').1), h)
    | inr e ↦ rw e (some_child, add_child-HasChild families h)
  ]

  pub rest_of_two : (cs : List String) → cs ≢ [] → rest_of (cs ++ c ∷ []) ≢ []
  rest_of_two [] h e = h refl
  rest_of_two (x ∷ xs) h e = cc (((append-eq-nil xs (c ∷ [])).0 e).1)

  -- A second child of one parent is what makes a family large.
  pub add_child-IsSingle :
      (families : Families)
      → All HasChild families
      → All IsSingle (add_child p c families) ↔ (All IsSingle families × ¬ Memᴰ p (keys families))
  unfolding add_child
  add_child-IsSingle [] h = (λ _. (tt, λ m. absurd (Memᴰ.not-nil m)), λ _. (refl, tt))
  add_child-IsSingle ((k, cs) ∷ families) (some_child, h) = elim (Bool-cases (k == p)) [
    | inl e ↦
        let same = (eq_iff k p).0 e in
        rw e (
          λ (single, _). absurd (rest_of_two cs some_child single),
          λ (_, absent). absurd (absent (Memᴰ.head (sym same))),
        )
    | inr e ↦
        let ih = add_child-IsSingle families h in
        let other = (eq_false_iff k p).0 e in
        rw e (
          λ (single, rest).
              let (all_single, absent) = ih.0 rest in
              (
                (single, all_single),
                λ m. elim (Memᴰ.cases_cons m) [
                  | inl at ↦ other (sym at)
                  | inr later ↦ absent later
                ],
              ),
          λ ((single, all_single), absent). (single, ih.1 (all_single, λ m. absent (Memᴰ.tail m))),
        )
  ]

-- No parent of the list is resumed already.
abbrev pub AreNew : List String → Families → Type 0
AreNew parents families = (p : String) → Memᴰ p parents → ¬ Memᴰ p (keys families)

-- The families stay single exactly when no parent is resumed twice.
unfoldable pub AreSingle : Families → List String → Type 0
AreSingle families parents = All IsSingle families × (IsDistinct parents × AreNew parents families)

pub AreSingle-add_child :
    (p c : String) (families : Families) (parents : List String)
    → All HasChild families
    → AreSingle (add_child p c families) parents ↔ AreSingle families (p ∷ parents)
unfolding AreSingle
AreSingle-add_child p c families parents h =
    let single = add_child-IsSingle p c families h in
    let key = keys-add_child p c families in
    (
      λ (all_single, (distinct, new)).
          let (old_single, absent) = single.0 all_single in
          (
            old_single,
            (
              (λ m. new p m ((key p).1 (inl refl)), distinct),
              λ q m k. elim (Memᴰ.cases_cons m) [
                | inl at ↦ absent (Memᴰ.cast (sym at) k)
                | inr later ↦ new q later ((key q).1 (inr k))
              ],
            ),
          ),
      λ (old_single, ((fresh, distinct), new)). (
        single.1 (old_single, new p (Memᴰ.head refl)),
        (
          distinct,
          λ q m k. ⊎_elim (λ at. fresh (Memᴰ.cast (sym at) m)) (new q (Memᴰ.tail m)) ((key q).0 k),
        ),
      ),
    )
