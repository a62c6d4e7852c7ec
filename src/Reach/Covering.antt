-- ===== src/Reach/Covering.antt =====
-- The target that coveringFeedbackTarget of internal/graph/feedback_reach.go suggests.
use mathlib.Core.List.Memᴰ
use mathlib.Core.Bool.{false≢true}
use oh_my_graph.Base.{
  ℕ, ◌≤◌, ◌<◌, String, eq_iff, true, false, List, [], ◌∷◌, map, ◌≡◌, ◌≢◌, ◌⊎◌, inl, inr, refl,
  subst, sym, ◌∙◌, Memᴰ, Memᴰ-cons, All, arith, Bool-cases, length,
}
use oh_my_graph.Graph.{Graph, Node}
use oh_my_graph.Ancestors.{between_set}
use oh_my_graph.Reach.{index_in, declaration_index, qualifies, is_better, best_of}

pub index_in-injective :
    (nodes : List Node) (a b : String)
    → Memᴰ a (map (λ n. n.id) nodes)
    → index_in nodes a ≡ index_in nodes b
    → a ≡ b
index_in-injective [] a b m e = absurd (Memᴰ.not-nil m)
index_in-injective (n ∷ nodes) a b m e = ground (
  arith,
  eq_iff n.id a,
  eq_iff n.id b,
  Memᴰ-cons a n.id (map (λ k. k.id) nodes),
  index_in-injective nodes a b,
)

module _ (g : Graph) (declarer : String) where
  abbrev body_size : String → ℕ
  body_size c = length (between_set g c declarer)

  -- `a` has a smaller body than `b`, or one of the same size and does not stand behind it.
  abbrev pub AtMost : String → String → Type 0
  AtMost a b =
      (body_size a < body_size b)
      ⊎ ((body_size a ≡ body_size b) × (declaration_index g a ≤ declaration_index g b))

  AtMost-trans : (a b c : String) → AtMost a b → AtMost b c → AtMost a c
  AtMost-trans a b c p q = ground arith

  AtMost-refl : (a : String) → AtMost a a
  AtMost-refl a = ground arith

  better-AtMost :
      (c best : String)
      → best ≢ ""
      → is_better g c (body_size c) best (body_size best) ≡ true
      → AtMost c best
  unfolding is_better
  better-AtMost c best named h = ground (arith, eq_iff best "")

  not_better-AtMost :
      (c best : String) → is_better g c (body_size c) best (body_size best) ≡ false → AtMost best c
  unfolding is_better
  not_better-AtMost c best h = ground arith

module _ (g : Graph) (declarer current : String) (unreachable : List String) where
  abbrev Qualifies : String → Type 0
  Qualifies c = qualifies g declarer current unreachable c ≡ true

  -- A candidate that qualifies, and that no other comes before.
  abbrev IsLeast : List String → String → Type 0
  IsLeast candidates r =
      Qualifies r × ((d : String) → Memᴰ d candidates → Qualifies d → AtMost g declarer r d)

  abbrev from : List String → String → String
  from candidates best =
      best_of g declarer current unreachable candidates best (body_size g declarer best)

  abbrev Found : List String → String → String → Type 0
  Found candidates best r =
      ((r ≡ best) ⊎ Memᴰ r candidates) × (IsLeast candidates r × AtMost g declarer r best)

  Found-taken :
      (c : String) (cs : List String) (best r : String)
      → AtMost g declarer c best
      → Found cs c r
      → Found (c ∷ cs) best r
  Found-taken c cs best r le (at, ((ok, least), below)) = (
    inr ((Memᴰ-cons r c cs).1 at),
    (
      (ok, λ d m q. elim (Memᴰ.cases_cons m) [ inl e ↦ rw e below | inr later ↦ least d later q ]),
      AtMost-trans g declarer r c best below le,
    ),
  )

  Found-kept :
      (c : String) (cs : List String) (best r : String)
      → (Qualifies c → AtMost g declarer best c)
      → Found cs best r
      → Found (c ∷ cs) best r
  Found-kept c cs best r le (at, ((ok, least), below)) = (
    elim at [ inl e ↦ inl e | inr m ↦ inr (Memᴰ.tail m) ],
    (
      (
        ok,
        λ d m q. elim (Memᴰ.cases_cons m) [
          | inl e ↦ AtMost-trans g declarer r best d below (rw e (le (subst Qualifies e q)))
          | inr later ↦ least d later q
        ],
      ),
      below,
    ),
  )

  from-Found :
      (cs : List String) (best : String)
      → best ≢ ""
      → All (λ c. c ≢ "") cs
      → Qualifies best
      → Found cs best (from cs best)
  unfolding best_of
  from-Found [] best named names ok =
      (inl refl, ((ok, λ d m q. absurd (Memᴰ.not-nil m)), AtMost-refl g declarer best))
  from-Found (c ∷ cs) best named names ok =
      elim (Bool-cases (qualifies g declarer current unreachable c)) [
        | inr off ↦ rw off (
            Found-kept c cs best (from cs best) (λ q. absurd (false≢true (sym off ∙ q)))
              (from-Found cs best named names.1 ok))
        | inl on ↦
            elim (Bool-cases
              (is_better g c (body_size g declarer c) best (body_size g declarer best))) [
                | inl better ↦
                    rw (on, better)
                      (Found-taken c cs best (from cs c)
                        (better-AtMost g declarer c best named better)
                        (from-Found cs c names.0 names.1 on))
                | inr worse ↦
                    rw (on, worse)
                      (Found-kept c cs best (from cs best)
                        (λ _. not_better-AtMost g declarer c best worse)
                        (from-Found cs best named names.1 ok))
              ]
      ]

  -- What the search returns: no target where none qualifies, and the least one otherwise.
  abbrev pub IsAnswer : List String → String → Type 0
  IsAnswer candidates r =
      ((r ≡ "")
        × ((d : String) → Memᴰ d candidates → qualifies g declarer current unreachable d ≡ false))
      ⊎ (Memᴰ r candidates × IsLeast candidates r)

  IsAnswer-taken : (c : String) (cs : List String) (r : String) → Found cs c r → IsAnswer (c ∷ cs) r
  IsAnswer-taken c cs r found =
      let (at, (least, _)) = Found-taken c cs c r (AtMost-refl g declarer c) found in
      inr (elim at [ inl e ↦ Memᴰ.head e | inr m ↦ m ], least)

  IsAnswer-kept :
      (c : String) (cs : List String) (r : String)
      → qualifies g declarer current unreachable c ≡ false
      → IsAnswer cs r
      → IsAnswer (c ∷ cs) r
  IsAnswer-kept c cs r off (inl (e, none)) =
      inl (e, λ d m. elim (Memᴰ.cases_cons m) [ inl same ↦ rw same off | inr later ↦ none d later ])
  IsAnswer-kept c cs r off (inr (m, (ok, least))) = inr (
    Memᴰ.tail m,
    (
      ok,
      λ d m' q. elim (Memᴰ.cases_cons m') [
        | inl same ↦ absurd (false≢true (sym off ∙ subst Qualifies same q))
        | inr later ↦ least d later q
      ],
    ),
  )

  pub start-IsAnswer :
      (cs : List String)
      → All (λ c. c ≢ "") cs
      → IsAnswer cs (best_of g declarer current unreachable cs "" 0)
  unfolding best_of
  start-IsAnswer [] names = inl (refl, λ d m. absurd (Memᴰ.not-nil m))
  start-IsAnswer (c ∷ cs) names = elim (Bool-cases (qualifies g declarer current unreachable c)) [
    | inl on ↦ rw on (IsAnswer-taken c cs (from cs c) (from-Found cs c names.0 names.1 on))
    | inr off ↦ rw off (
        IsAnswer-kept c cs (best_of g declarer current unreachable cs "" 0) off
          (start-IsAnswer cs names.1))
  ]
