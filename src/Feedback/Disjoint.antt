-- ===== src/Feedback/Disjoint.antt =====
-- The loop that claims body nodes: it reports nothing exactly when no node is claimed twice.
use mathlib.Core.List.Memᴰ
use oh_my_graph.Base.{
  String, eq_iff, ◌≡◌, refl, sym, ◌↔◌, inl, inr, List, [], ◌∷◌, none, arith, Memᴰ, Option-cases,
  IsDistinct,
}
use oh_my_graph.Feedback.{Owners, owner_of, claim}

-- No node of the body has an owner.
abbrev pub AreFree : List String → Owners → Type 0
AreFree body owners = (x : String) → Memᴰ x body → owner_of owners x ≡ none

pub owner_of-cons :
    (owners : Owners) (id declarer x : String)
    → (owner_of ((id, declarer) ∷ owners) x ≡ none) ↔ ((¬ (x ≡ id)) × (owner_of owners x ≡ none))
unfolding owner_of
owner_of-cons owners id declarer x = ground (arith, eq_iff id x)

pub claim-nil :
    (declarer : String) (body : List String) (owners : Owners)
    → ((claim declarer body owners).0 ≡ []) ↔ (IsDistinct body × AreFree body owners)
unfolding claim
claim-nil declarer [] owners = (λ _. (tt, λ x m. absurd (Memᴰ.not-nil m)), λ _. refl)
claim-nil declarer (id ∷ body) owners = elim (Option-cases (owner_of owners id)) [
  | inr (owner, e) ↦ (
    λ h. absurd (cc (rw (e, claim) at h)),
    λ (_, free). absurd (cc (free id (Memᴰ.head refl), e)),
  )
  | inl e ↦
      let ih = claim-nil declarer body ((id, declarer) ∷ owners) in
      let key = owner_of-cons owners id declarer in
      rw (e, claim)
        (
          λ h.
              let (distinct, free) = ih.0 h in
              (
                (λ m. ((key id).0 (free id m)).0 refl, distinct),
                λ x m. elim (Memᴰ.cases_cons m) [
                  | inl at ↦ rw at e
                  | inr later ↦ ((key x).0 (free x later)).1
                ],
              ),
          λ ((fresh, distinct), free). ih.1 (
            distinct,
            λ x m. (key x).1 (λ at. fresh (Memᴰ.cast (sym at) m), free x (Memᴰ.tail m)),
          ),
        )
]

-- After the loop a node is free exactly when it was free and lies outside the body.
pub claim-owners :
    (declarer : String) (body : List String) (owners : Owners) (x : String)
    → (owner_of (claim declarer body owners).1 x ≡ none)
      ↔ ((owner_of owners x ≡ none) × ¬ Memᴰ x body)
unfolding claim
claim-owners declarer [] owners x = (λ h. (h, λ m. Memᴰ.not-nil m), λ h. h.0)
claim-owners declarer (id ∷ body) owners x = elim (Option-cases (owner_of owners id)) [
  | inr (owner, e) ↦
      let ih = claim-owners declarer body owners x in
      rw (e, claim)
        (
          λ h.
              let (free, outside) = ih.0 h in
              (
                free,
                λ m. elim (Memᴰ.cases_cons m) [
                  | inl at ↦ cc (free, e, at)
                  | inr later ↦ outside later
                ],
              ),
          λ (free, outside). ih.1 (free, λ m. outside (Memᴰ.tail m)),
        )
  | inl e ↦
      let ih = claim-owners declarer body ((id, declarer) ∷ owners) x in
      let key = owner_of-cons owners id declarer x in
      rw (e, claim)
        (
          λ h.
              let (free', outside) = ih.0 h in
              let (other, free) = key.0 free' in
              (
                free,
                λ m. elim (Memᴰ.cases_cons m) [ inl at ↦ other at | inr later ↦ outside later ],
              ),
          λ (free, outside).
              ih.1 (key.1 (λ at. outside (Memᴰ.head at), free), λ m. outside (Memᴰ.tail m)),
        )
]
