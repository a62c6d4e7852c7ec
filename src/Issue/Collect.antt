-- ===== src/Issue/Collect.antt =====
-- When a loop of validate.go collects nothing.
use oh_my_graph.Base.{
  Bool, true, false, ◌≡◌, ◌≢◌, refl, ◌↔◌, List, [], ◌∷◌, ◌++◌, All, append-eq-nil,
}
use oh_my_graph.Issue.{Issue, when, each}

pub when-nil : (b : Bool) (i : Issue) → (when b i ≡ []) ↔ (b ≡ false)
when-nil true i = (λ h. cc, λ h. cc)
when-nil false i = (λ h. refl, λ h. refl)

pub iff_trans {ℓ κ μ} : {P : Type ℓ} {Q : Type κ} {R : Type μ} → P ↔ Q → Q ↔ R → P ↔ R
iff_trans f g = (λ p. g.0 (f.0 p), λ r. f.1 (g.1 r))

pub ×_iff {ℓ κ μ ν} :
    {P : Type ℓ} {Q : Type κ} {R : Type μ} {S : Type ν} → P ↔ Q → R ↔ S → (P × R) ↔ (Q × S)
×_iff f g = (λ (p, r). (f.0 p, g.0 r), λ (q, s). (f.1 q, g.1 s))

-- Two lists of issues joined are empty exactly when each is.
pub ++-nil {ℓ κ} :
    {P : Type ℓ} {Q : Type κ} (xs ys : List Issue)
    → (xs ≡ []) ↔ P
    → (ys ≡ []) ↔ Q
    → (xs ++ ys ≡ []) ↔ (P × Q)
++-nil xs ys p q = iff_trans (append-eq-nil xs ys) (×_iff p q)

pub each-nil {ℓ κ} :
    {A : Type ℓ} (P : A → Type κ) (check : A → List Issue)
    → ((x : A) → (check x ≡ []) ↔ P x)
    → (xs : List A) → (each check xs ≡ []) ↔ All P xs
each-nil P check known [] = (λ _. tt, λ _. refl)
each-nil P check known (x ∷ xs) =
    ++-nil (check x) (each check xs) (known x) (each-nil P check known xs)

pub snoc-ne-nil : (xs : List Issue) (i : Issue) → xs ++ i ∷ [] ≢ []
snoc-ne-nil xs i h = cc (((append-eq-nil xs (i ∷ [])).0 h).1)
