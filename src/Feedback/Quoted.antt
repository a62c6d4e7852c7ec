-- ===== src/Feedback/Quoted.antt =====
-- validateFeedbackPlaceholders of internal/graph/feedback.go, said without its fields and its table.
use mathlib.Core.List.Memᴰ
use oh_my_graph.Base.{
  ℕ, String, ◌≡◌, refl, sym, ap, subst, ◌↔◌, ◌⊎◌, inl, inr, Bool, true, false, not, ◌&&◌, List, [],
  ◌∷◌, some, arith, All-mem, mem-All, Memᴰ, Bool-cases, Option-cases,
}
use oh_my_graph.Base.Text.{codes}
use oh_my_graph.Base.Order.{codes-injective}
use oh_my_graph.Graph.{Graph, Node, Feedback, Verification, is_none}
use oh_my_graph.Tokens.{Token, tokens_of}
use oh_my_graph.Feedback.{
  codes_eq, arc_body, token_fields, feedback_body, validate_feedback_placeholders,
}
use oh_my_graph.Feedback.Placeholders.{IsSoundToken, validate_feedback_placeholders-nil}

-- The texts of a node in which a run replaces placeholders.
abbrev pub IsInterpolated : Node → String → Type 0
IsInterpolated n text =
    (text ≡ n.prompt)
    ⊎ ((text ≡ n.cwd)
        ⊎ ((v : Verification) × (n.success_check.verify ≡ some v)
            × ((text ≡ v.command) ⊎ (text ≡ v.cwd))))

-- The placeholder has no filter and names a declarer whose arc reruns the node that quotes it.
abbrev pub IsAnswered : Graph → Node → Token → Type 0
IsAnswered g n token =
    (token.filtered ≡ false)
    × ((d : Node) × (f : Feedback) × Memᴰ d g.nodes
        × (d.feedback ≡ some f)
        × (codes d.id ≡ token.ref)
        × Memᴰ n.id (feedback_body g d.id))

abbrev pub AreAnswered : Graph → Type 0
AreAnswered g =
    (n : Node)
    → Memᴰ n g.nodes
    → (text : String) → IsInterpolated n text
    → (token : Token) → Memᴰ token (tokens_of text)
    → IsAnswered g n token

codes_eq_iff : (xs ys : List ℕ) → (codes_eq xs ys ≡ true) ↔ (xs ≡ ys)
unfolding codes_eq
codes_eq_iff [] [] = (λ _. refl, λ _. refl)
codes_eq_iff [] (y ∷ ys) = (λ h. absurd (cc h), λ h. absurd (cc h))
codes_eq_iff (x ∷ xs) [] = (λ h. absurd (cc h), λ h. absurd (cc h))
codes_eq_iff (x ∷ xs) (y ∷ ys) = ground (arith, codes_eq_iff xs ys)

module _ (g : Graph) where
  declares : (k : Node) (ref : List ℕ) → Bool
  declares k ref = not (is_none k.feedback) && codes_eq (codes k.id) ref

  -- The table answers with the body of a declarer of that id.
  arc_body-declarer :
      (nodes : List Node) (ref : List ℕ) (body : List String)
      → arc_body g nodes ref ≡ some body
      → (d : Node) × (f : Feedback) × Memᴰ d nodes
        × (d.feedback ≡ some f)
        × (codes d.id ≡ ref)
        × (feedback_body g d.id ≡ body)
  unfolding arc_body
  arc_body-declarer [] ref body h = absurd (cc h)
  arc_body-declarer (k ∷ nodes) ref body h = elim (Option-cases k.feedback) [
    | inl e ↦
        let (d, f, m, declared, id, same) =
          arc_body-declarer nodes ref body (rw (e, arc_body) at h) in
        (d, f, Memᴰ.tail m, declared, id, same)
    | inr (f, e) ↦ elim (Bool-cases (codes_eq (codes k.id) ref)) [
      | inl same ↦
          let found : some (feedback_body g k.id) ≡ some body = rw (e, same, arc_body) at h in
          (k, f, Memᴰ.head refl, e, (codes_eq_iff (codes k.id) ref).0 same, cc)
      | inr other ↦
          let (d, f', m, declared, id, body_same) =
            arc_body-declarer nodes ref body (rw (e, other, arc_body) at h) in
          (d, f', Memᴰ.tail m, declared, id, body_same)
    ]
  ]

  -- Declarers of one id have one body, so the table answers for each of them.
  arc_body-known :
      (nodes : List Node) (d : Node) (f : Feedback)
      → Memᴰ d nodes
      → d.feedback ≡ some f
      → arc_body g nodes (codes d.id) ≡ some (feedback_body g d.id)
  unfolding arc_body
  arc_body-known [] d f m declared = absurd (Memᴰ.not-nil m)
  arc_body-known (k ∷ nodes) d f m declared = elim (Option-cases k.feedback) [
    | inl e ↦ elim (Memᴰ.cases_cons m) [
      | inl same ↦
          let here : k.feedback ≡ some f =
            subst (λ (x : Node). x.feedback ≡ some f) same declared in
          absurd (cc (e, here))
      | inr later ↦ rw (e, arc_body) (arc_body-known nodes d f later declared)
    ]
    | inr (f', e) ↦ elim (Bool-cases (codes_eq (codes k.id) (codes d.id))) [
      | inl same ↦
          let id = codes-injective k.id d.id ((codes_eq_iff (codes k.id) (codes d.id)).0 same) in
          rw (e, same, arc_body) (ap (λ x. some (feedback_body g x)) id)
      | inr other ↦ elim (Memᴰ.cases_cons m) [
        | inl same ↦
            let one : codes k.id ≡ codes d.id = ap (λ (x : Node). codes x.id) (sym same) in
            absurd (cc (other, (codes_eq_iff (codes k.id) (codes d.id)).1 one))
        | inr later ↦ rw (e, other, arc_body) (arc_body-known nodes d f later declared)
      ]
    ]
  ]

  token-IsAnswered : (n : Node) (token : Token) → IsSoundToken g n token ↔ IsAnswered g n token
  token-IsAnswered n token = (
    λ (plain, (body, known, inside)).
        let (d, f, m, declared, ref, same) = arc_body-declarer g.nodes token.ref body known in
        (plain, (d, f, m, declared, ref, subst (Memᴰ n.id) (sym same) inside)),
    λ (plain, (d, f, m, declared, ref, inside)). (
      plain,
      (
        feedback_body g d.id,
        subst (λ r. arc_body g g.nodes r ≡ some (feedback_body g d.id)) ref
            (arc_body-known g.nodes d f m declared),
        inside,
      ),
    ),
  )

field-IsInterpolated :
    (n : Node) (field : String × String) → Memᴰ field (token_fields n) → IsInterpolated n field.1
unfolding token_fields
field-IsInterpolated n field m = elim (Memᴰ.cases_cons m) [
  | inl e ↦ inl (ap (λ x. x.1) e)
  | inr m1 ↦ elim (Memᴰ.cases_cons m1) [
    | inl e ↦ inr (inl (ap (λ x. x.1) e))
    | inr m2 ↦ inr (
        inr (elim (Option-cases n.success_check.verify) [
          | inl e ↦ absurd (Memᴰ.not-nil (rw e at m2))
          | inr (v, e) ↦ elim (Memᴰ.cases_cons (rw e at m2)) [
            | inl at ↦ (v, e, inl (ap (λ x. x.1) at))
            | inr m3 ↦ elim (Memᴰ.cases_cons m3) [
              | inl at ↦ (v, e, inr (ap (λ x. x.1) at))
              | inr none_left ↦ absurd (Memᴰ.not-nil none_left)
            ]
          ]
        ]))
  ]
]

field_of :
    (n : Node) (text : String)
    → IsInterpolated n text
    → (name : String) × Memᴰ (name, text) (token_fields n)
unfolding token_fields
field_of n text (inl e) = ("prompt", Memᴰ.head (ap (λ t. ("prompt", t)) e))
field_of n text (inr (inl e)) = ("cwd", Memᴰ.tail (Memᴰ.head (ap (λ t. ("cwd", t)) e)))
field_of n text (inr (inr (v, k, inl e))) =
    let name : String = "success_check.verify.command" in
    (name, rw k (Memᴰ.tail (Memᴰ.tail (Memᴰ.head (ap (λ t. (name, t)) e)))))
field_of n text (inr (inr (v, k, inr e))) =
    let name : String = "success_check.verify.cwd" in
    (name, rw k (Memᴰ.tail (Memᴰ.tail (Memᴰ.tail (Memᴰ.head (ap (λ t. (name, t)) e))))))

-- The check of feedback placeholders finds nothing exactly if each of them in a prompt, in a cwd, and
-- in the command or the cwd of a verification, has no filter and names a node that declares an arc
-- whose body holds the node that quotes it.
pub validate_feedback_placeholders_iff :
    (g : Graph) → (validate_feedback_placeholders g ≡ []) ↔ AreAnswered g
validate_feedback_placeholders_iff g =
    let check = validate_feedback_placeholders-nil g in
    (
      λ clean n m text shown token t.
          let (name, field) = field_of n text shown in
          let fields = All-mem _ g.nodes (check.0 clean) n m in
          let tokens = All-mem _ (token_fields n) fields (name, text) field in
          (token-IsAnswered g n token).0 (All-mem _ (tokens_of text) tokens token t),
      λ answered. check.1 (
          mem-All _ g.nodes (λ n m. mem-All _ (token_fields n) (λ field f.
            mem-All _ (tokens_of field.1) (λ token t.
              (token-IsAnswered g n token).1
                (answered n m field.1 (field-IsInterpolated n field f) token t))))),
    )
