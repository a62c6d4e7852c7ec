-- ===== src/Schedule/Costs/Corrected.antt =====
-- The cost that is billed to a node of a resumed session.
use oh_my_graph.Base.{
  String, eq_refl, ◌≡◌, subst, ◌∙◌, ◌↔◌, ◌⊎◌, inl, inr, true, false, Option, none, some, arith,
  Bool-cases, [], ◌∷◌,
}
use oh_my_graph.Base.Int.{ℤ, pos, ◌+ℤ◌, ◌-ℤ◌, ◌≤ℤ◌, ltb_ℤ}
use oh_my_graph.Schedule.Costs.{
  ReportedCost, SessionCost, correct_session_cost, subtract_baseline, remember_reported_cost,
  session_baseline,
}

sub-add : (a b : ℤ) → (a -ℤ b) +ℤ b ≡ a
sub-add a b = ground arith

sub-nonneg : (a b : ℤ) → ltb_ℤ a b ≡ false → pos 0 ≤ℤ (a -ℤ b)
sub-nonneg a b h = ground arith

-- If the cost of a node that resumed a session is known after the correction, it is not negative,
-- and with the parent's reported cost it makes up the total that the session reported.
pub correct_session_cost-adds :
    (cost : SessionCost) (baseline : ReportedCost)
    → cost.includes_resumed ≡ true
    → cost.unknown ≡ false
    → (correct_session_cost cost (some baseline)).unknown ≡ false
    → ((correct_session_cost cost (some baseline)).total +ℤ baseline.usd ≡ cost.total)
      × (pos 0 ≤ℤ (correct_session_cost cost (some baseline)).total)
unfolding correct_session_cost subtract_baseline
correct_session_cost-adds cost baseline resumed known still = elim (Bool-cases baseline.unknown) [
  | inl e ↦ absurd (cc (simp (resumed, known, e, correct_session_cost) at still))
  | inr e ↦ elim (Bool-cases (ltb_ℤ cost.total baseline.usd)) [
    | inl low ↦ absurd (cc (simp (resumed, known, e, low, correct_session_cost) at still))
    | inr high ↦
        simp (resumed, known, e, high, correct_session_cost)
          (sub-add cost.total baseline.usd, sub-nonneg cost.total baseline.usd high)
  ]
]

-- Measured against a baseline, a cost is known after the correction exactly if it was known and
-- either the session is not a resumed one or the baseline is known and not above the total.
pub correct_session_cost-known :
    (cost : SessionCost) (baseline : ReportedCost)
    → ((correct_session_cost cost (some baseline)).unknown ≡ false) ↔ (
        (cost.unknown ≡ false)
        × ((cost.includes_resumed ≡ false)
            ⊎ ((baseline.unknown ≡ false) × (baseline.usd ≤ℤ cost.total))))
unfolding correct_session_cost subtract_baseline
correct_session_cost-known cost baseline = ground arith

-- The reported total survives the correction, whatever the baseline.
correct_session_cost-reported :
    (cost : SessionCost) (baseline : Option ReportedCost)
    → ((correct_session_cost cost baseline).reported ≡ cost.total)
      × ((correct_session_cost cost baseline).reported_unknown ≡ cost.unknown)
unfolding correct_session_cost subtract_baseline
correct_session_cost-reported cost none = ground arith
correct_session_cost-reported cost (some b) = ground arith

-- What two nodes of one session are billed: the second against the first node's report.
abbrev pub AreBilled :
    (String → Option ReportedCost)
    → String
    → Option ReportedCost
    → SessionCost
    → SessionCost
    → Type 0
AreBilled costs parent grand first second =
    let costs' = remember_reported_cost costs parent (correct_session_cost first grand) in
    let billed = correct_session_cost second (session_baseline costs' true (parent ∷ [])) in
    (billed.unknown ≡ false) × (billed.total +ℤ first.total ≡ second.total)

-- If a parent and a child of one session both report a total and the totals do not fall, the child's
-- cost is known, and with the total that the parent reported it makes up the child's total.
pub remember_reported_cost-bills :
    (costs : String → Option ReportedCost) (parent : String) (grand : Option ReportedCost)
    (first second : SessionCost)
    → first.unknown ≡ false
    → second.unknown ≡ false
    → second.includes_resumed ≡ true
    → first.total ≤ℤ second.total
    → AreBilled costs parent grand first second
unfolding session_baseline
remember_reported_cost-bills costs parent grand first second known1 known2 resumed grows =
    let (usd, unknown) = correct_session_cost-reported first grand in
    let remembered : ReportedCost = record {
      usd = (correct_session_cost first grand).reported;
      unknown = (correct_session_cost first grand).reported_unknown;
    } in
    let still =
      (correct_session_cost-known second remembered).1
        (known2, inr (unknown ∙ known1, rw usd grows)) in
    let (adds, _) = correct_session_cost-adds second remembered resumed known2 still in
    let billed = correct_session_cost second (some remembered) in
    rw (eq_refl parent) (still, subst (λ r. billed.total +ℤ r ≡ second.total) usd adds)
