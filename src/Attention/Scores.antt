-- ===== src/Attention/Scores.antt =====
-- The scores of packs/attention/behaviors.py.
use activegraph_packs.Base.{ℕ, ◌+◌, ◌-◌, ◌*◌, ◌/◌, ◌≤◌, ◌≡◌, arith}
use native.Mathlib.Nat.{
  mul-div-le, le-div_iff_mul-le, div-le_of_le-mul, mul-le-mul_left, mul-le-mul_right, mul_comm,
  mul-add,
}
use activegraph_packs.Attention.{at_most_1000, beta_score, importance_score, trust_score}

beta_score-le : (s o : ℕ) → beta_score s o ≤ 1000
beta_score-le s o = div-le_of_le-mul (2000 + (s + o)) (omega arith)

at_most_1000-le : (n : ℕ) → at_most_1000 n ≤ 1000
at_most_1000-le n = ground arith

beta_score_mono : (s t o p : ℕ) → s ≤ t → p ≤ o → beta_score s o ≤ beta_score t p
beta_score_mono s t o p up down =
    let q = beta_score s o in
    let d = t - s in
    let b = 2000 + (s + o) in
    let low : q ≤ 1000 = beta_score-le s o in
    let old : b * q ≤ (1000 + s) * 1000 = mul-div-le ((1000 + s) * 1000) b in
    let wider : q * (2000 + (t + p)) ≤ q * (b + d) = mul-le-mul_left q (omega (arith, up, down)) in
    let split : q * (b + d) ≡ q * b + q * d = mul-add q b d in
    let grown : q * d ≤ 1000 * d = mul-le-mul_right d low in
    (le-div_iff_mul-le (omega arith)).1 (omega (arith, old, wider, split, grown, up, mul_comm q b))

-- The score and the confidence of importance and of trust are at most 1000, and more support and
-- less opposition never lower a score.
pub scores_monotone :
    (s t o p : ℕ)
    → s ≤ t
    → p ≤ o
    → ((importance_score s o).0 ≤ (importance_score t p).0)
      × ((trust_score s o).0 ≤ (trust_score t p).0)
      × ((importance_score t p).0 ≤ 1000)
      × ((importance_score t p).1 ≤ 1000)
      × ((trust_score t p).0 ≤ 1000)
      × ((trust_score t p).1 ≤ 1000)
unfolding importance_score trust_score
scores_monotone s t o p up down = (
  beta_score_mono s t o p up down,
  beta_score_mono s t o p up down,
  beta_score-le t p,
  at_most_1000-le ((t + p) * 1000 / 4000),
  beta_score-le t p,
  at_most_1000-le ((t + p) * 1000 / 3000),
)
