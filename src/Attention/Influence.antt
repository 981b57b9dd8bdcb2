-- ===== src/Attention/Influence.antt =====
-- What one observation adds to a vector: importance_vector_projector of packs/attention/behaviors.py.
use activegraph_packs.Base.{String, ℕ, ◌+◌, ◌≤◌, true, ◌&&◌, not, ◌≡◌, ◌⊎◌, refl, arith, inl, inr}
use activegraph_packs.Attention.{
  llm_judgment, AttentionObservation, Weight, plus, minus, importance_weight,
}
use activegraph_packs.Attention.Projectors.{
  is_explicit, contribution_of, Evidence, add_evidence, observed,
}

add_evidence-sums :
    (id f : String) (w : Weight) (c : ℕ) (e : Evidence)
    → (e.support ≤ (add_evidence id f w c e).support)
      × (e.oppose ≤ (add_evidence id f w c e).oppose)
      × ((add_evidence id f w c e).support + (add_evidence id f w c e).oppose
          ≡ e.support + e.oppose + c)
unfolding add_evidence
add_evidence-sums id f (plus n) c e = (omega arith, omega arith, omega arith)
add_evidence-sums id f (minus n) c e = (omega arith, omega arith, omega arith)

no_contribution :
    (o : AttentionObservation)
    → (o.signal_type ≡ llm_judgment) ⊎ ((is_explicit o.signal_type && not o.explicit) ≡ true)
    → (contribution_of o).1 ≡ 0
unfolding contribution_of importance_weight
no_contribution o (inl h) = rw h (omega arith)
no_contribution o (inr h) = rw h refl

-- A model's judgment, and an explicit signal that is not marked as the owner's explicit act, leave
-- both sums of the vector as they were.
pub assertion_ignored :
    (o : AttentionObservation) (e : Evidence)
    → (o.signal_type ≡ llm_judgment) ⊎ ((is_explicit o.signal_type && not o.explicit) ≡ true)
    → ((observed o e).support ≡ e.support) × ((observed o e).oppose ≡ e.oppose)
unfolding observed
assertion_ignored o e h =
    let (f, c) = contribution_of o in
    let w = (importance_weight o.signal_type).1 in
    let (up, down, sum) = add_evidence-sums o.observation_id f w c e in
    let zero_c = no_contribution o h in
    (omega (arith, up, down, sum, zero_c), omega (arith, up, down, sum, zero_c))
