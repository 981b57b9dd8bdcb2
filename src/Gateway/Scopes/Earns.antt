-- ===== src/Gateway/Scopes/Earns.antt =====
-- Proposals that change the graph, and promotions whose guards hold.
use activegraph_packs.Base.{
  ℕ, String, true, false, Option, some, List, ◌≡◌, refl, sym, ap, arith, ◌∙◌, ◌⊎◌, inl, inr, All,
  get_or,
}
use activegraph_packs.Graph.{Graph, EventLog}
use activegraph_packs.Gateway.Types.{PolicyStatus, StandingScope, ToolPolicy, Obj}
use activegraph_packs.Gateway.Policy.Scope.{
  find_tool_policy, scope_key_of, promoted_standing_scope_for, scope_of_policy,
}
use activegraph_packs.Gateway.Approval.{Identity, verify_approver, default_roles}
use activegraph_packs.Gateway.Scopes.Accuracy.{IsForesight, validate_pairs-IsForesight}
use activegraph_packs.Gateway.Scopes.{
  ScopeEvent, returned, is_blank, find_policy_id, Proposal, promoted_by,
}
use activegraph_packs.Gateway.Scopes.Operations.{
  promotion_event, evidence_holds, propose_standing_scope, promote_now, promote_verified,
  promote_found, promote_tool_policy,
}
use activegraph_packs.Gateway.Scopes.Outcomes.{IsEarned, changed, propose_standing_scope_cases}
use activegraph_packs.Gateway.Scopes.Policies.{IsSound, AllSound}
use activegraph_packs.Gateway.Scopes.Sound.{policies}
use activegraph_packs.Gateway.Scopes.Patched.{patch_policy-found, found-IsSound}

IsSound-evidence_holds : (p : ToolPolicy) → IsSound p → evidence_holds p ≡ true
unfolding evidence_holds
IsSound-evidence_holds p s = ground (arith, s.counted, s.measured, s.enough, s.accurate)

-- The gateway reads the promotion.
pub record ReadsPromotion (p : ToolPolicy) (approver : String) (m : List (ℕ × Obj)) : Type 0 where
  pub scope : StandingScope
  pub found : promoted_standing_scope_for m p.capability_key p.action_class ≡ some scope
  pub by_approver : scope.approved_by ≡ approver
  pub at_version : scope.policy_version ≡ p.policy_version

found-ReadsPromotion :
    (m : List (ℕ × Obj)) (approver event_id : String) (k : ℕ) (p : ToolPolicy)
    → p.scope_key ≡ scope_key_of p.action_class p.capability_key
    → find_tool_policy p.scope_key m ≡ some (k, promoted_by approver event_id p p)
    → ReadsPromotion p approver m
unfolding promoted_standing_scope_for scope_of_policy
found-ReadsPromotion m approver event_id k p key found =
    let full = scope_key_of p.action_class p.capability_key in
    let there : find_tool_policy full m ≡ some (k, promoted_by approver event_id p p) =
      ap (λ x. find_tool_policy x m) (sym key) ∙ found in
    record {
      scope = record {
        policy_object_id = k;
        policy_id = p.policy_id;
        policy_version = p.policy_version;
        scope_key = full;
        prediction_count = p.evidence.prediction_count;
        accuracy_percent = p.evidence.accuracy_percent;
        approved_by = approver;
      };
      found = ap (scope_of_policy full) there;
      by_approver = refl;
      at_version = refl;
    }

module _ {G : Type 0} (graph : Graph Obj G) (log : EventLog graph ScopeEvent) where
  -- A proposal that changes anything is of a class that may stand, lists at least eight prediction
  -- pairs with the required accuracy, and the prediction of each stands in the log before its
  -- decision. Pairs are counted as they are listed: the same one may stand several times.
  pub propose_standing_scope-IsEarned :
      (q : Proposal) (g : G)
      → changed (propose_standing_scope graph log q g).0 ≡ true
      → IsEarned q × All (IsForesight (log.events g)) q.prediction_pairs
  propose_standing_scope-IsEarned q g h = elim (propose_standing_scope_cases graph log q g) [
    | inl (answer, same) ↦ ground arith
    | inr (earned, valid, same) ↦
        (earned, validate_pairs-IsForesight (log.events g) q.prediction_pairs valid)
  ]

  promote_found-eq :
      (identity : Identity) (roles : Option (List String)) (id approver note : String) (g : G)
      (k : ℕ) (p : ToolPolicy) (st : PolicyStatus)
      → (st ≡ PolicyStatus.candidate) ⊎ (st ≡ PolicyStatus.demoted)
      → (verify_approver identity (graph.objects g) approver (get_or default_roles roles)).allowed
        ≡ true
      → evidence_holds p ≡ true
      → promote_found graph log id approver note
          (verify_approver identity (graph.objects g) approver (get_or default_roles roles))
          k
          p
          st
          g
        ≡ promote_now graph log id approver note
            (verify_approver identity (graph.objects g) approver (get_or default_roles roles))
            k
            p
            g
  unfolding promote_found promote_verified
  promote_found-eq identity roles id approver note g k p PolicyStatus.candidate o allowed holds =
      rw (promote_found, promote_verified, allowed, holds) refl
  promote_found-eq identity roles id approver note g k p PolicyStatus.demoted o allowed holds =
      rw (promote_found, promote_verified, allowed, holds) refl
  promote_found-eq identity roles id approver note g k p PolicyStatus.promoted o allowed holds =
      ground arith
  promote_found-eq identity roles id approver note g k p PolicyStatus.disabled o allowed holds =
      ground arith

  promote_tool_policy-eq :
      (identity : Identity) (roles : Option (List String)) (id approver note : String) (g : G)
      (k : ℕ) (p : ToolPolicy)
      → is_blank approver ≡ false
      → find_policy_id id (graph.objects g) ≡ some (k, p)
      → (p.status ≡ PolicyStatus.candidate) ⊎ (p.status ≡ PolicyStatus.demoted)
      → (verify_approver identity (graph.objects g) approver (get_or default_roles roles)).allowed
        ≡ true
      → evidence_holds p ≡ true
      → promote_tool_policy graph log identity roles id approver note g
        ≡ promote_now graph log id approver note
            (verify_approver identity (graph.objects g) approver (get_or default_roles roles))
            k
            p
            g
  unfolding promote_tool_policy
  promote_tool_policy-eq identity roles id approver note g k p named found promotable allowed
        holds =
      rw (named, found, promote_tool_policy)
        (promote_found-eq identity roles id approver note g k p p.status promotable allowed holds)

  -- In a sound graph, a named approver whom the verification allows promotes any candidate: the check
  -- of the stored evidence passes, and the gateway's next lookup for its capability and class finds
  -- the scope, with the approver and the version of the policy. A demoted policy is promoted in the
  -- same way, on the evidence that is stored already: the fresh proposal that the docstring of
  -- tool_policy_reliability_guard speaks of is not asked for.
  pub promote_tool_policy_succeeds :
      (identity : Identity) (roles : Option (List String)) (id approver note : String) (g : G)
      (k : ℕ) (p : ToolPolicy)
      → AllSound (policies graph log g)
      → is_blank approver ≡ false
      → find_policy_id id (graph.objects g) ≡ some (k, p)
      → (p.status ≡ PolicyStatus.candidate) ⊎ (p.status ≡ PolicyStatus.demoted)
      → (verify_approver identity (graph.objects g) approver (get_or default_roles roles)).allowed
        ≡ true
      → ((promote_tool_policy graph log identity roles id approver note g).0
          ≡ returned true (some k))
        × ReadsPromotion p approver
            (graph.objects (promote_tool_policy graph log identity roles id approver note g).1)
  unfolding promote_now
  promote_tool_policy_succeeds identity roles id approver note g k p sound named found promotable
        allowed =
      let s = found-IsSound graph log id k p g sound found in
      let v = verify_approver identity (graph.objects g) approver (get_or default_roles roles) in
      let event = promotion_event id approver note v p in
      let event_id = (log.emit g event).0 in
      let (answer, there) =
        patch_policy-found graph log id k p (promoted_by approver event_id p) g event sound found
          (λ q. refl) in
      rw
        (promote_tool_policy-eq identity roles id approver note g k p named found promotable allowed
          (IsSound-evidence_holds p s))
        (
          answer,
          found-ReadsPromotion (graph.objects (promote_now graph log id approver note v k p g).1)
              approver event_id k p s.key there,
        )
