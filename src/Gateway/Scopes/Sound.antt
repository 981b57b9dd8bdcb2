-- ===== src/Gateway/Scopes/Sound.antt =====
-- The soundness of the tool policies under each operation of standing_scopes.py and the guard.
use activegraph_packs.Base.{
  ℕ, suc, String, false, Option, some, List, [], ◌∷◌, ◌≡◌, refl, arith, inl, inr, Option-cases,
}
use activegraph_packs.Graph.{Graph, EventLog}
use activegraph_packs.Gateway.Types.{PolicyStatus, DemotionReason, ToolPolicy, Obj, tool_policy}
use activegraph_packs.Gateway.Policy.Scope.{tool_policies, find_tool_policy}
use activegraph_packs.Gateway.Approval.{Identity, ApproverVerdict}
use activegraph_packs.Gateway.Scopes.{
  ScopeEvent, proposed, with_policy, is_blank, Proposal, proposed_event, key_of_proposal,
  policy_id_of, new_policy, reproposed, promoted_by, demoted_for, disabled_for,
}
use activegraph_packs.Gateway.Scopes.Operations.{
  promotion_event, demotion_event, disabling_event, or_reason, ReliabilityChanged, patch_policy,
  propose_version, propose_existing, propose_new, propose_checked, propose_standing_scope,
  promote_now, promote_tool_policy, demote_now, demote_tool_policy, disable_tool_policy,
  tool_policy_reliability_guard,
}
use activegraph_packs.Gateway.Scopes.Outcomes.{
  IsEarned, propose_standing_scope_cases, promote_tool_policy_cases, demote_tool_policy_cases,
  disable_tool_policy_cases, guard_cases,
}
use activegraph_packs.Gateway.Scopes.Policies.{
  IsSound, AllSound, tool_policies-update, tool_policies-append, AllSound-append, AllSound-update,
}

reproposed-IsSound :
    (q : Proposal) (version : ℕ) (p : ToolPolicy)
    → IsEarned q
    → IsSound p
    → IsSound (reproposed q version p)
reproposed-IsSound q version p e s = record {
  id = s.id;
  key = s.key;
  stands = s.stands;
  counted = refl;
  measured = refl;
  enough = e.enough;
  accurate = e.accurate;
  approved = λ h. ground arith;
}

new_policy-IsSound : (q : Proposal) → IsEarned q → IsSound (new_policy q)
new_policy-IsSound q e = record {
  id = refl;
  key = refl;
  stands = e.stands;
  counted = refl;
  measured = refl;
  enough = e.enough;
  accurate = e.accurate;
  approved = λ h. ground arith;
}

promoted_by-IsSound :
    (approver event_id : String) (read p : ToolPolicy)
    → is_blank approver ≡ false
    → IsSound p
    → IsSound (promoted_by approver event_id read p)
promoted_by-IsSound approver event_id read p named s = record {
  id = s.id;
  key = s.key;
  stands = s.stands;
  counted = s.counted;
  measured = s.measured;
  enough = s.enough;
  accurate = s.accurate;
  approved = λ h. named;
}

demoted_for-IsSound :
    (reason : DemotionReason) (misses : List String) (p : ToolPolicy)
    → IsSound p
    → IsSound (demoted_for reason misses p)
demoted_for-IsSound reason misses p s = record {
  id = s.id;
  key = s.key;
  stands = s.stands;
  counted = s.counted;
  measured = s.measured;
  enough = s.enough;
  accurate = s.accurate;
  approved = λ h. ground arith;
}

disabled_for-IsSound :
    (reason : String) (p : ToolPolicy) → IsSound p → IsSound (disabled_for reason p)
disabled_for-IsSound reason p s = record {
  id = s.id;
  key = s.key;
  stands = s.stands;
  counted = s.counted;
  measured = s.measured;
  enough = s.enough;
  accurate = s.accurate;
  approved = λ h. ground arith;
}

module _ {G : Type 0} (graph : Graph Obj G) (log : EventLog graph ScopeEvent) where
  abbrev pub policies : G → List (ℕ × ToolPolicy)
  policies g = tool_policies (graph.objects g)

  patched-AllSound :
      (k : ℕ) (f : ToolPolicy → ToolPolicy) (g : G)
      → ((p : ToolPolicy) → IsSound p → IsSound (f p))
      → AllSound (policies g)
      → AllSound (policies (patch_policy graph log k f g).1)
  unfolding patch_policy
  patched-AllSound k f g keeps h = elim (Option-cases (graph.patch_object g k (with_policy f))) [
    | inl n ↦ rw (n, patch_policy) h
    | inr (g1, n) ↦
        rw
          (
            n,
            patch_policy,
            graph.objects-patch_object g g1 k (with_policy f) n,
            tool_policies-update k f (graph.objects g),
          )
          (AllSound-update k f (policies g) keeps h)
  ]

  -- The patch after an event.
  patch_policy-AllSound :
      (k : ℕ) (f : ToolPolicy → ToolPolicy) (g : G) (e : ScopeEvent)
      → ((p : ToolPolicy) → IsSound p → IsSound (f p))
      → AllSound (policies g)
      → AllSound (policies (patch_policy graph log k f (log.emit g e).1).1)
  patch_policy-AllSound k f g e keeps h =
      patched-AllSound k f (log.emit g e).1 keeps (rw (log.objects-emit g e) h)

  propose_new-AllSound :
      (q : Proposal) (g : G)
      → IsEarned q
      → AllSound (policies g)
      → AllSound (policies (propose_new graph log q g).1)
  unfolding propose_new
  propose_new-AllSound q g e h =
      let event = proposed (proposed_event q (policy_id_of (key_of_proposal q)) 1) in
      let g1 = (log.emit g event).1 in
      let id = (graph.add_object g1 (tool_policy (new_policy q))).0 in
      rw
        (
          graph.objects-add_object g1 (tool_policy (new_policy q)),
          log.objects-emit g event,
          tool_policies-append (graph.objects g) id (new_policy q),
        )
        (AllSound-append (policies g) id (new_policy q) h (new_policy-IsSound q e))

  propose_version-AllSound :
      (q : Proposal) (k : ℕ) (p : ToolPolicy) (g : G)
      → IsEarned q
      → AllSound (policies g)
      → AllSound (policies (propose_version graph log q k p g).1)
  unfolding propose_version
  propose_version-AllSound q k p g e h =
      let version = suc p.policy_version in
      patch_policy-AllSound k (reproposed q version) g
        (proposed (proposed_event q p.policy_id version))
        (λ r s. reproposed-IsSound q version r e s) h

  propose_existing-AllSound :
      (q : Proposal) (k : ℕ) (p : ToolPolicy) (st : PolicyStatus) (g : G)
      → IsEarned q
      → AllSound (policies g)
      → AllSound (policies (propose_existing graph log q k p st g).1)
  unfolding propose_existing
  propose_existing-AllSound q k p PolicyStatus.candidate g e h = h
  propose_existing-AllSound q k p PolicyStatus.promoted g e h = h
  propose_existing-AllSound q k p PolicyStatus.demoted g e h = propose_version-AllSound q k p g e h
  propose_existing-AllSound q k p PolicyStatus.disabled g e h = propose_version-AllSound q k p g e h

  propose_checked-AllSound :
      (q : Proposal) (g : G)
      → IsEarned q
      → AllSound (policies g)
      → AllSound (policies (propose_checked graph log q g).1)
  unfolding propose_checked
  propose_checked-AllSound q g e h =
      elim (Option-cases (find_tool_policy (key_of_proposal q) (graph.objects g))) [
        | inl n ↦ rw (n, propose_checked) (propose_new-AllSound q g e h)
        | inr ((k, p), n) ↦ rw (n, propose_checked) (propose_existing-AllSound q k p p.status g e h)
      ]

  pub propose_standing_scope-AllSound :
      (q : Proposal) (g : G)
      → AllSound (policies g)
      → AllSound (policies (propose_standing_scope graph log q g).1)
  propose_standing_scope-AllSound q g h = elim (propose_standing_scope_cases graph log q g) [
    | inl (answer, same) ↦ rw same h
    | inr (e, valid, same) ↦ rw same (propose_checked-AllSound q g e h)
  ]

  promote_now-AllSound :
      (id approver note : String) (verdict : ApproverVerdict) (k : ℕ) (p : ToolPolicy) (g : G)
      → is_blank approver ≡ false
      → AllSound (policies g)
      → AllSound (policies (promote_now graph log id approver note verdict k p g).1)
  unfolding promote_now
  promote_now-AllSound id approver note verdict k p g named h =
      let event = promotion_event id approver note verdict p in
      patch_policy-AllSound k (promoted_by approver (log.emit g event).0 p) g event
        (λ q s. promoted_by-IsSound approver (log.emit g event).0 p q named s) h

  pub promote_tool_policy-AllSound :
      (identity : Identity) (roles : Option (List String)) (id approver note : String) (g : G)
      → AllSound (policies g)
      → AllSound (policies (promote_tool_policy graph log identity roles id approver note g).1)
  promote_tool_policy-AllSound identity roles id approver note g h =
      elim (promote_tool_policy_cases graph log identity roles id approver note g) [
        | inl same ↦ rw same h
        | inr promotable ↦ rw promotable.outcome (
            promote_now-AllSound id approver note promotable.verdict promotable.key
              promotable.policy g promotable.named h)
      ]

  pub demote_tool_policy-AllSound :
      (reader : Option (List (ℕ × Obj))) (id : String) (misses : List String) (observed : ℕ)
      (actor : String) (reason : DemotionReason) (g : G)
      → AllSound (policies g)
      → AllSound
          (policies (demote_tool_policy graph log reader id misses observed actor reason g).1)
  unfolding demote_now
  demote_tool_policy-AllSound reader id misses observed actor reason g h =
      elim (demote_tool_policy_cases graph log reader id misses observed actor reason g) [
        | inl same ↦ rw same h
        | inr (k, p, found, status, same) ↦ rw same (
            patch_policy-AllSound k
              (demoted_for (or_reason reason (DemotionReason.accuracy_degraded observed)) misses) g
              (demotion_event id misses observed actor reason p)
              (λ q s.
                demoted_for-IsSound (or_reason reason (DemotionReason.accuracy_degraded observed))
                  misses q s)
              h)
      ]

  pub disable_tool_policy-AllSound :
      (id actor reason : String) (g : G)
      → AllSound (policies g)
      → AllSound (policies (disable_tool_policy graph log id actor reason g).1)
  disable_tool_policy-AllSound id actor reason g h =
      elim (disable_tool_policy_cases graph log id actor reason g) [
        | inl same ↦ rw same h
        | inr (k, p, found, same) ↦ rw same (
            patch_policy-AllSound k (disabled_for reason) g (disabling_event id actor reason p)
              (λ q s. disabled_for-IsSound reason q s) h)
      ]

  pub tool_policy_reliability_guard-AllSound :
      (view : List (ℕ × Obj)) (e : ReliabilityChanged) (g : G)
      → AllSound (policies g)
      → AllSound (policies (tool_policy_reliability_guard graph log view e g).1)
  tool_policy_reliability_guard-AllSound view e g h = elim (guard_cases graph log view e g) [
    | inl same ↦ rw same h
    | inr (p, status, same) ↦ rw same (
        demote_tool_policy-AllSound (some view) p.policy_id (e.event_id ∷ [])
          p.evidence.accuracy_percent "tool_policy_reliability_guard"
          (DemotionReason.reliability_fell e.verdict e.latest_outcome_event_id) g h)
  ]
