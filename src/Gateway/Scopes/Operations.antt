-- ===== src/Gateway/Scopes/Operations.antt =====
-- The operations on standing-scope policies: standing_scopes.py (propose_standing_scope_fn,
-- promote_tool_policy_fn, demote_tool_policy_fn, disable_tool_policy_fn) and
-- tool_policy_reliability_guard of behaviors.py. Each answers beside the state that it leaves.
use activegraph_packs.Base.{
  ℕ, suc, String, Bool, true, false, ◌&&◌, ◌||◌, Option, none, some, List, [], ◌∷◌, length, leb,
  str_eq, get_or, is_empty, if◌then◌else◌,
}
use activegraph_packs.Graph.{Graph, EventLog}
use activegraph_packs.Gateway.Types.{PolicyStatus, DemotionReason, ToolPolicy, Obj, tool_policy}
use activegraph_packs.Gateway.Policy.Scope.{find_tool_policy, is_promoted}
use activegraph_packs.Gateway.Approval.{Identity, ApproverVerdict, verify_approver, default_roles}
use activegraph_packs.Gateway.Scopes.Accuracy.{
  can_stand, accuracy_percent, validate_pairs, min_predictions, min_accuracy_percent,
  demote_below_accuracy_percent,
}
use activegraph_packs.Gateway.Scopes.{
  ScopeEvent, proposed, promoted, demoted, disabled, never_standing, too_few_predictions, bad_pair,
  low_accuracy, empty_approver, unknown_policy, needs_fresh_proposal, approver_refused,
  stale_evidence, unnamed_misses, graph_error, Tried, returned, raised, with_policy, is_blank,
  find_policy_id, Proposal, proposed_event, key_of_proposal, policy_id_of, new_policy, reproposed,
  promoted_by, demoted_for, disabled_for,
}

-- The stored evidence meets the thresholds.
unfoldable pub evidence_holds : ToolPolicy → Bool
evidence_holds p =
    leb min_predictions p.evidence.prediction_count
    && leb min_accuracy_percent p.evidence.accuracy_percent

-- `reason or default`
abbrev pub or_reason : DemotionReason → DemotionReason → DemotionReason
or_reason (DemotionReason.given s) default = if str_eq s "" then default else DemotionReason.given s
or_reason r default = r

abbrev pub promotion_event : String → String → String → ApproverVerdict → ToolPolicy → ScopeEvent
promotion_event id approver note verdict p = promoted (record {
  policy_id = id;
  policy_version = p.policy_version;
  scope_key = p.scope_key;
  capability_key = p.capability_key;
  action_class = p.action_class;
  prediction_count = p.evidence.prediction_count;
  accuracy_percent = p.evidence.accuracy_percent;
  approver = approver;
  approver_verification = verdict.verification;
  note = note;
  rule_id = p.rule_id;
  rule_version = p.rule_version;
  is_fixture = p.is_fixture;
})

abbrev pub demotion_event :
    String → List String → ℕ → String → DemotionReason → ToolPolicy → ScopeEvent
demotion_event id misses observed actor reason p = demoted (record {
  policy_id = id;
  policy_version = p.policy_version;
  scope_key = p.scope_key;
  capability_key = p.capability_key;
  action_class = p.action_class;
  missed_prediction_refs = misses;
  observed_accuracy_percent = observed;
  demote_below_accuracy_percent = demote_below_accuracy_percent;
  actor = actor;
  reason = or_reason reason (DemotionReason.accuracy_fell observed);
  is_fixture = p.is_fixture;
})

abbrev pub disabling_event : String → String → String → ToolPolicy → ScopeEvent
disabling_event id actor reason p = disabled (record {
  policy_id = id;
  policy_version = p.policy_version;
  scope_key = p.scope_key;
  actor = actor;
  reason = reason;
  is_fixture = p.is_fixture;
})

-- The payload of reliability.changed; `object_id` is the object whose id is `artifact_id`.
pub record ReliabilityChanged : Type 0 where
  pub event_id : String
  pub artifact_type : String
  pub artifact_id : String
  pub object_id : Option ℕ
  pub verdict : String
  pub latest_outcome_event_id : String

-- The policy that the guard looks at: the object with the id, or else the first in the view with
-- that policy id.
unfoldable pub guarded_policy : ReliabilityChanged → Option Obj → List (ℕ × Obj) → Option ToolPolicy
guarded_policy e (some (tool_policy p)) view = some p
guarded_policy e _ view = elim (find_policy_id e.artifact_id view) [
  | none ↦ none
  | some (k, p) ↦ some p
]

module _ {G : Type 0} (graph : Graph Obj G) (log : EventLog graph ScopeEvent) where
  -- A patch that is not in a `try`.
  unfoldable pub patch_policy : ℕ → (ToolPolicy → ToolPolicy) → G → Tried × G
  patch_policy k f g = elim (graph.patch_object g k (with_policy f)) [
    | none ↦ (raised graph_error, g)
    | some g1 ↦ (returned true (some k), g1)
  ]

  -- A scope that was demoted or disabled: the next version of its policy.
  unfoldable pub propose_version : Proposal → ℕ → ToolPolicy → G → Tried × G
  propose_version q k p g =
      let version = suc p.policy_version in
      patch_policy k (reproposed q version)
        (log.emit g (proposed (proposed_event q p.policy_id version))).1

  unfoldable pub propose_existing : Proposal → ℕ → ToolPolicy → PolicyStatus → G → Tried × G
  propose_existing q k p PolicyStatus.candidate g = (returned false (some k), g)
  propose_existing q k p PolicyStatus.promoted g = (returned false (some k), g)
  propose_existing q k p _ g = propose_version q k p g

  unfoldable pub propose_new : Proposal → G → Tried × G
  propose_new q g =
      let g1 = (log.emit g (proposed (proposed_event q (policy_id_of (key_of_proposal q)) 1))).1 in
      let (id, g2) = graph.add_object g1 (tool_policy (new_policy q)) in
      (returned true (some id), g2)

  unfoldable pub propose_checked : Proposal → G → Tried × G
  propose_checked q g = elim (find_tool_policy (key_of_proposal q) (graph.objects g)) [
    | none ↦ propose_new q g
    | some (k, p) ↦ propose_existing q k p p.status g
  ]

  -- propose_standing_scope_fn
  unfoldable pub propose_standing_scope : Proposal → G → Tried × G
  propose_standing_scope q g =
      if can_stand q.action_class
      then if leb min_predictions (length q.prediction_pairs)
        then elim (validate_pairs (log.events g) q.prediction_pairs) [
          | some e ↦ (raised (bad_pair e), g)
          | none ↦
              if leb min_accuracy_percent (accuracy_percent q.prediction_pairs)
              then propose_checked q g
              else (raised (low_accuracy (accuracy_percent q.prediction_pairs)), g)
        ]
        else (raised (too_few_predictions (length q.prediction_pairs)), g)
      else (raised (never_standing q.action_class), g)

  -- The event and the patch of a promotion.
  unfoldable pub promote_now :
      String → String → String → ApproverVerdict → ℕ → ToolPolicy → G → Tried × G
  promote_now policy_id approver note verdict k p g =
      let (event_id, g1) = log.emit g (promotion_event policy_id approver note verdict p) in
      patch_policy k (promoted_by approver event_id p) g1

  unfoldable pub promote_verified :
      String → String → String → ApproverVerdict → ℕ → ToolPolicy → G → Tried × G
  promote_verified policy_id approver note verdict k p g =
      if verdict.allowed
      then if evidence_holds p
        then promote_now policy_id approver note verdict k p g
        else (raised stale_evidence, g)
      else (raised (approver_refused verdict.reason), g)

  unfoldable pub promote_found :
      String → String → String → ApproverVerdict → ℕ → ToolPolicy → PolicyStatus → G → Tried × G
  promote_found policy_id approver note verdict k p PolicyStatus.promoted g =
      (returned false (some k), g)
  promote_found policy_id approver note verdict k p PolicyStatus.disabled g =
      (raised needs_fresh_proposal, g)
  promote_found policy_id approver note verdict k p _ g =
      promote_verified policy_id approver note verdict k p g

  -- promote_tool_policy_fn
  unfoldable pub promote_tool_policy :
      Identity → Option (List String) → String → String → String → G → Tried × G
  promote_tool_policy identity roles policy_id approver note g =
      if is_blank approver
      then (raised empty_approver, g)
      else elim (find_policy_id policy_id (graph.objects g)) [
        | none ↦ (raised (unknown_policy policy_id), g)
        | some (k, p) ↦
            promote_found policy_id approver note
              (verify_approver identity (graph.objects g) approver (get_or default_roles roles)) k p
              p.status g
      ]

  -- The event and the patch of a demotion.
  unfoldable pub demote_now :
      String → List String → ℕ → String → DemotionReason → ℕ → ToolPolicy → G → Tried × G
  demote_now policy_id misses observed actor reason k p g =
      let g1 = (log.emit g (demotion_event policy_id misses observed actor reason p)).1 in
      patch_policy k
        (demoted_for (or_reason reason (DemotionReason.accuracy_degraded observed)) misses) g1

  unfoldable pub demote_found :
      String → List String → ℕ → String → DemotionReason → ℕ → ToolPolicy → G → Tried × G
  demote_found policy_id misses observed actor reason k p g =
      if is_promoted p.status
      then if is_empty misses
        then (raised unnamed_misses, g)
        else demote_now policy_id misses observed actor reason k p g
      else (returned false none, g)

  -- demote_tool_policy_fn; `reader` is the view that the policy is looked up in, if one is passed.
  unfoldable pub demote_tool_policy :
      Option (List (ℕ × Obj)) → String → List String → ℕ → String → DemotionReason → G → Tried × G
  demote_tool_policy reader policy_id misses observed actor reason g =
      elim (find_policy_id policy_id (get_or (graph.objects g) reader)) [
        | none ↦ (raised (unknown_policy policy_id), g)
        | some (k, p) ↦ demote_found policy_id misses observed actor reason k p g
      ]

  unfoldable pub disable_found :
      String → String → String → ℕ → ToolPolicy → PolicyStatus → G → Tried × G
  disable_found policy_id actor reason k p PolicyStatus.disabled g = (returned false (some k), g)
  disable_found policy_id actor reason k p _ g =
      let g1 = (log.emit g (disabling_event policy_id actor reason p)).1 in
      patch_policy k (disabled_for reason) g1

  -- disable_tool_policy_fn
  unfoldable pub disable_tool_policy : String → String → String → G → Tried × G
  disable_tool_policy policy_id actor reason g = elim (find_policy_id policy_id (graph.objects g)) [
    | none ↦ (raised (unknown_policy policy_id), g)
    | some (k, p) ↦ disable_found policy_id actor reason k p p.status g
  ]

  unfoldable pub guard_found :
      List (ℕ × Obj) → ReliabilityChanged → Option ToolPolicy → G → Tried × G
  guard_found view e none g = (returned false none, g)
  guard_found view e (some p) g =
      if is_promoted p.status
      then demote_tool_policy (some view) p.policy_id (e.event_id ∷ []) p.evidence.accuracy_percent
          "tool_policy_reliability_guard"
          (DemotionReason.reliability_fell e.verdict e.latest_outcome_event_id) g
      else (returned false none, g)

  -- tool_policy_reliability_guard
  unfoldable pub tool_policy_reliability_guard : List (ℕ × Obj) → ReliabilityChanged → G → Tried × G
  tool_policy_reliability_guard view e g =
      if str_eq e.artifact_type "tool_policy"
        && (str_eq e.verdict "harmful" || str_eq e.verdict "stale")
      then guard_found view e
          (guarded_policy e (elim e.object_id [ none ↦ none | some k ↦ graph.get_object g k ]) view)
          g
      else (returned false none, g)
