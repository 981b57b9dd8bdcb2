-- ===== src/Gateway/Examples/Policies.antt =====
-- Policy decisions at concrete inputs.
use activegraph_packs.Base.{
  ℕ, Bool, true, false, none, some, List, [], ◌∷◌, ◌≡◌, ◌≢◌, ◌↔◌, ◌⊎◌, refl, Exists,
}
use activegraph_packs.Gateway.Types.{
  RiskClass, ActionClass, Ceiling, PolicyStatus, DemotionReason, ToolPolicy, Obj, tool_policy,
  auto_approve,
}
use activegraph_packs.Gateway.Policy.Authority.{Audited, within, within_option}
use activegraph_packs.Gateway.Policy.Scope.{
  scope_key_of, IsPromotedFor, promoted_standing_scope_for, scope_of_policy, find_tool_policy,
  tool_policies,
}
use activegraph_packs.Gateway.Policy.{
  approve, CallQuery, evaluate_call_policy, decide_policy_detail, decide_policy, legacy_grants,
  combine, require_scope, action_record, scope_for, audit_call, audit_ceiling, stricter_ceiling,
  granted_names,
}
use activegraph_packs.Gateway.Policy.Grants.{
  action_grants, decide_policy_detail_grants, evaluate_call_policy_r2,
}
use activegraph_packs.Gateway.Policy.Audit.{audit_call-agrees, within-stricter_ceiling}
use activegraph_packs.Gateway.Examples.{rule, raised_runtime, settings}

abbrev promoted_policy : ToolPolicy
promoted_policy = record {
  policy_id = "tool_policy_R2|crm.lookup";
  policy_version = 1;
  scope_key = "R2|crm.lookup";
  capability_key = "crm.lookup";
  action_class = ActionClass.r2;
  status = PolicyStatus.promoted;
  rule_id = "";
  rule_version = 1;
  evidence = record {
    prediction_count = 8;
    accuracy_percent = 100;
    pairs = [];
    thresholds = record {
      rule_id = "";
      rule_version = 1;
      min_predictions = 8;
      min_accuracy_percent = 90;
    };
  };
  proposed_by = "";
  approved_by = "yohei";
  promotion_history = [];
  demotion_reason = DemotionReason.given "";
  missed_prediction_refs = [];
  is_fixture = false;
}

abbrev scoped_graph : List (ℕ × Obj)
scoped_graph = (5, tool_policy promoted_policy) ∷ []

abbrev query : Bool → CallQuery
query explicit = record {
  capability_key = "crm.lookup";
  risk_class = RiskClass.high;
  action_class = ActionClass.r2;
  reader = some scoped_graph;
  caused_by = none;
  actor = "policy_enforcer";
  requires_explicit_approval = explicit;
}

program : Unit {0}
unfolding evaluate_call_policy decide_policy_detail decide_policy legacy_grants combine
    require_scope action_record scope_for audit_call audit_ceiling stricter_ceiling granted_names
    promoted_standing_scope_for scope_of_policy find_tool_policy tool_policies
program = tt

-- A promoted scope under a raised ceiling runs an R2 call unattended.
scoped_call_approved :
    (evaluate_call_policy rule (some raised_runtime) settings (query false)).decision ≡ approve
unfolding program
scoped_call_approved = refl

high_risk_not_legacy : legacy_grants RiskClass.high settings ≡ false
unfolding program
high_risk_not_legacy = refl

evaluate_call_policy_r2_example :
    ((m : List (ℕ × Obj)) × (some scoped_graph ≡ some m)
      × Exists (λ e. IsPromotedFor (scope_key_of ActionClass.r2 "crm.lookup") e.1) m)
    × (within ActionClass.r2 Ceiling.r2 ≡ true)
    × (within_option ActionClass.r2 none ≡ true)
    × (◌≡◌ {A = Bool} false false)
evaluate_call_policy_r2_example =
    evaluate_call_policy_r2 rule (some raised_runtime) settings (query false) refl
      high_risk_not_legacy scoped_call_approved

decide_policy_detail_grants_example :
    ((decide_policy_detail rule RiskClass.high settings ActionClass.r3 Ceiling.r2 none
          none).decision
        ≡ approve
      ↔ ((legacy_grants RiskClass.high settings ≡ true)
          ⊎ (action_grants ActionClass.r3 Ceiling.r2 none none ≡ true)))
    × ((decide_policy_detail rule RiskClass.high settings ActionClass.r3 Ceiling.r2 none
          none).granted_by
        ≡ granted_names
            (legacy_grants RiskClass.high settings)
            (action_grants ActionClass.r3 Ceiling.r2 none none))
decide_policy_detail_grants_example =
    decide_policy_detail_grants rule RiskClass.high settings ActionClass.r3 Ceiling.r2 none none

abbrev audited : Audited
audited = record {
  verdict = rule.evaluate "crm.lookup" ActionClass.r2 Ceiling.r2 none;
  event_id = 7;
}

audited_call : audit_call rule (some raised_runtime) settings (query false) ≡ some audited
unfolding program
audited_call = refl

audit_call-agrees_example :
    (◌≡◌ {A = Bool} false false
      → auto_approve
        ≡ (evaluate_call_policy rule
            (some raised_runtime)
            settings
            (query false)).action_authority.decision)
    × (◌≡◌ {A = Bool} false true
        → (auto_approve ≢ auto_approve)
          × ((evaluate_call_policy rule
                (some raised_runtime)
                settings
                (query false)).action_authority.decision
              ≢ auto_approve))
audit_call-agrees_example =
    audit_call-agrees rule raised_runtime settings (query false) audited audited_call

within-stricter_ceiling_example :
    (within_option ActionClass.r1 (stricter_ceiling (some Ceiling.r2) (some Ceiling.r0)) ≡ true) ↔ (
      (within_option ActionClass.r1 (some Ceiling.r2) ≡ true)
      × (within_option ActionClass.r1 (some Ceiling.r0) ≡ true))
within-stricter_ceiling_example =
    within-stricter_ceiling ActionClass.r1 (some Ceiling.r2) (some Ceiling.r0)
