-- ===== src/Gateway/Types.antt =====
-- The objects and settings of packs/tool_gateway (object_types.py, settings.py), and the principals
-- that its approval check reads. Timestamps are texts that the host's clock supplies.
use activegraph_packs.Base.{ℕ, String, Bool, Option, List}

pub data RiskClass : Type 0 where
  low medium high critical : RiskClass

-- `unclassified` is the empty text of a capability that declares no class.
pub data ActionClass : Type 0 where
  unclassified r0 r1 r2 r3 r4 : ActionClass

-- The values of an authority ceiling; `nothing` is the text "none".
pub data Ceiling : Type 0 where
  nothing r0 r1 r2 : Ceiling

pub data CallStatus : Type 0 where
  proposed policy_checking approved rejected executing done failed : CallStatus

pub data PolicyStatus : Type 0 where
  candidate promoted demoted disabled : PolicyStatus

-- One prediction and the owner's actual verdict, with the log references of both.
pub record PredictionPair : Type 0 where
  pub prediction_ref : String
  pub decided_ref : String
  pub predicted_verdict : String
  pub actual_verdict : String

pub record Thresholds : Type 0 where
  pub rule_id : String
  pub rule_version : ℕ
  pub min_predictions : ℕ
  pub min_accuracy_percent : ℕ

pub record Evidence : Type 0 where
  pub prediction_count : ℕ
  pub accuracy_percent : ℕ
  pub pairs : List PredictionPair
  pub thresholds : Thresholds

pub record Promotion : Type 0 where
  pub event_id : String
  pub policy_version : ℕ
  pub approver : String
  pub prior_status : PolicyStatus
  pub new_status : PolicyStatus

-- Why a policy was demoted or disabled: a text of the caller, or one that the code formats.
pub data DemotionReason : Type 0 where
  given : String → DemotionReason
  accuracy_degraded accuracy_fell : ℕ → DemotionReason
  reliability_fell : String → String → DemotionReason

pub record ToolPolicy : Type 0 where
  pub policy_id : String
  pub policy_version : ℕ
  pub scope_key : String
  pub capability_key : String
  pub action_class : ActionClass
  pub status : PolicyStatus
  pub rule_id : String
  pub rule_version : ℕ
  pub evidence : Evidence
  pub proposed_by : String
  pub approved_by : String
  pub promotion_history : List Promotion
  pub demotion_reason : DemotionReason
  pub missed_prediction_refs : List String
  pub is_fixture : Bool

-- What the gateway records of the promoted policy that covers a call.
pub record StandingScope : Type 0 where
  pub policy_object_id : ℕ
  pub policy_id : String
  pub policy_version : ℕ
  pub scope_key : String
  pub prediction_count : ℕ
  pub accuracy_percent : ℕ
  pub approved_by : String

pub data AuthorityDecision : Type 0 where
  auto_approve require_approval governance_gate : AuthorityDecision

-- The reasoning of the action-class dimension.
pub record ActionRecord : Type 0 where
  pub capability : String
  pub action_class : ActionClass
  pub decision : AuthorityDecision
  pub matched_policy : String
  pub reason : String
  pub ceiling : Ceiling
  pub capability_ceiling : Option Ceiling
  pub effective_ceiling : Ceiling
  pub standing_scope : Option StandingScope
  pub audit_event_id : Option ℕ

-- The keys of a call's metadata that the gateway reads or writes.
pub record CallMetadata : Type 0 where
  pub requires_explicit_approval : Bool
  pub action_authority : Option ActionRecord
  pub granted_by : String

pub record Call : Type 0 where
  pub provider_id : Option ℕ
  pub provider_name : String
  pub capability_name : String
  pub input_data : String
  pub credential_ref_name : Option String
  pub credential_ref_id : Option String
  pub risk_class : RiskClass
  pub action_class : ActionClass
  pub status : CallStatus
  pub proposed_by : Option String
  pub frame_id : Option String
  pub proposed_at : Option String
  pub metadata : CallMetadata

pub data PolicyDecision : Type 0 where
  auto_approved manual : PolicyDecision

pub record ApprovalMetadata : Type 0 where
  pub risk_class : RiskClass
  pub granted_by : Option String
  pub action_authority : Option ActionRecord
  pub note : String
  pub verification : String
  pub approver_role : Option String

pub record Approval : Type 0 where
  pub call_id : ℕ
  pub provider_id : Option ℕ
  pub provider_name : String
  pub capability_name : String
  pub action_class : ActionClass
  pub input_data : String
  pub credential_ref_name : Option String
  pub credential_ref_id : Option String
  pub frame_id : Option String
  pub policy_decision : PolicyDecision
  pub approver : String
  pub approved_at : String
  pub metadata : ApprovalMetadata

pub record Denial : Type 0 where
  pub call_id : ℕ
  pub provider_name : String
  pub capability_name : String
  pub action_class : ActionClass
  pub denier : String
  pub reason : String
  pub denied_at : String
  pub frame_id : Option String
  pub risk_class : RiskClass
  pub verification : String
  pub denier_role : Option String

pub record CapabilityResult : Type 0 where
  pub call_id : ℕ
  pub provider_name : String
  pub capability_name : String
  pub output_data : List ℕ
  pub error : Option String
  pub success : Bool
  pub executed_at : String
  pub sanitized : Bool
  pub untrusted : Bool
  pub injection_flags : List String
  pub source_id : Option ℕ
  pub frame_id : Option String

pub record InjectionFlag : Type 0 where
  pub call_id : ℕ
  pub result_id : ℕ
  pub provider_name : String
  pub capability_name : String
  pub patterns : List String
  pub excerpt : List ℕ
  pub flagged_at : String
  pub frame_id : Option String

-- A Core source object, as `result_sourcer` fills it.
pub record Source : Type 0 where
  pub kind : String
  pub content : List ℕ
  pub channel : String
  pub sender_ref : String
  pub frame_id : Option String
  pub call_id : ℕ
  pub provider : String
  pub capability : String

-- A principal of packs/identity_auth: `identifiers.ref` and `role`.
pub record Principal : Type 0 where
  pub ref : Option String
  pub role : Option String

-- The audit of one credential resolution, of packs/secrets; it has no field for the value.
pub record SecretUsage : Type 0 where
  pub credential_ref_name : String
  pub behavior_name : String
  pub resolved : Bool
  pub frame_id : Option String
  pub timestamp : String
  pub source_label : String
  pub credential_ref_id : String

-- `other` is an object of another pack, with its `status` if that is one of a call's.
pub data Obj : Type 0 where
  call : Call → Obj
  approval : Approval → Obj
  denial : Denial → Obj
  result : CapabilityResult → Obj
  injection_flag : InjectionFlag → Obj
  tool_policy : ToolPolicy → Obj
  source : Source → Obj
  principal : Principal → Obj
  secret_usage : SecretUsage → Obj
  other : Option CallStatus → Obj

pub record Settings : Type 0 where
  pub auto_approve_risk_classes : List RiskClass
  pub capability_action_ceilings : List (String × Ceiling)
  pub record_output_data : Bool
  pub max_output_chars : ℕ
  pub create_source_from_result : Bool
  pub sanitize_output : Bool
  pub approver_roles : List String
  pub injection_scan : Bool
  pub envelope_llm_output : Bool
  pub inject_credentials : Bool

-- `call.data.get("status")`
abbrev pub status_of : Obj → Option CallStatus
status_of (call c) = Option.some c.status
status_of (other s) = s
status_of _ = Option.none

-- The same of an object that may be missing.
abbrev pub bind_status : Option Obj → Option CallStatus
bind_status Option.none = Option.none
bind_status (Option.some o) = status_of o

-- The patch `{"metadata": merged}` of a call.
abbrev pub with_metadata : CallMetadata → Obj → Obj
with_metadata md (call c) = call (record c { metadata = md })
with_metadata md o = o

-- The patch `{"source_id": id}` of a result.
abbrev pub with_source : ℕ → Obj → Obj
with_source k (result r) = result (record r { source_id = Option.some k })
with_source k o = o

-- The patch `{"status": st}`.
abbrev pub with_status : CallStatus → Obj → Obj
with_status st (call c) = call (record c { status = st })
with_status st (other s) = other (Option.some st)
with_status st o = o
