-- ===== src/Gateway/Policy/Scope.antt =====
-- The gateway's read path to standing scopes: standing_scopes.py (_objects, find_tool_policy,
-- promoted_standing_scope_for).
use activegraph_packs.Base.{
  ℕ, String, Bool, true, false, Option, none, some, List, [], ◌∷◌, append_text, find?, str_eq, ◌≡◌,
  refl, Exists, arith, eq_iff, inr,
}
use activegraph_packs.Gateway.Types.{
  ActionClass, PolicyStatus, StandingScope, ToolPolicy, Obj, tool_policy,
}

abbrev pub class_text : ActionClass → String
class_text ActionClass.unclassified = ""
class_text ActionClass.r0 = "R0"
class_text ActionClass.r1 = "R1"
class_text ActionClass.r2 = "R2"
class_text ActionClass.r3 = "R3"
class_text ActionClass.r4 = "R4"

abbrev pub is_promoted : PolicyStatus → Bool
is_promoted PolicyStatus.promoted = true
is_promoted _ = false

-- `f"{action_class}|{capability_key}"`
abbrev pub scope_key_of : ActionClass → String → String
scope_key_of action key = append_text (class_text action) (append_text "|" key)

-- `_objects(reader, "tool_policy")`
unfoldable pub tool_policies : List (ℕ × Obj) → List (ℕ × ToolPolicy)
tool_policies [] = []
tool_policies ((k, tool_policy p) ∷ m) = (k, p) ∷ tool_policies m
tool_policies ((k, _) ∷ m) = tool_policies m

unfoldable pub find_tool_policy : String → List (ℕ × Obj) → Option (ℕ × ToolPolicy)
unfolding tool_policies
find_tool_policy key m = find? (λ p. str_eq p.1.scope_key key) (tool_policies m)

-- The record of a policy that was found: none unless it is promoted.
unfoldable pub scope_of_policy : String → Option (ℕ × ToolPolicy) → Option StandingScope
scope_of_policy key none = none
scope_of_policy key (some (k, p)) = elim (is_promoted p.status) [
  | false ↦ none
  | true ↦ some (record {
    policy_object_id = k;
    policy_id = p.policy_id;
    policy_version = p.policy_version;
    scope_key = key;
    prediction_count = p.evidence.prediction_count;
    accuracy_percent = p.evidence.accuracy_percent;
    approved_by = p.approved_by;
  })
]

unfoldable pub promoted_standing_scope_for :
    List (ℕ × Obj) → String → ActionClass → Option StandingScope
unfolding find_tool_policy scope_of_policy
promoted_standing_scope_for m capability_key action =
    let key = scope_key_of action capability_key in scope_of_policy key (find_tool_policy key m)

-- The object is a promoted policy for the key.
abbrev pub IsPromotedFor : String → Obj → Type 0
IsPromotedFor key (tool_policy p) = (p.scope_key ≡ key) × (p.status ≡ PolicyStatus.promoted)
IsPromotedFor key _ = ⊥

-- A policy that is found stands in the graph under its key.
find_tool_policy-Exists :
    (key : String) (m : List (ℕ × Obj)) (k : ℕ) (p : ToolPolicy)
    → find_tool_policy key m ≡ some (k, p)
    → p.status ≡ PolicyStatus.promoted
    → Exists (λ e. IsPromotedFor key e.1) m
unfolding find_tool_policy
find_tool_policy-Exists key [] k q h e = ground arith
find_tool_policy-Exists key ((j, tool_policy p) ∷ m) k q h e =
    ground (arith, eq_iff p.scope_key key, find_tool_policy-Exists key m k q)
find_tool_policy-Exists key ((j, _) ∷ m) k q h e = inr (find_tool_policy-Exists key m k q h e)

scope_of_policy_inv :
    (key : String) (found : Option (ℕ × ToolPolicy)) {scope : StandingScope}
    → scope_of_policy key found ≡ some scope
    → (k : ℕ) × (p : ToolPolicy) × (found ≡ some (k, p)) × (p.status ≡ PolicyStatus.promoted)
unfolding scope_of_policy
scope_of_policy_inv key none h = ground arith
scope_of_policy_inv key (some (k, p)) h = (k, p, refl, ground arith)

pub promoted_standing_scope_for-Exists :
    (m : List (ℕ × Obj)) (capability_key : String) (action : ActionClass) {scope : StandingScope}
    → promoted_standing_scope_for m capability_key action ≡ some scope
    → Exists (λ e. IsPromotedFor (scope_key_of action capability_key) e.1) m
unfolding promoted_standing_scope_for
promoted_standing_scope_for-Exists m key action h =
    let full = scope_key_of action key in
    let (k, p, found, status) = scope_of_policy_inv full (find_tool_policy full m) h in
    find_tool_policy-Exists full m k p found status
