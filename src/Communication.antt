-- ===== src/Communication.antt =====
-- The reply gate of the channel adapters: packs/communication/gating.py (decide_reply), and the
-- lookup that it uses, resolve_known_principal of packs/identity_auth/behaviors.py. The registry that
-- identity_auth keeps in the process is an argument, and so is how an identifier is normalized.
pub mod Gate
mod Examples
use activegraph_packs.Base.{
  ℕ, String, Bool, true, false, Option, none, some, List, [], ◌∷◌, any, get_or, get_text, str_eq,
  if◌then◌else◌,
}
use activegraph_packs.Graph.{Graph}
use activegraph_packs.Gateway.Types.{Principal, Obj, principal}

-- `_PRINCIPAL_REGISTRY`, and `_normalize_identifier`.
pub record Registry : Type 0 where
  pub normalize : String → String
  pub ids : List (String × ℕ)

-- The principal's data; an object of another type has no role.
abbrev pub principal_of : Option Obj → Option Principal
principal_of (some (principal p)) = some p
principal_of (some _) = some (record { ref = none; role = none })
principal_of none = none

abbrev pub reply_policies : List String
reply_policies = "open" ∷ "known" ∷ "owner_only" ∷ []

-- `_ALLOWED_ROLES[reply_policy]` of a policy other than "open".
abbrev pub allowed_roles : String → List String
allowed_roles policy =
    if str_eq policy "known"
    then "owner" ∷ "admin" ∷ "collaborator" ∷ []
    else "owner" ∷ "admin" ∷ []

pub data GateReason : Type 0 where
  unknown_policy : String → GateReason
  blocked policy_open : GateReason
  role_allowed : String → String → GateReason
  unrecognized : String → GateReason
  role_not_allowed : Option String → String → GateReason

pub record GateVerdict : Type 0 where
  pub is_open : Bool
  pub role : Option String
  pub reason : GateReason

abbrev pub role_is : String → Option String → Bool
role_is name none = false
role_is name (some role) = str_eq role name

-- `role in allowed`
abbrev pub role_in : List String → Option String → Bool
role_in roles none = false
role_in roles (some role) = any (λ r. str_eq r role) roles

abbrev pub role_of : Option Principal → Option String
role_of none = none
role_of (some p) = p.role

-- The deflection of a sender whose role is not allowed.
abbrev pub deflected : String → Option Principal → GateVerdict
deflected policy none = record { is_open = false; role = none; reason = unrecognized policy }
deflected policy (some p) = record {
  is_open = false;
  role = p.role;
  reason = role_not_allowed p.role policy;
}

-- The decision on a principal that was looked up.
unfoldable pub decide_role : String → Option Principal → GateVerdict
decide_role policy found =
    let role = role_of found in
    if role_is "blocked" role
    then record { is_open = false; role = role; reason = blocked }
    else if str_eq policy "open"
    then record { is_open = true; role = role; reason = policy_open }
    else if role_in (allowed_roles policy) role
    then record { is_open = true; role = role; reason = role_allowed (get_or "" role) policy }
    else deflected policy found

module _ {G : Type 0} (graph : Graph Obj G) where
  -- resolve_known_principal
  unfoldable pub resolve_known_principal : Registry → G → String → Option Principal
  resolve_known_principal registry g sender =
      elim (get_text (registry.normalize sender) registry.ids) [
        | none ↦ none
        | some id ↦ principal_of (graph.get_object g id)
      ]

  -- The lookup of the gate: none where identity_auth is not installed.
  unfoldable pub lookup_sender : Option Registry → G → Option String → Option Principal
  lookup_sender none g sender = none
  lookup_sender (some registry) g sender = resolve_known_principal registry g (get_or "" sender)

  -- decide_reply
  unfoldable pub decide_reply : Option Registry → G → Option String → String → GateVerdict
  decide_reply registry g sender policy =
      if any (λ p. str_eq p policy) reply_policies
      then decide_role policy (lookup_sender registry g sender)
      else record { is_open = false; role = none; reason = unknown_policy policy }
