-- ===== src/Gateway/Registration.antt =====
-- The check of a capability's registration against the packs' declarations:
-- tool_gateway/registration_check.py. The names of a pack and a capability and the classes are texts,
-- as the check compares them. An error is a value where the code formats a message.
pub mod Declared
pub mod Accepted
use activegraph_packs.Base.{
  String, Bool, true, false, not, ◌&&◌, ◌||◌, Option, none, some, List, [], ◌∷◌, ◌++◌, any, str_eq,
  is_some, if◌then◌else◌,
}

-- A capability that a pack declares when it is loaded.
pub record Declaration : Type 0 where
  pub provider : String
  pub capability : String
  pub risk_class : String
  pub action_class : String

-- The events that the check reads; `other_event` is any other one.
pub data PackEvent : Type 0 where
  loaded : String → List Declaration → PackEvent
  disabled : String → PackEvent
  other_event : PackEvent

pub record PackState : Type 0 where
  pub disabled : Bool
  pub capabilities : List Declaration

-- The dict of the packs' states.
abbrev pub States : Type 0
States = List (String × PackState)

abbrev set_all : String → PackState → States → States
set_all name s [] = []
set_all name s ((n, t) ∷ m) = (n, if str_eq n name then s else t) ∷ set_all name s m

abbrev pub has_name : String → States → Bool
has_name name m = any (λ x. str_eq x.0 name) m

-- `states[name] = s`
unfoldable pub put_state : String → PackState → States → States
put_state name s m = if has_name name m then set_all name s m else m ++ (name, s) ∷ []

-- The capabilities of a pack that has a state, or else none.
unfoldable pub capabilities_of : String → States → List Declaration
capabilities_of name [] = []
capabilities_of name ((n, t) ∷ m) = if str_eq n name then t.capabilities else capabilities_of name m

unfoldable pub apply_event : States → PackEvent → States
apply_event m (loaded name declared) =
    put_state name (record { disabled = false; capabilities = declared }) m
apply_event m (PackEvent.disabled name) =
    put_state name (record { disabled = true; capabilities = capabilities_of name m }) m
apply_event m other_event = m

unfoldable pub apply_events : States → List PackEvent → States
apply_events m [] = m
apply_events m (e ∷ es) = apply_events (apply_event m e) es

-- _pack_states
unfoldable pub pack_states : List PackEvent → States
pack_states events = apply_events [] events

abbrev pub is_pair : String → String → Declaration → Bool
is_pair provider capability d = str_eq d.provider provider && str_eq d.capability capability

-- The classes of the pair in a pack's declarations: the last one counts.
unfoldable pub declared_classes : String → String → List Declaration → Option (String × String)
declared_classes provider capability [] = none
declared_classes provider capability (d ∷ ds) =
    let rest = declared_classes provider capability ds in
    elim rest [
      | some classes ↦ some classes
      | none ↦ if is_pair provider capability d then some (d.risk_class, d.action_class) else none
    ]

pub data RegistrationError : Type 0 where
  undeclared only_disabled risk_drift action_drift : RegistrationError

-- Whether the classes, if there are any, pass a test.
abbrev pub passes : (String × String → Bool) → Option (String × String) → Bool
passes test none = false
passes test (some classes) = test classes

-- The pack declares the pair, with classes that pass the test.
abbrev pub declares : String → String → (String × String → Bool) → PackState → Bool
declares provider capability test s =
    passes test (declared_classes provider capability s.capabilities)

-- The same, of a pack that is enabled.
abbrev pub enabled_declares : String → String → (String × String → Bool) → PackState → Bool
enabled_declares provider capability test s = not s.disabled && declares provider capability test s

unfoldable pub check_states : States → String → String → String → String → Option RegistrationError
check_states m provider capability risk action =
    if any (λ x. declares provider capability (λ c. true) x.1) m
    then if any (λ x. enabled_declares provider capability (λ c. true) x.1) m
      then if any (λ x. enabled_declares provider capability (λ c. str_eq c.0 risk) x.1) m
        then if any (λ x. enabled_declares provider capability (λ c. str_eq c.1 action) x.1) m
          then none
          else some action_drift
        else some risk_drift
      else some only_disabled
    else some undeclared

-- check_registration; `armed` is the log of the graph, where enforcement is armed. `none` accepts.
unfoldable pub check_registration :
    Option (List PackEvent) → String → String → String → String → String → Option RegistrationError
check_registration none provider capability risk origin action = none
check_registration (some events) provider capability risk origin action =
    if str_eq origin "native"
    then check_states (pack_states events) provider capability risk action
    else none
