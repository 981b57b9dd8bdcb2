-- ===== src/Gateway/Examples/Registrations.antt =====
-- Registrations at concrete inputs.
use activegraph_packs.Base.{String, none, some, List, [], ◌∷◌, ◌≡◌, refl}
use activegraph_packs.Gateway.Registration.{
  Declaration, PackEvent, loaded, risk_drift, capabilities_of, put_state, apply_event, apply_events,
  pack_states, declared_classes, check_states, check_registration,
}
use activegraph_packs.Gateway.Registration.Declared.{last_load}
use activegraph_packs.Gateway.Registration.Accepted.{
  Declares, check_registration_accepts, check_registration_declared,
}

abbrev lookup_as : String → String → Declaration
lookup_as risk action = record {
  provider = "crm";
  capability = "lookup";
  risk_class = risk;
  action_class = action;
}

-- Two packs declare the same capability with different classes; a third was disabled.
abbrev boot : List PackEvent
boot =
    loaded "sales" (lookup_as "low" "R0" ∷ [])
    ∷ loaded "old" (lookup_as "medium" "R1" ∷ [])
    ∷ loaded "admin" (lookup_as "high" "R2" ∷ [])
    ∷ PackEvent.disabled "old"
    ∷ []

program : Unit {0}
unfolding capabilities_of put_state apply_event apply_events pack_states declared_classes
    check_states check_registration last_load
program = tt

-- The risk class of one pack and the action class of another.
mix_accepted : check_registration (some boot) "crm" "lookup" "low" "native" "R2" ≡ none
unfolding program
mix_accepted = refl

disabled_pack_refused :
    check_registration (some boot) "crm" "lookup" "medium" "native" "R1" ≡ some risk_drift
unfolding program
disabled_pack_refused = refl

check_registration_accepts_example :
    ((other_action : String) × Declares boot "crm" "lookup" "low" other_action)
    × ((other_risk : String) × Declares boot "crm" "lookup" other_risk "R2")
check_registration_accepts_example =
    check_registration_accepts boot "crm" "lookup" "low" "R2" mix_accepted

admin-Declares : Declares boot "crm" "lookup" "high" "R2"
unfolding program
admin-Declares = record {
  pack = "admin";
  declared = lookup_as "high" "R2" ∷ [];
  loaded_last = refl;
  classes = refl;
}

check_registration_declared_example :
    check_registration (some boot) "crm" "lookup" "high" "native" "R2" ≡ none
check_registration_declared_example =
    check_registration_declared boot "crm" "lookup" "high" "R2" "native" admin-Declares
