-- ===== src/Gateway/Examples/Secrets.antt =====
-- An execution under two values of the same credential.
use activegraph_packs.Base.{
  ℕ, String, Option, none, some, [], ◌≡◌, refl, subst, get_text, is_some, str_eq, Bool-cases, inl,
  inr,
}
use activegraph_packs.Graph.Listed.{Listed}
use activegraph_packs.Gateway.Types.{Obj}
use activegraph_packs.Gateway.Execution.{Handler, CallData, execute_approved_call}
use activegraph_packs.Gateway.Execution.Secrets.{
  Environment, SameNames, with_secrets, Blind, execute_approved_call-SameNames,
}
use activegraph_packs.Gateway.Examples.{objects, settings, host}

abbrev holds : String → Environment
holds value = λ name. (some value, "env")

abbrev BlindIfSome : Option (Handler (Listed Obj)) → Type 0
BlindIfSome none = Unit
BlindIfSome (some handler) =
    (input : String) (k : ℕ) (c c' : Option String) (g : Listed Obj)
    → is_some c ≡ is_some c'
    → handler input (some (record { call_id = k; credential = c })) g
      ≡ handler input (some (record { call_id = k; credential = c' })) g

each_registered : (key : String) → BlindIfSome (get_text key host.registry)
each_registered key = elim (Bool-cases (str_eq "crm.lookup" key)) [
  | inl e ↦ rw e (λ input k c c' g same. refl)
  | inr e ↦ rw e tt
]

host-Blind : Blind host
host-Blind key handler e = subst BlindIfSome e (each_registered key)

same_names : SameNames (holds "alpha") (holds "beta")
same_names = record { found = λ name. refl; label = λ name. refl }

abbrev call_data : CallData
call_data = record {
  provider_name = "crm";
  capability_name = "lookup";
  input_data = "{}";
  credential_ref_name = some "CRM_TOKEN";
  credential_ref_id = none;
  frame_id = none;
}

execute_approved_call-SameNames_example :
    execute_approved_call objects
      (with_secrets host (holds "alpha"))
      settings
      "call_executor"
      1
      call_data
      []
    ≡ execute_approved_call objects
        (with_secrets host (holds "beta"))
        settings
        "call_executor"
        1
        call_data
        []
execute_approved_call-SameNames_example =
    execute_approved_call-SameNames objects host (holds "alpha") (holds "beta") settings
      "call_executor" 1 call_data [] same_names host-Blind
