-- ===== src/Communication/Examples.antt =====
-- The reply gate at concrete inputs.
use activegraph_packs.Base.{
  String, true, false, some, [], ◌∷◌, any, str_eq, ◌≡◌, ◌≢◌, ◌⊎◌, refl, inr,
}
use activegraph_packs.Graph.{Graph}
use activegraph_packs.Graph.Listed.{Listed, listed}
use activegraph_packs.Gateway.Types.{Principal, Obj, principal}
use activegraph_packs.Communication.{
  Registry, reply_policies, role_of, decide_role, resolve_known_principal, lookup_sender,
  decide_reply,
}
use activegraph_packs.Communication.Gate.{Trusted, decide_reply_opens, decide_reply_admits}

abbrev objects : Graph Obj (Listed Obj)
objects = listed Obj

abbrev friend : Principal
friend = record { ref = some "ana@example.com"; role = some "collaborator" }

abbrev people : Listed Obj
people = (1, principal friend) ∷ []

abbrev registry : Registry
registry = record { normalize = λ s. s; ids = ("ana@example.com", 1) ∷ [] }

program : Unit {0}
unfolding decide_role resolve_known_principal lookup_sender decide_reply
program = tt

collaborator_known :
    (decide_reply objects (some registry) people (some "ana@example.com") "known").is_open ≡ true
unfolding program
collaborator_known = refl

stranger_deflected :
    (decide_reply objects (some registry) people (some "bob@example.com") "known").is_open ≡ false
unfolding program
stranger_deflected = refl

ana_found : lookup_sender objects (some registry) people (some "ana@example.com") ≡ some friend
unfolding program
ana_found = refl

decide_reply_opens_example :
    (any (λ p. str_eq p "known") reply_policies ≡ true)
    × (role_of (lookup_sender objects (some registry) people (some "ana@example.com"))
        ≢ some "blocked")
    × ((◌≡◌ {A = String} "known" "open")
        ⊎ ((p : Principal) × (lookup_sender objects (some registry) people (some "ana@example.com")
              ≡ some p)
            × Trusted "known" p))
decide_reply_opens_example =
    decide_reply_opens objects (some registry) people (some "ana@example.com") "known"
      collaborator_known

decide_reply_admits_example :
    (decide_reply objects (some registry) people (some "ana@example.com") "known").is_open ≡ true
decide_reply_admits_example =
    decide_reply_admits objects (some registry) people (some "ana@example.com") "known" friend refl
      ana_found (inr (inr (refl, refl)))
