-- ===== src/Gateway/Examples/Handlers.antt =====
-- A registered function that writes to the graph and then raises a TypeError of its own.
use activegraph_packs.Base.{none, [], ◌∷◌, ◌++◌, ◌≡◌, refl}
use activegraph_packs.Graph.Listed.{Listed}
use activegraph_packs.Gateway.Types.{Obj}
use activegraph_packs.Gateway.Execution.{Handler, type_error, run_handler}

abbrev writes_then_fails : Handler (Listed Obj)
writes_then_fails input ctx g = (type_error "TypeError: bad input", g ++ (1, Obj.other none) ∷ [])

-- It runs twice, and so does its write.
run_handler_twice :
    run_handler writes_then_fails "{}" (record { call_id = 1; credential = none }) []
    ≡ (type_error "TypeError: bad input", (1, Obj.other none) ∷ (1, Obj.other none) ∷ [])
unfolding run_handler
run_handler_twice = refl
