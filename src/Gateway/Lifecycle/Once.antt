-- ===== src/Gateway/Lifecycle/Once.antt =====
-- The invariant that bounds the results of a call by its status, and the changes that keep it.
use activegraph_packs.Base.{
  ℕ, ◌≤◌, Option, none, some, List, [], ◌∷◌, ◌++◌, ◌≡◌, arith, lookup, update, map_option,
}
use activegraph_packs.Gateway.Types.{
  CallStatus, Obj, call, other, result, CapabilityResult, with_status, bind_status,
}
use activegraph_packs.Gateway.Views.{
  status_at, results_of, results_of-append, results_of-with_status, status_at-append,
  status_at-with_status,
}
use activegraph_packs.Gateway.Lifecycle.Quiet.{Quiet}

-- How many results a call of this status may have.
abbrev pub spent : Option CallStatus → ℕ
spent (some CallStatus.executing) = 1
spent (some CallStatus.done) = 1
spent (some CallStatus.failed) = 1
spent _ = 0

-- No call has more results than its status allows, so none has two.
pub record IsOnce (m : List (ℕ × Obj)) : Type 0 where
  pub bound : (k : ℕ) → results_of k m ≤ spent (status_at k m)

spent-le : (s : Option CallStatus) → spent s ≤ 1
spent-le none = omega arith
spent-le (some st) = ground arith

pub results_of-le : {m : List (ℕ × Obj)} (k : ℕ) → IsOnce m → results_of k m ≤ 1
results_of-le {m} k h = omega (arith, h.bound k, spent-le (status_at k m))

spent_mono :
    (a b : Option CallStatus) → ((st : CallStatus) → a ≡ some st → b ≡ some st) → spent a ≤ spent b
spent_mono none b h = omega arith
spent_mono (some st) b h = ground (arith, h st)

pub IsOnce-Quiet : {m n : List (ℕ × Obj)} → IsOnce m → Quiet m n → IsOnce n
IsOnce-Quiet {m} {n} h q = record {
  bound = λ k. omega (
    arith,
    h.bound k,
    q.keeps_results k,
    spent_mono (status_at k m) (status_at k n) (λ st. q.keeps_status k st),
  );
}

spent-with_status :
    (st : CallStatus) (o : Option Obj)
    → spent (bind_status o) ≤ spent (some st)
    → spent (bind_status o) ≤ spent (bind_status (map_option (with_status st) o))
spent-with_status st none h = omega arith
spent-with_status st (some (call c)) h = h
spent-with_status st (some (other x)) h = h
spent-with_status st (some _) h = omega arith

-- A status patch that does not lower what the call may have.
pub IsOnce-with_status :
    {m : List (ℕ × Obj)} (k : ℕ) (st : CallStatus)
    → IsOnce m
    → spent (status_at k m) ≤ spent (some st)
    → IsOnce (update k (with_status st) m)
unfolding status_at
IsOnce-with_status {m} k st h le = record {
  bound = λ j. ground (
    arith,
    h.bound j,
    results_of-with_status j k st m,
    status_at-with_status j k st m,
    spent-with_status st (lookup j m),
  );
}

-- The result of a call that is executing and has none yet.
pub IsOnce-result :
    {m : List (ℕ × Obj)} (id : ℕ) (r : CapabilityResult)
    → IsOnce m
    → lookup id m ≡ none
    → status_at r.call_id m ≡ some CallStatus.executing
    → results_of r.call_id m ≡ 0
    → IsOnce (m ++ (id, result r) ∷ [])
unfolding results_of status_at
IsOnce-result {m} id r h fresh status empty = record {
  bound = λ j. ground (
    arith,
    h.bound j,
    results_of-append j m ((id, result r) ∷ []),
    status_at-append j id (result r) m fresh,
  );
}
