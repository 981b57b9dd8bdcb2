-- ===== src/Gateway/Scopes/Accuracy.antt =====
-- The earning rule of standing scopes: standing_scopes.py (STANDING_SCOPE_RULES, pair_matched,
-- accuracy_percent, _event_index_of_ref, _validate_pairs).
use activegraph_packs.Base.{
  ℕ, suc, ◌*◌, ◌/◌, ◌≤◌, ◌<◌, String, Bool, true, false, ◌||◌, Option, none, some, List, [], ◌∷◌,
  ◌≡◌, refl, arith, length, count, str_eq, leb, map_option, if◌then◌else◌, All, inl, inr,
  Option-cases,
}
use activegraph_packs.Graph.{LogEvent}
use activegraph_packs.Gateway.Types.{ActionClass, PredictionPair}

abbrev pub rule_id : String
rule_id = "tool_policy.standing_scope.prediction_accuracy"

abbrev pub rule_version : ℕ
rule_version = 1

abbrev pub min_predictions : ℕ
min_predictions = 8

abbrev pub min_accuracy_percent : ℕ
min_accuracy_percent = 90

abbrev pub demote_below_accuracy_percent : ℕ
demote_below_accuracy_percent = 90

-- `action_class in ("R0", "R1", "R2")`
abbrev pub can_stand : ActionClass → Bool
can_stand ActionClass.r0 = true
can_stand ActionClass.r1 = true
can_stand ActionClass.r2 = true
can_stand _ = false

-- A predicted approval matches an approval, a predicted rejection a rejection or an edit.
unfoldable pub pair_matched : String → String → Bool
pair_matched predicted actual =
    if str_eq predicted "approve"
    then str_eq actual "approved"
    else if str_eq predicted "reject"
    then str_eq actual "rejected" || str_eq actual "edited"
    else false

unfoldable pub matches : List PredictionPair → ℕ
matches pairs = count (λ p. pair_matched p.predicted_verdict p.actual_verdict) pairs

unfoldable pub accuracy_percent : List PredictionPair → ℕ
accuracy_percent [] = 0
accuracy_percent (p ∷ ps) = matches (p ∷ ps) * 100 / length (p ∷ ps)

abbrev names : String → LogEvent → Bool
names ref e = str_eq e.id ref || (elim e.created [ none ↦ false | some c ↦ str_eq c ref ])

-- The position of the first event that has the id, or that created an object with it.
unfoldable pub event_index_of_ref : List LogEvent → String → Option ℕ
event_index_of_ref [] ref = none
event_index_of_ref (e ∷ es) ref =
    if names ref e then some 0 else map_option suc (event_index_of_ref es ref)

pub data PairError : Type 0 where
  missing_ref unresolved backfilled : PairError

-- Why a pair is refused, if it is.
unfoldable pub check_refs : Option ℕ → Option ℕ → Option PairError
check_refs (some i) (some j) = if leb j i then some backfilled else none
check_refs _ _ = some unresolved

unfoldable pub check_pair : List LogEvent → PredictionPair → Option PairError
check_pair events p =
    if str_eq p.prediction_ref "" || str_eq p.decided_ref ""
    then some missing_ref
    else check_refs (event_index_of_ref events p.prediction_ref)
        (event_index_of_ref events p.decided_ref)

-- The error of the first pair that is refused.
unfoldable pub validate_pairs : List LogEvent → List PredictionPair → Option PairError
validate_pairs events [] = none
validate_pairs events (p ∷ ps) =
    let rest = validate_pairs events ps in
    elim (check_pair events p) [ some e ↦ some e | none ↦ rest ]

-- The prediction stands in the log before the decision.
pub record IsForesight (events : List LogEvent) (p : PredictionPair) : Type 0 where
  pub predicted_at : ℕ
  pub decided_at : ℕ
  pub predicted : event_index_of_ref events p.prediction_ref ≡ some predicted_at
  pub decided : event_index_of_ref events p.decided_ref ≡ some decided_at
  pub before : predicted_at < decided_at

check_refs_inv :
    (a b : Option ℕ)
    → check_refs a b ≡ none
    → (i : ℕ) × (j : ℕ) × (a ≡ some i) × (b ≡ some j) × (i < j)
unfolding check_refs
check_refs_inv (some i) (some j) h = (i, j, refl, refl, ground arith)
check_refs_inv (some i) none h = ground arith
check_refs_inv none b h = ground arith

check_pair-IsForesight :
    (events : List LogEvent) (p : PredictionPair)
    → check_pair events p ≡ none
    → IsForesight events p
unfolding check_pair
check_pair-IsForesight events p h =
    let (i, j, e, f, lt) =
      check_refs_inv (event_index_of_ref events p.prediction_ref)
        (event_index_of_ref events p.decided_ref) (ground arith) in
    record { predicted_at = i; decided_at = j; predicted = e; decided = f; before = lt }

-- Where no pair is refused, every prediction stands before its decision.
pub validate_pairs-IsForesight :
    (events : List LogEvent) (pairs : List PredictionPair)
    → validate_pairs events pairs ≡ none
    → All (IsForesight events) pairs
unfolding validate_pairs
validate_pairs-IsForesight events [] h = tt
validate_pairs-IsForesight events (p ∷ ps) h = elim (Option-cases (check_pair events p)) [
  | inl e ↦ (
    check_pair-IsForesight events p e,
    validate_pairs-IsForesight events ps (rw (e, validate_pairs) at h),
  )
  | inr (err, e) ↦ ground arith
]

-- An accuracy at the bar means that nine in ten predictions matched.
pub matches-accuracy_percent :
    (pairs : List PredictionPair)
    → min_accuracy_percent ≤ accuracy_percent pairs
    → min_accuracy_percent * length pairs ≤ matches pairs * 100
unfolding accuracy_percent
matches-accuracy_percent [] h = omega arith
matches-accuracy_percent (p ∷ ps) h = grind arith
