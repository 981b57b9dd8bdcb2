-- ===== src/Gateway/Views.antt =====
-- What the theorems about the gateway read off a graph: the status of an object, and how many
-- results and approvals name a call.
use activegraph_packs.Base.{
  ℕ, ◌+◌, Bool, false, Option, none, some, List, [], ◌∷◌, ◌++◌, ◌≡◌, refl, arith, count, lookup,
  update, count-append, ◌==◌, if◌then◌else◌, lookup-append, lookup-update, map_option,
}
use activegraph_packs.Gateway.Types.{
  CallStatus, Obj, call, approval, result, other, status_of, with_status, bind_status,
}

-- The status of the object with this id, if it has one.
unfoldable pub status_at : ℕ → List (ℕ × Obj) → Option CallStatus
status_at k m = bind_status (lookup k m)

abbrev pub is_result_of : ℕ → Obj → Bool
is_result_of k (result r) = r.call_id == k
is_result_of k _ = false

abbrev pub is_approval_of : ℕ → Obj → Bool
is_approval_of k (approval a) = a.call_id == k
is_approval_of k _ = false

unfoldable pub results_of : ℕ → List (ℕ × Obj) → ℕ
results_of k m = count (λ e. is_result_of k e.1) m

unfoldable pub approvals_of : ℕ → List (ℕ × Obj) → ℕ
approvals_of k m = count (λ e. is_approval_of k e.1) m

pub count-update :
    (p : Obj → Bool) (f : Obj → Obj) (k : ℕ) (m : List (ℕ × Obj))
    → ((o : Obj) → p (f o) ≡ p o)
    → count (λ e. p e.1) (update k f m) ≡ count (λ e. p e.1) m
count-update p f k [] h = refl
count-update p f k ((j, o) ∷ m) h = ground (arith, h o, count-update p f k m h)

-- A patch of the status or of the metadata.
pub results_of-with_status :
    (j k : ℕ) (st : CallStatus) (m : List (ℕ × Obj))
    → results_of j (update k (with_status st) m) ≡ results_of j m
unfolding results_of
results_of-with_status j k st m = count-update (is_result_of j) (with_status st) k m (λ o. kind o)
  where
    kind : (o : Obj) → is_result_of j (with_status st o) ≡ is_result_of j o
    kind (call c) = refl
    kind _ = refl

pub approvals_of-with_status :
    (j k : ℕ) (st : CallStatus) (m : List (ℕ × Obj))
    → approvals_of j (update k (with_status st) m) ≡ approvals_of j m
unfolding approvals_of
approvals_of-with_status j k st m =
    count-update (is_approval_of j) (with_status st) k m (λ o. kind o)
  where
    kind : (o : Obj) → is_approval_of j (with_status st o) ≡ is_approval_of j o
    kind (call c) = refl
    kind _ = refl

pub results_of-append :
    (j : ℕ) (m n : List (ℕ × Obj)) → results_of j (m ++ n) ≡ results_of j m + results_of j n
unfolding results_of
results_of-append j m n = count-append (λ e. is_result_of j e.1) m n

pub approvals_of-append :
    (j : ℕ) (m n : List (ℕ × Obj)) → approvals_of j (m ++ n) ≡ approvals_of j m + approvals_of j n
unfolding approvals_of
approvals_of-append j m n = count-append (λ e. is_approval_of j e.1) m n

-- The status under a patch of one object's status.
pub status_at-with_status :
    (j k : ℕ) (st : CallStatus) (m : List (ℕ × Obj))
    → status_at j (update k (with_status st) m)
      ≡ (if k == j then bind_status (map_option (with_status st) (lookup j m)) else status_at j m)
unfolding status_at
status_at-with_status j k st m = ground (arith, lookup-update k j (with_status st) m)

with_status_status :
    (st old : CallStatus) (o : Option Obj)
    → bind_status o ≡ some old
    → bind_status (map_option (with_status st) o) ≡ some st
with_status_status st old none h = ground arith
with_status_status st old (some (call c)) h = refl
with_status_status st old (some (other x)) h = refl
with_status_status st old (some _) h = ground arith

-- The status of an object that has one, after its patch.
pub status_at-with_status_self :
    (k : ℕ) (st old : CallStatus) (m : List (ℕ × Obj))
    → status_at k m ≡ some old
    → status_at k (update k (with_status st) m) ≡ some st
unfolding status_at
status_at-with_status_self k st old m h =
    ground (arith, lookup-update k k (with_status st) m, with_status_status st old (lookup k m))

pub status_at-append :
    (j k : ℕ) (o : Obj) (m : List (ℕ × Obj))
    → lookup k m ≡ none
    → status_at j (m ++ (k, o) ∷ []) ≡ (if k == j then status_of o else status_at j m)
unfolding status_at
status_at-append j k o m h = ground (arith, lookup-append j m ((k, o) ∷ []))
