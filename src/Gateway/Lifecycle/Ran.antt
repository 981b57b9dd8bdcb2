-- ===== src/Gateway/Lifecycle/Ran.antt =====
-- What an execution of one call changes, and how such a change is put together from the writes.
use activegraph_packs.Base.{
  ℕ, ◌+◌, ◌≤◌, none, some, List, [], ◌∷◌, ◌++◌, ◌≡◌, ◌≢◌, ◌∙◌, arith, lookup, update, ==_iff,
}
use activegraph_packs.Gateway.Types.{CallStatus, Obj, result, CapabilityResult, with_status}
use activegraph_packs.Gateway.Views.{
  status_at, results_of, approvals_of, results_of-append, results_of-with_status,
  approvals_of-with_status, approvals_of-append, status_at-append, status_at-with_status,
  status_at-with_status_self,
}
use activegraph_packs.Gateway.Lifecycle.Quiet.{Quiet}
use activegraph_packs.Gateway.Lifecycle.Once.{
  IsOnce, IsOnce-Quiet, IsOnce-with_status, IsOnce-result, spent,
}

-- From `m` to `n` the call `k` got one result and the status `st`; no other call was touched.
pub record Ran (k : ℕ) (st : CallStatus) (m n : List (ℕ × Obj)) : Type 0 where
  pub once : IsOnce n
  pub status : status_at k n ≡ some st
  pub one_more : results_of k n ≡ results_of k m + 1
  pub other_results : (j : ℕ) → j ≢ k → results_of j n ≡ results_of j m
  pub other_status :
      (j : ℕ) (old : CallStatus) → j ≢ k → status_at j m ≡ some old → status_at j n ≡ some old
  pub approvals : (j : ℕ) → approvals_of j m ≤ approvals_of j n

-- The result is added while the call is executing.
pub Ran-result :
    {m : List (ℕ × Obj)} (id : ℕ) (r : CapabilityResult)
    → IsOnce m
    → lookup id m ≡ none
    → status_at r.call_id m ≡ some CallStatus.executing
    → results_of r.call_id m ≡ 0
    → Ran r.call_id CallStatus.executing m (m ++ (id, result r) ∷ [])
unfolding results_of approvals_of status_at
Ran-result {m} id r h fresh status empty = record {
  once = IsOnce-result id r h fresh status empty;
  status = ground (arith, status_at-append r.call_id id (result r) m fresh);
  one_more = ground (arith, results_of-append r.call_id m ((id, result r) ∷ []));
  other_results = λ j ne. ground (arith, results_of-append j m ((id, result r) ∷ []));
  other_status = λ j old ne e. ground (arith, status_at-append j id (result r) m fresh);
  approvals = λ j. ground (arith, approvals_of-append j m ((id, result r) ∷ []));
}

module _ {k : ℕ} {st : CallStatus} {l m n : List (ℕ × Obj)} where
  pub Ran-after-Quiet : Quiet l m → Ran k st m n → Ran k st l n
  Ran-after-Quiet q r = record {
    once = r.once;
    status = r.status;
    one_more = omega (arith, r.one_more, q.keeps_results k);
    other_results = λ j ne. r.other_results j ne ∙ q.keeps_results j;
    other_status = λ j old ne e. r.other_status j old ne (q.keeps_status j old e);
    approvals = λ j. omega (arith, r.approvals j, q.keeps_approvals j);
  }

  pub Ran-Quiet : Ran k st l m → Quiet m n → Ran k st l n
  Ran-Quiet r q = record {
    once = IsOnce-Quiet r.once q;
    status = q.keeps_status k st r.status;
    one_more = omega (arith, r.one_more, q.keeps_results k);
    other_results = λ j ne. q.keeps_results j ∙ r.other_results j ne;
    other_status = λ j old ne e. q.keeps_status j old (r.other_status j old ne e);
    approvals = λ j. omega (arith, r.approvals j, q.keeps_approvals j);
  }

pub status_at-other :
    (j k : ℕ) (st : CallStatus) (l : List (ℕ × Obj))
    → j ≢ k
    → status_at j (update k (with_status st) l) ≡ status_at j l
status_at-other j k st l ne = ground (arith, status_at-with_status j k st l, ==_iff k j)

module _ {k : ℕ} {m n : List (ℕ × Obj)} where
  -- The status is patched once more.
  pub Ran-with_status :
      (old st : CallStatus)
      → Ran k old m n
      → spent (some old) ≤ spent (some st)
      → Ran k st m (update k (with_status st) n)
  Ran-with_status old st r le = record {
    once = IsOnce-with_status k st r.once (ground (arith, r.status));
    status = status_at-with_status_self k st old n r.status;
    one_more = omega (arith, r.one_more, results_of-with_status k k st n);
    other_results = λ j ne. results_of-with_status j k st n ∙ r.other_results j ne;
    other_status = λ j was ne e. status_at-other j k st n ne ∙ r.other_status j was ne e;
    approvals = λ j. omega (arith, r.approvals j, approvals_of-with_status j k st n);
  }

  -- The status was patched before.
  pub Ran-after-with_status :
      (st now : CallStatus) → Ran k now (update k (with_status st) m) n → Ran k now m n
  Ran-after-with_status st now r = record {
    once = r.once;
    status = r.status;
    one_more = omega (arith, r.one_more, results_of-with_status k k st m);
    other_results = λ j ne. r.other_results j ne ∙ results_of-with_status j k st m;
    other_status = λ j was ne e. r.other_status j was ne (status_at-other j k st m ne ∙ e);
    approvals = λ j. omega (arith, r.approvals j, approvals_of-with_status j k st m);
  }
