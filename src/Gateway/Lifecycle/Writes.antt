-- ===== src/Gateway/Lifecycle/Writes.antt =====
-- What each operation of the gateway that executes nothing does to the invariants.
use activegraph_packs.Base.{
  ℕ, ◌≤◌, String, Option, none, some, List, [], ◌∷◌, ◌≡◌, refl, ◌∙◌, arith, update, Bool-cases, inl,
  inr, is_empty,
}
use activegraph_packs.Graph.{Graph, try_patch, try_relate}
use activegraph_packs.Graph.Laws.{objects-try_patch}
use activegraph_packs.Gateway.Types.{
  CallStatus, Call, Obj, call, result, source, CapabilityResult, Settings, with_status,
  with_metadata, with_source, CallMetadata, status_of,
}
use activegraph_packs.Gateway.Views.{
  status_at, results_of, approvals_of, is_result_of, is_approval_of, results_of-with_status,
  approvals_of-with_status, count-update,
}
use activegraph_packs.Gateway.Behaviors.{call_recorder, result_sourcer, source_record}
use activegraph_packs.Gateway.Lifecycle.Quiet.{
  Quiet, Quiet-refl, Quiet-trans, IsNoResult, Quiet-add_object, Quiet-try_relate, Quiet-add-relate,
}
use activegraph_packs.Gateway.Lifecycle.Once.{IsOnce, IsOnce-Quiet, IsOnce-with_status, spent}

-- Both invariants: every call has at most the results its status allows, and at most as many
-- results as approvals.
pub record IsSound (m : List (ℕ × Obj)) : Type 0 where
  pub once : IsOnce m
  pub covered : (k : ℕ) → results_of k m ≤ approvals_of k m

pub IsSound-Quiet : {m n : List (ℕ × Obj)} → IsSound m → Quiet m n → IsSound n
IsSound-Quiet h q = record {
  once = IsOnce-Quiet h.once q;
  covered = λ k. omega (arith, h.covered k, q.keeps_results k, q.keeps_approvals k);
}

-- A status patch of a call that has not run.
pub IsSound-with_status :
    {m : List (ℕ × Obj)} (k : ℕ) (st : CallStatus)
    → IsSound m
    → spent (status_at k m) ≤ spent (some st)
    → IsSound (update k (with_status st) m)
IsSound-with_status {m} k st h le = record {
  once = IsOnce-with_status k st h.once le;
  covered = λ j.
      omega
        (arith, h.covered j, results_of-with_status j k st m, approvals_of-with_status j k st m);
}

-- A patch that keeps an object's status and what it counts as.
pub record Keeps (f : Obj → Obj) : Type 0 where
  status : (o : Obj) → status_of (f o) ≡ status_of o
  results : (k : ℕ) (o : Obj) → is_result_of k (f o) ≡ is_result_of k o
  approvals : (k : ℕ) (o : Obj) → is_approval_of k (f o) ≡ is_approval_of k o

status_at-Keeps :
    {f : Obj → Obj} (j k : ℕ) (m : List (ℕ × Obj))
    → Keeps f
    → status_at j (update k f m) ≡ status_at j m
unfolding status_at
status_at-Keeps j k [] h = refl
status_at-Keeps {f} j k ((i, o) ∷ m) h = ground (arith, h.status o, status_at-Keeps j k m h)

Quiet-update : {f : Obj → Obj} (k : ℕ) (m : List (ℕ × Obj)) → Keeps f → Quiet m (update k f m)
unfolding results_of approvals_of
Quiet-update {f} k m h = record {
  keeps_status = λ j st e. status_at-Keeps j k m h ∙ e;
  keeps_results = λ j. count-update (is_result_of j) f k m (h.results j);
  keeps_approvals = λ j. omega (arith, count-update (is_approval_of j) f k m (h.approvals j));
}

pub Keeps-with_metadata : (md : CallMetadata) → Keeps (with_metadata md)
Keeps-with_metadata md = record { status = status; results = results; approvals = approvals }
  where
    status : (o : Obj) → status_of (with_metadata md o) ≡ status_of o
    status (call c) = refl
    status _ = refl

    results : (k : ℕ) (o : Obj) → is_result_of k (with_metadata md o) ≡ is_result_of k o
    results k (call c) = refl
    results k _ = refl

    approvals : (k : ℕ) (o : Obj) → is_approval_of k (with_metadata md o) ≡ is_approval_of k o
    approvals k (call c) = refl
    approvals k _ = refl

Keeps-with_source : (id : ℕ) → Keeps (with_source id)
Keeps-with_source id = record { status = status; results = results; approvals = approvals }
  where
    status : (o : Obj) → status_of (with_source id o) ≡ status_of o
    status (result r) = refl
    status _ = refl

    results : (k : ℕ) (o : Obj) → is_result_of k (with_source id o) ≡ is_result_of k o
    results k (result r) = refl
    results k _ = refl

    approvals : (k : ℕ) (o : Obj) → is_approval_of k (with_source id o) ≡ is_approval_of k o
    approvals k (result r) = refl
    approvals k _ = refl

module _ {G : Type 0} (graph : Graph Obj G) where
  pub Quiet-try_patch :
      {f : Obj → Obj} (g : G) (k : ℕ)
      → Keeps f
      → Quiet (graph.objects g) (graph.objects (try_patch graph g k f))
  Quiet-try_patch {f} g k h =
      rw (objects-try_patch graph g k f) (Quiet-update k (graph.objects g) h)

  pub Quiet-call_recorder :
      (k : ℕ) (c : Call) (g : G)
      → Quiet (graph.objects g) (graph.objects (call_recorder graph k c g))
  unfolding call_recorder
  Quiet-call_recorder k c g = go c.provider_id
    where
      go :
          (provider : Option ℕ)
          → Quiet (graph.objects g) (
              graph.objects
                (elim provider as (λ _. G) [ none ↦ g | some p ↦ try_relate graph g k p "calls" ]))
      go none = Quiet-refl (graph.objects g)
      go (some p) = Quiet-try_relate graph g k p "calls"

  pub Quiet-result_sourcer :
      (s : Settings) (k : ℕ) (r : CapabilityResult) (g : G)
      → Quiet (graph.objects g) (graph.objects (result_sourcer graph s k r g))
  unfolding result_sourcer
  Quiet-result_sourcer s k r g =
      let src = source (source_record k s r) in
      let (id, g1) = graph.add_object g src in
      elim (Bool-cases s.create_source_from_result) [
        | inl e ↦ elim (Bool-cases (is_empty r.output_data)) [
          | inl f ↦ rw (e, f) (Quiet-refl (graph.objects g))
          | inr f ↦
              rw (e, f)
                (Quiet-trans (Quiet-add_object graph g src (λ j. refl)) (
                  Quiet-trans (Quiet-try_patch g1 k (Keeps-with_source id)) (
                    Quiet-try_relate graph (try_patch graph g1 k (with_source id)) k id
                      "sourced_as")))
        ]
        | inr e ↦ rw e (Quiet-refl (graph.objects g))
      ]

  -- A status patch of the graph, then a record of it that is no result, related to the call.
  pub IsSound-resolve :
      (g : G) (k : ℕ) (st : CallStatus) (o : Obj) (t : String)
      → IsSound (graph.objects g)
      → spent (status_at k (graph.objects g)) ≤ spent (some st)
      → IsNoResult o
      → IsSound (
          graph.objects (
            try_relate graph
              (graph.add_object (try_patch graph g k (with_status st)) o).1
              k
              (graph.add_object (try_patch graph g k (with_status st)) o).0
              t))
  IsSound-resolve g k st o t h le plain =
      IsSound-Quiet
        (rw (objects-try_patch graph g k (with_status st)) (IsSound-with_status k st h le))
        (Quiet-add-relate graph (try_patch graph g k (with_status st)) o k
          (graph.add_object (try_patch graph g k (with_status st)) o).0 t plain)
