-- ===== src/Gateway/Lifecycle/Quiet.antt =====
-- Changes that neither move a status nor record a result: what other packs, handlers and the
-- gateway's own audit objects do.
use activegraph_packs.Base.{
  ℕ, ◌≤◌, String, false, none, some, List, [], ◌∷◌, ◌++◌, ◌≡◌, refl, sym, ◌∙◌, arith, lookup, subst,
}
use activegraph_packs.Graph.{Graph, try_relate}
use activegraph_packs.Graph.Laws.{objects-try_relate}
use activegraph_packs.Gateway.Types.{CallStatus, Obj}
use activegraph_packs.Gateway.Views.{
  status_at, results_of, approvals_of, is_result_of, results_of-append, approvals_of-append,
  status_at-append,
}

-- Every status stays, no result comes or goes, and no approval goes.
pub record Quiet (m n : List (ℕ × Obj)) : Type 0 where
  pub keeps_status : (k : ℕ) (st : CallStatus) → status_at k m ≡ some st → status_at k n ≡ some st
  pub keeps_results : (k : ℕ) → results_of k n ≡ results_of k m
  pub keeps_approvals : (k : ℕ) → approvals_of k m ≤ approvals_of k n

pub Quiet-refl : (m : List (ℕ × Obj)) → Quiet m m
Quiet-refl m = record {
  keeps_status = λ k st h. h;
  keeps_results = λ k. refl;
  keeps_approvals = λ k. omega arith;
}

pub Quiet-trans : {l m n : List (ℕ × Obj)} → Quiet l m → Quiet m n → Quiet l n
Quiet-trans a b = record {
  keeps_status = λ k st h. b.keeps_status k st (a.keeps_status k st h);
  keeps_results = λ k. b.keeps_results k ∙ a.keeps_results k;
  keeps_approvals = λ k. omega (arith, a.keeps_approvals k, b.keeps_approvals k);
}

pub Quiet-eq : {m n : List (ℕ × Obj)} → n ≡ m → Quiet m n
Quiet-eq {m} e = subst (Quiet m) (sym e) (Quiet-refl m)

-- An object is no result of any call.
abbrev pub IsNoResult : Obj → Type 0
IsNoResult o = (k : ℕ) → is_result_of k o ≡ false

-- A new object under a fresh id.
Quiet-append :
    (k : ℕ) (o : Obj) (m : List (ℕ × Obj))
    → lookup k m ≡ none
    → IsNoResult o
    → Quiet m (m ++ (k, o) ∷ [])
unfolding status_at results_of approvals_of
Quiet-append k o m fresh plain = record {
  keeps_status = λ j st h. ground (arith, status_at-append j k o m fresh);
  keeps_results = λ j. ground (arith, results_of-append j m ((k, o) ∷ []), plain j);
  keeps_approvals = λ j. ground (arith, approvals_of-append j m ((k, o) ∷ []));
}

module _ {G : Type 0} (graph : Graph Obj G) where
  pub Quiet-add_object :
      (g : G) (o : Obj)
      → IsNoResult o
      → Quiet (graph.objects g) (graph.objects (graph.add_object g o).1)
  Quiet-add_object g o plain =
      rw (graph.objects-add_object g o) (
        Quiet-append (graph.add_object g o).0 o (graph.objects g) (graph.add_object_fresh g o)
          plain)

  pub Quiet-try_relate :
      (g : G) (a b : ℕ) (t : String)
      → Quiet (graph.objects g) (graph.objects (try_relate graph g a b t))
  Quiet-try_relate g a b t = Quiet-eq (objects-try_relate graph g a b t)

  -- An object is added and related: the shape of every audit record.
  pub Quiet-add-relate :
      (g : G) (o : Obj) (a b : ℕ) (t : String)
      → IsNoResult o
      → Quiet (graph.objects g) (graph.objects (try_relate graph (graph.add_object g o).1 a b t))
  Quiet-add-relate g o a b t plain =
      Quiet-trans (Quiet-add_object g o plain) (Quiet-try_relate (graph.add_object g o).1 a b t)
