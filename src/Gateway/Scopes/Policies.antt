-- ===== src/Gateway/Scopes/Policies.antt =====
-- The list of a graph's tool policies: what a patch and a creation do to it, and what a sound policy
-- is: it has the ids of its scope, a class that may stand, and stored evidence that meets the rule.
use text.Mathlib.TextLemmas.{append_cancel_left}
use activegraph_packs.Base.{
  ℕ, ◌≤◌, String, Bool, true, false, Option, some, List, [], ◌∷◌, ◌++◌, ◌≡◌, refl, sym, subst, ◌∙◌,
  eq_refl, arith, inl, inr, length, find?, update, All, str_eq, eq_iff, ◌==◌, Bool-cases,
}
use activegraph_packs.Gateway.Types.{PolicyStatus, ToolPolicy, Obj, tool_policy}
use activegraph_packs.Gateway.Policy.Scope.{tool_policies, scope_key_of}
use activegraph_packs.Gateway.Scopes.Accuracy.{
  can_stand, accuracy_percent, min_predictions, min_accuracy_percent,
}
use activegraph_packs.Gateway.Scopes.{with_policy, is_blank, policy_id_of}

pub record IsSound (p : ToolPolicy) : Type 0 where
  pub id : p.policy_id ≡ policy_id_of p.scope_key
  pub key : p.scope_key ≡ scope_key_of p.action_class p.capability_key
  pub stands : can_stand p.action_class ≡ true
  pub counted : p.evidence.prediction_count ≡ length p.evidence.pairs
  pub measured : p.evidence.accuracy_percent ≡ accuracy_percent p.evidence.pairs
  pub enough : min_predictions ≤ length p.evidence.pairs
  pub accurate : min_accuracy_percent ≤ accuracy_percent p.evidence.pairs
  pub approved : p.status ≡ PolicyStatus.promoted → is_blank p.approved_by ≡ false

abbrev pub AllSound : List (ℕ × ToolPolicy) → Type 0
AllSound m = All (λ e. IsSound e.1) m

pub tool_policies-update :
    (k : ℕ) (f : ToolPolicy → ToolPolicy) (m : List (ℕ × Obj))
    → tool_policies (update k (with_policy f) m) ≡ update k f (tool_policies m)
unfolding tool_policies
tool_policies-update k f [] = refl
tool_policies-update k f ((j, tool_policy p) ∷ m) = elim (Bool-cases (j == k)) [
  | inl e ↦ rw (e, tool_policies-update k f m)
  | inr e ↦ rw (e, tool_policies-update k f m)
]
tool_policies-update k f ((j, o) ∷ m) = elim (Bool-cases (j == k)) [
  | inl e ↦ rw (e, tool_policies-update k f m)
  | inr e ↦ rw (e, tool_policies-update k f m)
]

pub tool_policies-append :
    (m : List (ℕ × Obj)) (k : ℕ) (p : ToolPolicy)
    → tool_policies (m ++ (k, tool_policy p) ∷ []) ≡ tool_policies m ++ (k, p) ∷ []
unfolding tool_policies
tool_policies-append [] k p = refl
tool_policies-append ((j, tool_policy q) ∷ m) k p = rw (tool_policies-append m k p)
tool_policies-append ((j, o) ∷ m) k p = tool_policies-append m k p

pub AllSound-append :
    (m : List (ℕ × ToolPolicy)) (k : ℕ) (p : ToolPolicy)
    → AllSound m
    → IsSound p
    → AllSound (m ++ (k, p) ∷ [])
AllSound-append [] k p h s = (s, tt)
AllSound-append (e ∷ m) k p h s = (h.0, AllSound-append m k p h.1 s)

pub AllSound-update :
    (k : ℕ) (f : ToolPolicy → ToolPolicy) (m : List (ℕ × ToolPolicy))
    → ((p : ToolPolicy) → IsSound p → IsSound (f p))
    → AllSound m
    → AllSound (update k f m)
AllSound-update k f [] keeps h = tt
AllSound-update k f ((j, p) ∷ m) keeps h = elim (Bool-cases (j == k)) [
  | inl e ↦ (rw e (keeps p h.0), AllSound-update k f m keeps h.1)
  | inr e ↦ (rw e h.0, AllSound-update k f m keeps h.1)
]

pub AllSound-find? :
    (test : ℕ × ToolPolicy → Bool) (m : List (ℕ × ToolPolicy)) (k : ℕ) (p : ToolPolicy)
    → AllSound m
    → find? test m ≡ some (k, p)
    → IsSound p
AllSound-find? test [] k p h e = ground arith
AllSound-find? test ((j, q) ∷ m) k p h e = elim (Bool-cases (test (j, q))) [
  | inl f ↦ subst IsSound (ground arith) h.0
  | inr f ↦ AllSound-find? test m k p h.1 (rw f at e)
]

find?-update_first :
    (test : ToolPolicy → Bool) (k : ℕ) (f : ToolPolicy → ToolPolicy) (j : ℕ) (q : ToolPolicy)
    (m : List (ℕ × ToolPolicy)) (p : ToolPolicy)
    → ◌≡◌ {A = Option (ℕ × ToolPolicy)} (some (j, q)) (some (k, p))
    → test q ≡ true
    → test (f q) ≡ true
    → find? (λ e. test e.1) (update k f ((j, q) ∷ m)) ≡ some (k, f p)
find?-update_first test k f j q m p h t u = elim (Bool-cases (j == k)) [
  | inl e ↦ rw (e, u) (ground arith)
  | inr e ↦ ground arith
]

-- A patch that leaves what the test reads changes what is found, not where.
pub find?-update :
    (test : ToolPolicy → Bool) (k : ℕ) (f : ToolPolicy → ToolPolicy) (m : List (ℕ × ToolPolicy))
    (p : ToolPolicy)
    → ((q : ToolPolicy) → test (f q) ≡ test q)
    → find? (λ e. test e.1) m ≡ some (k, p)
    → find? (λ e. test e.1) (update k f m) ≡ some (k, f p)
find?-update test k f [] p same h = ground arith
find?-update test k f ((j, q) ∷ m) p same h = elim (Bool-cases (test q)) [
  | inl t ↦ find?-update_first test k f j q m p (ground arith) t (same q ∙ t)
  | inr t ↦ elim (Bool-cases (j == k)) [
    | inl e ↦ rw (e, same q, t) (find?-update test k f m p same (rw t at h))
    | inr e ↦ rw (e, t) (find?-update test k f m p same (rw t at h))
  ]
]

str_eq-policy_id_of : (a b : String) → str_eq (policy_id_of a) (policy_id_of b) ≡ str_eq a b
str_eq-policy_id_of a b = elim (Bool-cases (str_eq a b)) [
  | inl e ↦ rw (e, (eq_iff a b).0 e) (eq_refl (policy_id_of b))
  | inr e ↦ elim (Bool-cases (str_eq (policy_id_of a) (policy_id_of b))) [
    | inl f ↦
        let same =
          append_cancel_left "tool_policy_" a b ((eq_iff (policy_id_of a) (policy_id_of b)).0 f) in
        ground (arith, eq_iff a b)
    | inr f ↦ f ∙ sym e
  ]
]

-- The policy id of a scope is its key with a prefix, so both find the same policy.
pub find_policy_id-policy_id_of :
    (key : String) (m : List (ℕ × ToolPolicy))
    → AllSound m
    → find? (λ e. str_eq e.1.policy_id (policy_id_of key)) m
      ≡ find? (λ e. str_eq e.1.scope_key key) m
find_policy_id-policy_id_of key [] h = refl
find_policy_id-policy_id_of key ((j, p) ∷ m) h =
    rw (h.0.id, str_eq-policy_id_of p.scope_key key, find_policy_id-policy_id_of key m h.1)
