-- ===== src/Gateway/Approval/Outcomes.antt =====
-- The two ways in which an approval or a denial ends: refused, with the graph untouched, or
-- resolved, for a held call and an approver that the verification allows.
use activegraph_packs.Base.{
  ℕ, String, Bool, true, false, Option, none, some, List, ◌≡◌, refl, arith, get_or, ◌⊎◌, inl, inr,
  if◌then◌else◌,
}
use activegraph_packs.Graph.{Graph}
use activegraph_packs.Gateway.Types.{CallStatus, Call, Obj, call, approval, denial}
use activegraph_packs.Gateway.Approval.{
  Identity, Reply, Reason, not_held, ApproverVerdict, resolve, approve_object, approve_capability,
  deny_object, deny_capability, is_held, verify_approver, manual_approval, denial_record, refuse,
  default_roles,
}

-- The two guards of both operations.
guards_cases :
    {G : Type 0} (held allowed : Bool) (resolved : Option (Reply × G)) (a b : Reason) (g : G)
    (r : Reply) (g' : G)
    → (if held then if allowed then resolved else some (refuse a, g) else some (refuse b, g))
      ≡ some (r, g')
    → ((r.ok ≡ false) × (g' ≡ g)) ⊎ ((held ≡ true) × (allowed ≡ true) × (resolved ≡ some (r, g')))
guards_cases true true resolved a b g r g' h = inr (refl, refl, h)
guards_cases true false resolved a b g r g' h = inl (ground arith, ground arith)
guards_cases false allowed resolved a b g r g' h = inl (ground arith, ground arith)

is_held_inv : (st : CallStatus) → is_held st ≡ true → st ≡ CallStatus.policy_checking
is_held_inv st h = ground arith

module _ {G : Type 0} (graph : Graph Obj G) (identity : Identity) where
  abbrev pub approver_verdict : Option (List String) → String → G → ApproverVerdict
  approver_verdict roles approver g =
      verify_approver identity (graph.objects g) approver (get_or default_roles roles)

  -- The call is held, the verdict allows, and the graph is the one that `resolve` leaves.
  pub record Resolved (roles : Option (List String)) (k : ℕ) (approver : String) (st : CallStatus)
      (entry : Call → Obj) (relation : String) (reason : Reason) (g : G) (r : Reply) (g' : G)
      : Type 0 where
    pub held : Call
    pub found : graph.get_object g k ≡ some (call held)
    pub was_held : held.status ≡ CallStatus.policy_checking
    pub allowed : (approver_verdict roles approver g).allowed ≡ true
    pub outcome : resolve graph k st (entry held) relation reason g ≡ some (r, g')

  -- An approval that answers either refuses and changes nothing, or resolves a held call.
  pub approve_capability_cases :
      (roles : Option (List String)) (k : ℕ) (approver note now : String) (g : G) (r : Reply)
      (g' : G)
      → approve_capability graph identity roles k approver note now g ≡ some (r, g')
      → ((r.ok ≡ false) × (g' ≡ g))
        ⊎ Resolved roles k approver CallStatus.approved
            (λ c.
              approval (manual_approval k c (approver_verdict roles approver g) approver note now))
            "approved_by"
            Reason.approved
            g
            r
            g'
  unfolding approve_capability approve_object
  approve_capability_cases roles k approver note now g r g' h = go (graph.get_object g k) refl h
    where
      go :
          (found : Option Obj)
          → graph.get_object g k ≡ found
          → approve_object graph identity (get_or default_roles roles) k approver note now g found
            ≡ some (r, g')
          → ((r.ok ≡ false) × (g' ≡ g))
            ⊎ Resolved roles k approver CallStatus.approved
                (λ c.
                  approval
                    (manual_approval k c (approver_verdict roles approver g) approver note now))
                "approved_by"
                Reason.approved
                g
                r
                g'
      go (some (call c)) f e =
          let verdict = approver_verdict roles approver g in
          let resolved =
            resolve graph k CallStatus.approved
              (approval (manual_approval k c verdict approver note now)) "approved_by"
              Reason.approved g in
          elim (guards_cases (is_held c.status) verdict.allowed resolved verdict.reason
            (not_held c.status) g r g' e) [
              | inl refused ↦ inl refused
              | inr (held, allowed, out) ↦ inr (record {
                held = c;
                found = f;
                was_held = is_held_inv c.status held;
                allowed = allowed;
                outcome = out;
              })
            ]
      go none f e = inl (ground arith, ground arith)
      go (some _) f e = inl (ground arith, ground arith)

  -- A denial that answers either refuses and changes nothing, or resolves a held call.
  pub deny_capability_cases :
      (roles : Option (List String)) (k : ℕ) (denier reason now : String) (g : G) (r : Reply)
      (g' : G)
      → deny_capability graph identity roles k denier reason now g ≡ some (r, g')
      → ((r.ok ≡ false) × (g' ≡ g))
        ⊎ Resolved roles k denier CallStatus.rejected
            (λ c. denial (denial_record k c (approver_verdict roles denier g) denier reason now))
            "denied_by"
            Reason.denied
            g
            r
            g'
  unfolding deny_capability deny_object
  deny_capability_cases roles k denier reason now g r g' h = go (graph.get_object g k) refl h
    where
      go :
          (found : Option Obj)
          → graph.get_object g k ≡ found
          → deny_object graph identity (get_or default_roles roles) k denier reason now g found
            ≡ some (r, g')
          → ((r.ok ≡ false) × (g' ≡ g))
            ⊎ Resolved roles k denier CallStatus.rejected
                (λ c.
                  denial (denial_record k c (approver_verdict roles denier g) denier reason now))
                "denied_by"
                Reason.denied
                g
                r
                g'
      go (some (call c)) f e =
          let verdict = approver_verdict roles denier g in
          let resolved =
            resolve graph k CallStatus.rejected
              (denial (denial_record k c verdict denier reason now)) "denied_by" Reason.denied g in
          elim (guards_cases (is_held c.status) verdict.allowed resolved verdict.reason
            (not_held c.status) g r g' e) [
              | inl refused ↦ inl refused
              | inr (held, allowed, out) ↦ inr (record {
                held = c;
                found = f;
                was_held = is_held_inv c.status held;
                allowed = allowed;
                outcome = out;
              })
            ]
      go none f e = inl (ground arith, ground arith)
      go (some _) f e = inl (ground arith, ground arith)
