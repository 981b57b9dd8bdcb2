-- ===== src/Communication/Gate.antt =====
-- Who gets a full reply.
use activegraph_packs.Base.{
  String, true, false, Option, none, some, any, str_eq, eq_iff, eq_refl, sym, ◌∙◌, ◌≡◌, ◌≢◌, ◌⊎◌,
  refl, ap, arith, inl, inr, Bool-cases, Option-cases,
}
use activegraph_packs.Graph.{Graph}
use activegraph_packs.Gateway.Types.{Principal, Obj}
use activegraph_packs.Communication.{
  Registry, reply_policies, allowed_roles, role_is, role_in, role_of, decide_role, lookup_sender,
  decide_reply,
}

-- The role of an owner or an admin, or a collaborator's under "known".
abbrev pub Trusted : String → Principal → Type 0
Trusted policy p =
    (p.role ≡ some "owner")
    ⊎ (p.role ≡ some "admin")
    ⊎ ((policy ≡ "known") × (p.role ≡ some "collaborator"))

role_in-Trusted :
    (policy role : String)
    → role_in (allowed_roles policy) (some role) ≡ true
    → (role ≡ "owner") ⊎ (role ≡ "admin") ⊎ ((policy ≡ "known") × (role ≡ "collaborator"))
role_in-Trusted policy role h = ground (
  arith,
  eq_iff "owner" role,
  eq_iff "admin" role,
  eq_iff "collaborator" role,
  eq_iff policy "known",
)

decide_role-none :
    (policy : String) → (decide_role policy none).is_open ≡ true → str_eq policy "open" ≡ true
unfolding decide_role
decide_role-none policy h = ground arith

decide_role-some :
    (policy : String) (p : Principal)
    → (decide_role policy (some p)).is_open ≡ true
    → (role_is "blocked" p.role ≡ false)
      × ((str_eq policy "open" ≡ true) ⊎ (role_in (allowed_roles policy) p.role ≡ true))
unfolding decide_role
decide_role-some policy p h = ground arith

decide_role_opens :
    (policy : String) (found : Option Principal)
    → (decide_role policy found).is_open ≡ true
    → (role_of found ≢ some "blocked")
      × ((policy ≡ "open") ⊎ ((p : Principal) × (found ≡ some p) × Trusted policy p))
decide_role_opens policy none h =
    (λ e. ground arith, inl ((eq_iff policy "open").0 (decide_role-none policy h)))
decide_role_opens policy (some p) h =
    let (calm, why) = decide_role-some policy p h in
    (
      λ e. ground (arith, calm, ap (role_is "blocked") e, eq_refl "blocked"),
      elim why [
        | inl e ↦ inl ((eq_iff policy "open").0 e)
        | inr e ↦ elim (Option-cases p.role) [
          | inl n ↦ ground (arith, ap (role_in (allowed_roles policy)) n)
          | inr (role, n) ↦
              let t =
                role_in-Trusted policy role (sym (ap (role_in (allowed_roles policy)) n) ∙ e) in
              inr (
                p,
                refl,
                elim t [
                  | inl a ↦ inl (n ∙ ap some a)
                  | inr (inl b) ↦ inr (inl (n ∙ ap some b))
                  | inr (inr (c, d)) ↦ inr (inr (c, n ∙ ap some d))
                ],
              )
        ]
      ],
    )

role_in_opens :
    (policy : String) (p : Principal) (role : String)
    → p.role ≡ some role
    → str_eq role "blocked" ≡ false
    → any (λ r. str_eq r role) (allowed_roles policy) ≡ true
    → (decide_role policy (some p)).is_open ≡ true
unfolding decide_role
role_in_opens policy p role e calm there = elim (Bool-cases (str_eq policy "open")) [
  | inl f ↦ rw (decide_role, e, calm, f) refl
  | inr f ↦ rw (decide_role, e, calm, f, there) refl
]

Trusted-opens :
    (policy : String) (p : Principal)
    → Trusted policy p
    → (decide_role policy (some p)).is_open ≡ true
Trusted-opens policy p (inl owner) =
    role_in_opens policy p "owner" owner refl
      (elim (Bool-cases (str_eq policy "known")) [ inl f ↦ rw f refl | inr f ↦ rw f refl ])
Trusted-opens policy p (inr (inl admin)) =
    role_in_opens policy p "admin" admin refl
      (elim (Bool-cases (str_eq policy "known")) [ inl f ↦ rw f refl | inr f ↦ rw f refl ])
Trusted-opens policy p (inr (inr (known, collaborator))) =
    role_in_opens policy p "collaborator" collaborator refl
      (rw (ap (λ x. str_eq x "known") known) refl)

module _ {G : Type 0} (graph : Graph Obj G) where
  -- The gate fails closed: it opens only for a policy that exists, never for a blocked principal,
  -- and under a policy other than "open" only for a sender whose principal is found with an owner's
  -- or an admin's role, or a collaborator's if the policy is "known".
  pub decide_reply_opens :
      (registry : Option Registry) (g : G) (sender : Option String) (policy : String)
      → (decide_reply graph registry g sender policy).is_open ≡ true
      → (any (λ p. str_eq p policy) reply_policies ≡ true)
        × (role_of (lookup_sender graph registry g sender) ≢ some "blocked")
        × ((policy ≡ "open")
            ⊎ ((p : Principal) × (lookup_sender graph registry g sender ≡ some p)
                × Trusted policy p))
  unfolding decide_reply decide_role
  decide_reply_opens registry g sender policy h =
      elim (Bool-cases (any (λ p. str_eq p policy) reply_policies)) [
        | inr e ↦ ground (arith, e)
        | inl e ↦
            let (role, why) =
              decide_role_opens policy (lookup_sender graph registry g sender)
                (ground (arith, e)) in
            (e, role, why)
      ]

  -- Under a policy that exists, a sender with an owner's or an admin's role, or a collaborator's if
  -- the policy is "known", gets a full reply.
  pub decide_reply_admits :
      (registry : Option Registry) (g : G) (sender : Option String) (policy : String)
      (p : Principal)
      → any (λ x. str_eq x policy) reply_policies ≡ true
      → lookup_sender graph registry g sender ≡ some p
      → Trusted policy p
      → (decide_reply graph registry g sender policy).is_open ≡ true
  unfolding decide_reply
  decide_reply_admits registry g sender policy p known found trust =
      rw (found, decide_reply, known) (Trusted-opens policy p trust)
