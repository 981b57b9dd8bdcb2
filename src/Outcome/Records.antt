-- ===== src/Outcome/Records.antt =====
-- The outcome records of a graph, and what each call of the pack does to the list of them.
use activegraph_packs.Base.{
  ℕ, ◌≤◌, Bool, true, false, ◌&&◌, Option, none, some, List, [], ◌∷◌, ◌++◌, ◌≡◌, refl, ap, ◌∙◌,
  subst, arith, count, All, All-map, All-append, count-append, count-agree, ◌==◌, Bool-cases, inl,
  inr,
}
use activegraph_packs.Graph.{Graph, EventLog}
use activegraph_packs.Graph.Laws.{objects-try_relate}
use activegraph_packs.Outcome.{
  MaintenanceKind, OutcomeKind, terminal, maintenance, ContributionKey, terminal_key,
  maintenance_key, Contribution, OutcomeRecord, Item, evaluation, outcome_record,
  artifact_reliability, skill_usage, other, OutcomeEvent, outcome, id_eq, maintenance_eq,
  contribution_eq, records, is_terminal_of,
}
use activegraph_packs.Outcome.Operations.{Answer, answered, Recorded, record_contribution}

-- A key of the kind and the subject of the outcome that has it.
abbrev pub fits_key : OutcomeKind → ContributionKey → Option ℕ → ℕ → Bool
fits_key (terminal k) (terminal_key e) evaluation_id artifact_id = id_eq evaluation_id e
fits_key (maintenance k) (maintenance_key a s j) evaluation_id artifact_id =
    artifact_id == a && maintenance_eq k j
fits_key _ _ evaluation_id artifact_id = false

abbrev pub fits : OutcomeRecord → Bool
fits r =
    let c = r.contribution in
    fits_key c.outcome_type c.contribution_key c.evaluation_id c.artifact_id

-- How many records have a contribution key, and how many are terminal for an evaluation.
abbrev pub key_records : ContributionKey → List (ℕ × OutcomeRecord) → ℕ
key_records key rs = count (λ e. contribution_eq e.1.contribution.contribution_key key) rs

abbrev pub terminal_records : ℕ → List (ℕ × OutcomeRecord) → ℕ
terminal_records k rs = count (λ e. is_terminal_of k e.1) rs

-- Each record has a key that fits it, and no key stands for two records.
pub record IsSound (rs : List (ℕ × OutcomeRecord)) : Type 0 where
  pub fit : All (λ e. fits e.1 ≡ true) rs
  pub once : (key : ContributionKey) → key_records key rs ≤ 1

pub maintenance_eq_refl : (k : MaintenanceKind) → maintenance_eq k k ≡ true
maintenance_eq_refl k = ground arith

pub contribution_eq_refl : (key : ContributionKey) → contribution_eq key key ≡ true
contribution_eq_refl (terminal_key e) = ground arith
contribution_eq_refl (maintenance_key a s k) = ground (arith, maintenance_eq_refl k)

pub contribution_eq→≡ : (a b : ContributionKey) → contribution_eq a b ≡ true → a ≡ b
contribution_eq→≡ a b h = ground arith

pub IsSound-add :
    (rs : List (ℕ × OutcomeRecord)) (k : ℕ) (r : OutcomeRecord)
    → IsSound rs
    → fits r ≡ true
    → key_records r.contribution.contribution_key rs ≡ 0
    → IsSound (rs ++ (k, r) ∷ [])
IsSound-add rs k r sound fit fresh = record {
  fit = All-append (λ e. fits e.1 ≡ true) rs ((k, r) ∷ []) sound.fit (fit, tt);
  once = λ key.
      let p : ℕ × OutcomeRecord → Bool =
        λ e. contribution_eq e.1.contribution.contribution_key key in
      let own = r.contribution.contribution_key in
      elim (Bool-cases (contribution_eq own key)) [
        | inl e ↦
            let none_of : key_records key rs ≡ 0 =
              subst (λ x. key_records x rs ≡ 0) (contribution_eq→≡ own key e) fresh in
            rw (count-append p rs ((k, r) ∷ [])) (ground (arith, none_of))
        | inr e ↦ rw (count-append p rs ((k, r) ∷ []), e) (omega (arith, sound.once key))
      ];
}

-- A record is terminal for an evaluation if its key says so.
pub terminal-key :
    (k : ℕ) (r : OutcomeRecord)
    → fits r ≡ true
    → is_terminal_of k r ≡ contribution_eq r.contribution.contribution_key (terminal_key k)
terminal-key k r h = ground arith

pub terminal_records-key :
    (k : ℕ) (rs : List (ℕ × OutcomeRecord))
    → All (λ e. fits e.1 ≡ true) rs
    → terminal_records k rs ≡ key_records (terminal_key k) rs
terminal_records-key k rs h =
    count-agree (λ e. is_terminal_of k e.1)
      (λ e. contribution_eq e.1.contribution.contribution_key (terminal_key k)) rs
      (All-map (λ e f. terminal-key k e.1 f) rs h)

pub records-append :
    (m : List (ℕ × Item)) (k : ℕ) (o : Item)
    → records (m ++ (k, o) ∷ []) ≡ records m ++ records ((k, o) ∷ [])
unfolding records
records-append [] k o = refl
records-append ((j, evaluation e) ∷ m) k o = records-append m k o
records-append ((j, outcome_record r) ∷ m) k o = ap (λ rs. (j, r) ∷ rs) (records-append m k o)
records-append ((j, artifact_reliability r) ∷ m) k o = records-append m k o
records-append ((j, skill_usage u) ∷ m) k o = records-append m k o
records-append ((j, other) ∷ m) k o = records-append m k o

module _ {G : Type 0} (graph : Graph Item G) where
  -- The records of a graph.
  abbrev pub kept_records : G → List (ℕ × OutcomeRecord)
  kept_records g = records (graph.objects g)

  pub records-add_object :
      (g : G) (o : Item)
      → kept_records (graph.add_object g o).1
        ≡ kept_records g ++ records (((graph.add_object g o).0, o) ∷ [])
  records-add_object g o =
      ap records (graph.objects-add_object g o)
      ∙ records-append (graph.objects g) (graph.add_object g o).0 o

module _ {G : Type 0} (graph : Graph Item G) (log : EventLog graph OutcomeEvent) where
  records-emit_add :
      (g : G) (e : OutcomeEvent) (o : Item)
      → kept_records graph (graph.add_object (log.emit g e).1 o).1
        ≡ kept_records graph g ++ records (((graph.add_object (log.emit g e).1 o).0, o) ∷ [])
  records-emit_add g e o =
      let g1 = (log.emit g e).1 in
      records-add_object graph g1 o
      ∙ ap (λ m. records m ++ records (((graph.add_object g1 o).0, o) ∷ [])) (log.objects-emit g e)

  -- The record that an operation adds: the event's id stands in it, and the answer names it.
  pub record AddsRecord (c : Contribution) (answer : Answer Recorded) (g g' : G) : Type 0 where
    pub id : ℕ
    pub kept : OutcomeRecord
    pub content : kept.contribution ≡ c
    pub answer_is : answer ≡ answered record { created = true; record_id = id; kept = kept }
    pub records_are : kept_records graph g' ≡ kept_records graph g ++ (id, kept) ∷ []

  pub record_contribution-AddsRecord :
      (c : Contribution) (related : Option ℕ) (g : G)
      → AddsRecord c
          (record_contribution graph log c related g).0
          g
          (record_contribution graph log c related g).1
  unfolding record_contribution records
  record_contribution-AddsRecord c none g = record {
    id = _;
    kept = _;
    content = refl;
    answer_is = refl;
    records_are = records-emit_add g (outcome c) _;
  }
  record_contribution-AddsRecord c (some e) g = record {
    id = _;
    kept = _;
    content = refl;
    answer_is = refl;
    records_are =
        ap records (objects-try_relate graph _ _ e "records_evaluation")
        ∙ records-emit_add g (outcome c) _;
  }
