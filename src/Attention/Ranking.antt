-- ===== src/Attention/Ranking.antt =====
-- get_importance_fn, get_source_trust_fn and rank_importance_fn of packs/attention/tools.py.
use activegraph_packs.Base.{
  ℕ, ◌-◌, String, Bool, true, false, ◌&&◌, ◌||◌, not, Option, none, some, List, [], ◌∷◌, find?,
  length, ltb, ◌==◌, str_eq, take, if◌then◌else◌, text_leb, sort_by,
}
use activegraph_packs.Attention.{
  PriorityBand, unranked, ImportanceVector, TrustKey, TrustVerdict, unproven, AttentionItem,
  text_or,
}
use activegraph_packs.Attention.Observations.{option_eq}
use activegraph_packs.Attention.Projectors.{
  importance_vectors, trust_vectors, trust_key_eq, has_text,
}

-- What is asked of: the context, the objective and the horizon.
pub record RankContext : Type 0 where
  pub context_key : String
  pub objective_ref : Option String
  pub horizon_key : String

pub record Importance : Type 0 where
  pub subject_ref : String
  pub score_milli : ℕ
  pub confidence_milli : ℕ
  pub priority_band : PriorityBand
  pub features : List (String × ℕ)
  pub evidence_refs : List String

abbrev pub matches : String → RankContext → ImportanceVector → Bool
matches ref c v =
    str_eq v.subject_ref ref
    && str_eq v.context_key c.context_key
    && (option_eq (if str_eq (text_or v.objective_ref "") "" then none else v.objective_ref)
          c.objective_ref
        && str_eq v.horizon_key c.horizon_key)

-- get_importance_fn
unfoldable pub get_importance : List (ℕ × AttentionItem) → RankContext → String → Importance
get_importance m c ref = elim (find? (λ e. matches ref c e.1) (importance_vectors m)) [
  | none ↦ record {
    subject_ref = ref;
    score_milli = 500;
    confidence_milli = 0;
    priority_band = unranked;
    features = [];
    evidence_refs = [];
  }
  | some e ↦ record {
    subject_ref = e.1.subject_ref;
    score_milli = e.1.score_milli;
    confidence_milli = e.1.confidence_milli;
    priority_band = e.1.priority_band;
    features = e.1.features;
    evidence_refs = e.1.observation_ids;
  }
]

pub record SourceTrust : Type 0 where
  pub source : TrustKey
  pub score_milli : ℕ
  pub confidence_milli : ℕ
  pub verdict : TrustVerdict
  pub features : List (String × ℕ)
  pub evidence_refs : List String

-- get_source_trust_fn
unfoldable pub get_source_trust : List (ℕ × AttentionItem) → TrustKey → SourceTrust
get_source_trust m key = elim (find? (λ e. trust_key_eq e.1.vector_key key) (trust_vectors m)) [
  | none ↦ record {
    source = key;
    score_milli = 500;
    confidence_milli = 0;
    verdict = unproven;
    features = [];
    evidence_refs = [];
  }
  | some e ↦ record {
    source = e.1.vector_key;
    score_milli = e.1.score_milli;
    confidence_milli = e.1.confidence_milli;
    verdict = e.1.verdict;
    features = e.1.features;
    evidence_refs = e.1.outcome_event_ids;
  }
]

abbrev pub is_unranked : Importance → Bool
is_unranked r = elim r.priority_band [ unranked ↦ true | _ ↦ false ]

-- `dict.fromkeys(…)` of the references that are not empty, after those seen.
unfoldable pub distinct_refs : List String → List String → List String
distinct_refs seen [] = []
distinct_refs seen (r ∷ rs) =
    let rest = distinct_refs seen rs in
    let next = distinct_refs (r ∷ seen) rs in
    if str_eq r "" || has_text r seen then rest else r ∷ next

abbrev pub rows_of : List (ℕ × AttentionItem) → RankContext → List String → List Importance
rows_of m c [] = []
rows_of m c (r ∷ rs) = get_importance m c r ∷ rows_of m c rs

abbrev pub select : (Importance → Bool) → List Importance → List Importance
select p [] = []
select p (r ∷ rs) = let rest = select p rs in if p r then r ∷ rest else rest

-- The order of the keys (-score, -confidence, subject).
abbrev pub ranks_before : Importance → Importance → Bool
ranks_before a b =
    if a.score_milli == b.score_milli
    then if a.confidence_milli == b.confidence_milli
      then text_leb a.subject_ref b.subject_ref
      else ltb b.confidence_milli a.confidence_milli
    else ltb b.score_milli a.score_milli

pub record RankAnswer : Type 0 where
  pub importance : List Importance
  pub exploration : List Importance
  pub considered : ℕ

-- rank_importance_fn; `none` where it raises. `digest` is the digest of the context and a subject, by
-- which the unranked subjects are ordered; the items are those of importance, then those of
-- exploration.
unfoldable pub rank_importance :
    (RankContext → String → String)
    → List (ℕ × AttentionItem)
    → List String
    → RankContext
    → ℕ
    → ℕ
    → Option RankAnswer
rank_importance digest m refs c limit exploration_slots =
    if ltb limit 1 || ltb limit exploration_slots
    then none
    else let rows = rows_of m c (distinct_refs [] refs) in
      let ranked = sort_by ranks_before (select (λ r. not (is_unranked r)) rows) in
      let unranked_rows =
        sort_by (λ a b. text_leb (digest c a.subject_ref) (digest c b.subject_ref))
          (select is_unranked rows) in
      let explore = take exploration_slots unranked_rows in
      some record {
        importance = take (limit - length explore) ranked;
        exploration = explore;
        considered = length rows;
      }
