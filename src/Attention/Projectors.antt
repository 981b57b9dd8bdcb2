-- ===== src/Attention/Projectors.antt =====
-- importance_vector_projector and source_trust_vector_projector of packs/attention/behaviors.py.
use activegraph_packs.Base.{
  ℕ, ◌+◌, ◌*◌, ◌/◌, String, Bool, true, false, ◌&&◌, ◌||◌, not, Option, none, some, List, [], ◌∷◌,
  ◌++◌, any, find?, str_eq, if◌then◌else◌,
}
use activegraph_packs.Graph.{Graph}
use activegraph_packs.Outcome.{OutcomeKind}
use activegraph_packs.Attention.{
  SignalType, explicit_important, explicit_not_important, AttentionObservation, ImportanceVector,
  VectorKey, TrustKey, SourceTrustVector, AttentionItem, importance_vector, source_trust_vector,
  Weight, plus, minus, importance_weight, outcome_weight, importance_score, trust_score,
  add_feature, text_or,
}

unfoldable pub importance_vectors : List (ℕ × AttentionItem) → List (ℕ × ImportanceVector)
importance_vectors [] = []
importance_vectors ((k, importance_vector v) ∷ m) = (k, v) ∷ importance_vectors m
importance_vectors ((k, _) ∷ m) = importance_vectors m

unfoldable pub trust_vectors : List (ℕ × AttentionItem) → List (ℕ × SourceTrustVector)
trust_vectors [] = []
trust_vectors ((k, source_trust_vector v) ∷ m) = (k, v) ∷ trust_vectors m
trust_vectors ((k, _) ∷ m) = trust_vectors m

abbrev pub key_eq : VectorKey → VectorKey → Bool
key_eq a b =
    str_eq a.subject_ref b.subject_ref
    && str_eq a.context_key b.context_key
    && (str_eq a.objective_ref b.objective_ref && str_eq a.horizon_key b.horizon_key)

abbrev pub trust_key_eq : TrustKey → TrustKey → Bool
trust_key_eq a b =
    str_eq a.source_ref b.source_ref
    && (str_eq a.domain b.domain && str_eq a.query_scope b.query_scope)

abbrev pub key_of_observation : AttentionObservation → VectorKey
key_of_observation o = record {
  subject_ref = o.subject_ref;
  context_key = text_or (some o.context_key) "global";
  objective_ref = text_or o.objective_ref "";
  horizon_key = text_or (some o.horizon_key) "current";
}

abbrev pub is_explicit : SignalType → Bool
is_explicit explicit_important = true
is_explicit explicit_not_important = true
is_explicit _ = false

abbrev pub magnitude : Weight → ℕ
magnitude (plus n) = n
magnitude (minus n) = n

-- The feature and the contribution; an explicit signal counts only as the owner's explicit act.
unfoldable pub contribution_of : AttentionObservation → String × ℕ
contribution_of o =
    let (feature, weight) = importance_weight o.signal_type in
    if is_explicit o.signal_type && not o.explicit
    then ("unverified_explicit", 0)
    else (feature, magnitude weight * o.strength_milli / 1000)

-- `if weight > 0` and `elif weight < 0`: the sums after the contribution.
abbrev pub add_weighted : Weight → ℕ → ℕ × ℕ → ℕ × ℕ
add_weighted (plus n) c (support, oppose) = (support + c, oppose)
add_weighted (minus n) c (support, oppose) = (support, oppose + c)

-- The sums, the features and the observations of a vector that stands, empty at first.
pub record Evidence : Type 0 where
  pub support : ℕ
  pub oppose : ℕ
  pub features : List (String × ℕ)
  pub ids : List String

abbrev pub no_evidence : Evidence
no_evidence = record { support = 0; oppose = 0; features = []; ids = [] }

abbrev pub vector_evidence : Option (ℕ × ImportanceVector) → Evidence
vector_evidence none = no_evidence
vector_evidence (some (k, v)) = record {
  support = v.support_milli;
  oppose = v.oppose_milli;
  features = v.features;
  ids = v.observation_ids;
}

abbrev pub trust_evidence : Option (ℕ × SourceTrustVector) → Evidence
trust_evidence none = no_evidence
trust_evidence (some (k, v)) = record {
  support = v.support_milli;
  oppose = v.challenge_milli;
  features = v.features;
  ids = v.outcome_event_ids;
}

-- The evidence with one more item.
unfoldable pub add_evidence : String → String → Weight → ℕ → Evidence → Evidence
add_evidence id feature weight c e =
    let (support, oppose) = add_weighted weight c (e.support, e.oppose) in
    record {
      support = support;
      oppose = oppose;
      features = add_feature feature c e.features;
      ids = e.ids ++ id ∷ [];
    }

unfoldable pub vector_of : AttentionObservation → Evidence → ImportanceVector
vector_of o e =
    let (score, confidence, band) = importance_score e.support e.oppose in
    record {
      vector_key = key_of_observation o;
      subject_ref = o.subject_ref;
      subject_kind = text_or (some o.subject_kind) "object";
      context_key = text_or (some o.context_key) "global";
      objective_ref = if str_eq (text_or o.objective_ref "") "" then none else o.objective_ref;
      horizon_key = text_or (some o.horizon_key) "current";
      score_milli = score;
      confidence_milli = confidence;
      priority_band = band;
      support_milli = e.support;
      oppose_milli = e.oppose;
      features = e.features;
      observation_ids = e.ids;
      latest_observation_id = o.observation_id;
    }

-- What an observation adds to the evidence of its vector.
unfoldable pub observed : AttentionObservation → Evidence → Evidence
observed o e =
    let (feature, c) = contribution_of o in
    add_evidence o.observation_id feature (importance_weight o.signal_type).1 c e

abbrev pub has_text : String → List String → Bool
has_text t ts = any (λ u. str_eq u t) ts

-- A row of the payload's trust_sources, and a source that has a reference.
pub record TrustRow : Type 0 where
  pub source_ref : Option String
  pub source_kind : Option String
  pub domain : Option String
  pub query_scope : Option String

pub record TrustSource : Type 0 where
  pub source_ref : String
  pub source_kind : Option String
  pub domain : Option String
  pub query_scope : Option String

-- What the projector reads of the payload's source context: `trust_sources` where it is a list, the
-- rows of it that are dicts.
pub record TrustContext : Type 0 where
  pub trust_sources : Option (List TrustRow)
  pub source_ref : Option String
  pub source_surface_id : Option String
  pub source_kind : Option String
  pub domain : Option String
  pub source_category : Option String
  pub query_scope : Option String

-- The rows whose source_ref is given and not empty.
unfoldable pub named_sources : List TrustRow → List TrustSource
named_sources [] = []
named_sources (r ∷ rows) =
    let rest = named_sources rows in
    let ref = text_or r.source_ref "" in
    if str_eq ref ""
    then rest
    else record {
      source_ref = ref;
      source_kind = r.source_kind;
      domain = r.domain;
      query_scope = r.query_scope;
    }
      ∷ rest

-- _trust_sources
unfoldable pub trust_sources : TrustContext → List TrustSource
trust_sources c = elim c.trust_sources [
  | some rows ↦ named_sources rows
  | none ↦
      let ref = text_or c.source_ref (text_or c.source_surface_id "") in
      if str_eq ref ""
      then []
      else record {
        source_ref = ref;
        source_kind = some (text_or c.source_kind "source");
        domain = some (text_or c.domain (text_or c.source_category "general"));
        query_scope = some (text_or c.query_scope "general");
      }
        ∷ []
]

abbrev pub key_of_source : TrustSource → TrustKey
key_of_source s = record {
  source_ref = s.source_ref;
  domain = text_or s.domain "general";
  query_scope = text_or s.query_scope "general";
}

unfoldable pub trust_of : String → TrustSource → Evidence → SourceTrustVector
trust_of event_id s e =
    let (score, confidence, verdict) = trust_score e.support e.oppose in
    record {
      vector_key = key_of_source s;
      source_kind = text_or s.source_kind "source";
      score_milli = score;
      confidence_milli = confidence;
      verdict = verdict;
      support_milli = e.support;
      challenge_milli = e.oppose;
      features = e.features;
      outcome_event_ids = e.ids;
      latest_outcome_event_id = event_id;
    }

-- A patch with all the fields of a new vector.
abbrev pub set_item : AttentionItem → AttentionItem → AttentionItem
set_item new old = new

abbrev pub id_of {ℓ} : {V : Type ℓ} → Option (ℕ × V) → Option ℕ
id_of none = none
id_of (some e) = some e.0

module _ {G : Type 0} (graph : Graph AttentionItem G) where
  -- The new vector, or the one that stands patched; `none` where the patch raises.
  unfoldable pub store_vector : AttentionItem → Option ℕ → G → Option G
  store_vector new none g = some (graph.add_object g new).1
  store_vector new (some k) g = graph.patch_object g k (set_item new)

  -- importance_vector_projector, on the observation of the created object, which has an id where
  -- its type was validated.
  unfoldable pub importance_vector_projector :
      AttentionObservation → List (ℕ × AttentionItem) → G → Option G
  importance_vector_projector o view g =
      let key = key_of_observation o in
      let existing = find? (λ e. key_eq e.1.vector_key key) (importance_vectors view) in
      let e = vector_evidence existing in
      if str_eq o.observation_id "" || (str_eq o.subject_ref "" || has_text o.observation_id e.ids)
      then some g
      else store_vector (importance_vector (vector_of o (observed o e))) (id_of existing) g

  -- One source of an outcome's event.
  unfoldable pub project_source :
      OutcomeKind → String → TrustSource → List (ℕ × AttentionItem) → G → Option G
  project_source kind event_id s view g =
      let existing =
        find? (λ e. trust_key_eq e.1.vector_key (key_of_source s)) (trust_vectors view) in
      let e = trust_evidence existing in
      let (feature, weight) = outcome_weight kind in
      if has_text event_id e.ids
      then some g
      else let new =
          trust_of event_id s (add_evidence event_id feature weight (magnitude weight) e) in
        store_vector (source_trust_vector new) (id_of existing) g

module _ {G : Type 0} (graph : Graph AttentionItem G) (reads : G → List (ℕ × AttentionItem)) where
  -- The loop over the sources, each reading the view again.
  unfoldable pub project_sources : OutcomeKind → String → List TrustSource → G → Option G
  project_sources kind event_id [] g = some g
  project_sources kind event_id (s ∷ ss) g =
      elim (project_source graph kind event_id s (reads g) g) [
        | none ↦ none
        | some g1 ↦ project_sources kind event_id ss g1
      ]

  -- source_trust_vector_projector
  unfoldable pub source_trust_vector_projector : OutcomeKind → String → TrustContext → G → Option G
  source_trust_vector_projector kind event_id c g =
      project_sources kind event_id (trust_sources c) g
