-- ===== src/Attention/Observations.antt =====
-- record_attention_observation_fn of packs/attention/tools.py and semantic_attention_signal_capture
-- of its behaviors.py. Each answers or raises beside the graph that it leaves.
use activegraph_packs.Base.{
  ℕ, String, Bool, true, false, ◌&&◌, ◌||◌, not, Option, none, some, List, [], ◌∷◌, find?, get_or,
  leb, ◌==◌, str_eq, if◌then◌else◌,
}
use activegraph_packs.Graph.{Graph}
use activegraph_packs.Attention.{
  SignalType, impression, opened, active_dwell, revisited, created, edited, replied, completed,
  dismissed, archived, explicit_important, explicit_not_important, llm_judgment, nonresponse_window,
  AttentionObservation, InteractionBatch, AttentionItem, attention_observation, interaction_batch,
  text_or,
}

unfoldable pub observations : List (ℕ × AttentionItem) → List (ℕ × AttentionObservation)
observations [] = []
observations ((k, attention_observation o) ∷ m) = (k, o) ∷ observations m
observations ((k, _) ∷ m) = observations m

unfoldable pub batches : List (ℕ × AttentionItem) → List (ℕ × InteractionBatch)
batches [] = []
batches ((k, interaction_batch b) ∷ m) = (k, b) ∷ batches m
batches ((k, _) ∷ m) = batches m

-- _object_by_field for an observation's id.
unfoldable pub observation_by_id :
    List (ℕ × AttentionItem) → String → Option (ℕ × AttentionObservation)
observation_by_id m id = find? (λ e. str_eq e.1.observation_id id) (observations m)

unfoldable pub batch_by_id : List (ℕ × AttentionItem) → String → Option (ℕ × InteractionBatch)
batch_by_id m id = find? (λ e. str_eq e.1.batch_id id) (batches m)

-- Fields that are optional texts and lists of texts, compared as Python does.
abbrev pub option_eq : Option String → Option String → Bool
option_eq none none = true
option_eq (some a) (some b) = str_eq a b
option_eq _ _ = false

abbrev pub number_eq : Option ℕ → Option ℕ → Bool
number_eq none none = true
number_eq (some a) (some b) = a == b
number_eq _ _ = false

abbrev pub texts_eq : List String → List String → Bool
texts_eq [] [] = true
texts_eq (a ∷ s) (b ∷ t) = str_eq a b && texts_eq s t
texts_eq _ _ = false

abbrev pub flag_eq : Bool → Bool → Bool
flag_eq true b = b
flag_eq false b = not b

-- A number for each signal, to compare them.
abbrev pub signal_code : SignalType → ℕ
signal_code impression = 0
signal_code opened = 1
signal_code active_dwell = 2
signal_code revisited = 3
signal_code created = 4
signal_code edited = 5
signal_code replied = 6
signal_code completed = 7
signal_code dismissed = 8
signal_code archived = 9
signal_code explicit_important = 10
signal_code explicit_not_important = 11
signal_code nonresponse_window = 12
signal_code llm_judgment = 13

-- `dict(existing.data) == payload`
unfoldable pub observation_eq : AttentionObservation → AttentionObservation → Bool
observation_eq a b =
    str_eq a.observation_id b.observation_id
    && str_eq a.subject_ref b.subject_ref
    && (str_eq a.subject_kind b.subject_kind
        && signal_code a.signal_type == signal_code b.signal_type)
    && (a.strength_milli == b.strength_milli && str_eq a.context_key b.context_key)
    && (option_eq a.objective_ref b.objective_ref && str_eq a.horizon_key b.horizon_key)
    && (option_eq a.session_id b.session_id && option_eq a.opportunity_id b.opportunity_id)
    && (number_eq a.active_ms b.active_ms && option_eq a.occurred_at b.occurred_at)
    && (str_eq a.source b.source && flag_eq a.explicit b.explicit)
    && (texts_eq a.evidence_refs b.evidence_refs && str_eq a.metadata b.metadata)

-- The validation of the type AttentionObservation, beside what the fields' types say.
unfoldable pub is_valid : AttentionObservation → Bool
is_valid o =
    not (str_eq o.observation_id "")
    && not (str_eq o.subject_ref "")
    && (not (str_eq o.subject_kind "") && not (str_eq o.context_key ""))
    && (not (str_eq o.horizon_key "") && leb o.strength_milli 1000)
    && (str_eq o.source "client"
        || str_eq o.source "connector"
        || str_eq o.source "user"
        || str_eq o.source "agent"
        || str_eq o.source "importer")

-- `signal_type == "nonresponse_window" and not opportunity_id`
abbrev pub is_censored : AttentionObservation → Bool
is_censored o =
    signal_code o.signal_type == signal_code nonresponse_window
    && str_eq (text_or o.opportunity_id "") ""

pub data AttentionError : Type 0 where
  needs_opportunity not_valid id_collision too_many batch_mismatch : AttentionError
  batch_refused : AttentionError

pub data Observed (A : Type 0) : Type 0 where
  answered : A → Observed A
  raised : AttentionError → Observed A

-- A row of a batch or of an event: the keys that are given.
pub record ObservationRow : Type 0 where
  pub observation_id : Option String
  pub subject_ref : Option String
  -- a signal type that is known
  pub signal_type : Option SignalType
  pub subject_kind : Option String
  pub strength_milli : Option ℕ
  pub context_key : Option String
  pub objective_ref : Option String
  pub horizon_key : Option String
  pub opportunity_id : Option String
  pub active_ms : Option ℕ
  pub occurred_at : Option String
  pub source : Option String
  pub explicit : Bool
  pub evidence_refs : List String
  -- with what the row has beside these keys
  pub metadata : String

-- The observation of a row; `none` where a key is missing or the validation fails.
unfoldable pub observation_of :
    ObservationRow → String → Option String → String → Option AttentionObservation
observation_of r id session_id source = elim r.subject_ref [
  | none ↦ none
  | some subject_ref ↦ elim r.signal_type [
    | none ↦ none
    | some signal_type ↦
        let o : AttentionObservation = record {
          observation_id = id;
          subject_ref = subject_ref;
          subject_kind = get_or "object" r.subject_kind;
          signal_type = signal_type;
          strength_milli = get_or 1000 r.strength_milli;
          context_key = get_or "global" r.context_key;
          objective_ref = r.objective_ref;
          horizon_key = get_or "current" r.horizon_key;
          session_id = session_id;
          opportunity_id = r.opportunity_id;
          active_ms = r.active_ms;
          occurred_at = r.occurred_at;
          source = get_or source r.source;
          explicit = r.explicit;
          evidence_refs = r.evidence_refs;
          metadata = r.metadata;
        } in
        if is_valid o then some o else none
  ]
]

module _ {G : Type 0} (graph : Graph AttentionItem G) where
  -- record_attention_observation_fn: if it is new, and the object's id.
  unfoldable pub record_attention_observation : AttentionObservation → G → Observed (Bool × ℕ) × G
  record_attention_observation o g =
      if is_censored o
      then (raised needs_opportunity, g)
      else if not (is_valid o)
      then (raised not_valid, g)
      else elim (observation_by_id (graph.objects g) o.observation_id) [
        | none ↦
            let (k, g1) = graph.add_object g (attention_observation o) in (answered (true, k), g1)
        | some (k, x) ↦
            if observation_eq x o then (answered (false, k), g) else (raised id_collision, g)
      ]

-- The observation of a row that must have an id.
abbrev pub signal_observation : ObservationRow → Option AttentionObservation
signal_observation r = elim r.observation_id [
  | none ↦ none
  | some id ↦ observation_of r id none "connector"
]

module _ {G : Type 0} (graph : Graph AttentionItem G) (reads : G → List (ℕ × AttentionItem)) where
  -- One row of a signal: `none` beside the graph where the row is kept or there already.
  unfoldable pub capture_observation : Option AttentionObservation → G → Option AttentionError × G
  capture_observation none g = (some not_valid, g)
  capture_observation (some o) g =
      if is_censored o
      then (some needs_opportunity, g)
      else elim (observation_by_id (reads g) o.observation_id) [
        | none ↦ (none, (graph.add_object g (attention_observation o)).1)
        | some (k, x) ↦ if observation_eq x o then (none, g) else (some id_collision, g)
      ]

  -- semantic_attention_signal_capture, on the rows that are dicts; the rows before one that raises
  -- are kept.
  unfoldable pub semantic_attention_signal_capture :
      List ObservationRow → G → Option AttentionError × G
  semantic_attention_signal_capture [] g = (none, g)
  semantic_attention_signal_capture (r ∷ rows) g =
      let (error, g1) = capture_observation (signal_observation r) g in
      elim error [ some x ↦ (some x, g1) | none ↦ semantic_attention_signal_capture rows g1 ]
