-- ===== src/Gateway/Registration/Declared.antt =====
-- Which packs the log says are enabled, and what the fold of _pack_states has of them.
use activegraph_packs.Base.{
  String, Bool, true, false, ◌||◌, Option, none, some, List, [], ◌∷◌, ◌++◌, any, All, str_eq,
  eq_iff, eq_refl, ◌≡◌, refl, sym, ap, subst, ◌∙◌, arith, Bool-cases, inl, inr, if◌then◌else◌,
  append-nil,
}
use activegraph_packs.Gateway.Registration.{
  Declaration, PackEvent, loaded, other_event, PackState, States, set_all, has_name, put_state,
  capabilities_of, apply_event, apply_events, pack_states,
}

-- The event is about the pack.
abbrev pub about : String → PackEvent → Bool
about name (loaded n d) = str_eq name n
about name (PackEvent.disabled n) = str_eq name n
about name other_event = false

abbrev load_of : String → PackEvent → Option (List Declaration)
load_of name (loaded n d) = if str_eq name n then some d else none
load_of name _ = none

-- What the pack declares, if the last event about it is a load.
unfoldable pub last_load : String → List PackEvent → Option (List Declaration)
last_load name [] = none
last_load name (e ∷ es) =
    let rest = last_load name es in if any (about name) es then rest else load_of name e

any_snoc :
    (name : String) (es : List PackEvent) (e : PackEvent)
    → any (about name) (es ++ e ∷ []) ≡ (any (about name) es || about name e)
any_snoc name [] e = ground arith
any_snoc name (x ∷ xs) e = ground (arith, any_snoc name xs e)

load_of-none : (name : String) (e : PackEvent) → about name e ≡ false → load_of name e ≡ none
load_of-none name (loaded n d) h = ground arith
load_of-none name (PackEvent.disabled n) h = refl
load_of-none name other_event h = refl

last_load_snoc :
    (name : String) (es : List PackEvent) (e : PackEvent)
    → last_load name (es ++ e ∷ []) ≡ (if about name e then load_of name e else last_load name es)
unfolding last_load
last_load_snoc name [] e = ground (arith, load_of-none name e)
last_load_snoc name (x ∷ xs) e =
    ground (arith, any_snoc name xs e, last_load_snoc name xs e, load_of-none name e)

abbrev pub enabled_of : PackState → Option (List Declaration)
enabled_of s = if s.disabled then none else some s.capabilities

-- Every state says what the log does.
abbrev pub AllLast : List PackEvent → States → Type 0
AllLast es m = All (λ x. enabled_of x.1 ≡ last_load x.0 es) m

-- What a state must be after an event about its pack.
abbrev Writes : String → PackState → PackEvent → Type 0
Writes name s e =
    ((j : String) → about j e ≡ str_eq j name)
    × ((j : String) → str_eq j name ≡ true → load_of j e ≡ enabled_of s)

set_all-AllLast :
    (name : String) (s : PackState) (e : PackEvent) (es : List PackEvent) (m : States)
    → Writes name s e
    → AllLast es m
    → AllLast (es ++ e ∷ []) (set_all name s m)
set_all-AllLast name s e es [] w h = tt
set_all-AllLast name s e es ((j, t) ∷ m) w h = (
  elim (Bool-cases (str_eq j name)) [
    | inl f ↦ rw (f, last_load_snoc j es e, w.0 j, f) (sym (w.1 j f))
    | inr f ↦ rw (f, last_load_snoc j es e, w.0 j, f) h.0
  ],
  set_all-AllLast name s e es m w h.1,
)

append-AllLast :
    (name : String) (s : PackState) (e : PackEvent) (es : List PackEvent) (m : States)
    → Writes name s e
    → has_name name m ≡ false
    → AllLast es m
    → AllLast (es ++ e ∷ []) (m ++ (name, s) ∷ [])
append-AllLast name s e es [] w absent h =
    (rw (last_load_snoc name es e, w.0 name, eq_refl name) (sym (w.1 name (eq_refl name))), tt)
append-AllLast name s e es ((j, t) ∷ m) w absent h = elim (Bool-cases (str_eq j name)) [
  | inl f ↦ ground (arith, f)
  | inr f ↦ (
    rw (last_load_snoc j es e, w.0 j, f) h.0,
    append-AllLast name s e es m w (rw f at absent) h.1,
  )
]

put_state-AllLast :
    (name : String) (s : PackState) (e : PackEvent) (es : List PackEvent) (m : States)
    → Writes name s e
    → AllLast es m
    → AllLast (es ++ e ∷ []) (put_state name s m)
unfolding put_state
put_state-AllLast name s e es m w h = elim (Bool-cases (has_name name m)) [
  | inl f ↦ rw (f, put_state) (set_all-AllLast name s e es m w h)
  | inr f ↦ rw (f, put_state) (append-AllLast name s e es m w f h)
]

other-AllLast :
    (es : List PackEvent) (m : States) → AllLast es m → AllLast (es ++ other_event ∷ []) m
other-AllLast es [] h = tt
other-AllLast es ((j, t) ∷ m) h = (rw (last_load_snoc j es other_event) h.0, other-AllLast es m h.1)

apply_event-AllLast :
    (e : PackEvent) (es : List PackEvent) (m : States)
    → AllLast es m
    → AllLast (es ++ e ∷ []) (apply_event m e)
unfolding apply_event
apply_event-AllLast (loaded name d) es m h =
    put_state-AllLast name (record { disabled = false; capabilities = d }) (loaded name d) es m
      (λ j. refl, λ j f. rw f refl) h
apply_event-AllLast (PackEvent.disabled name) es m h =
    put_state-AllLast name (record { disabled = true; capabilities = capabilities_of name m })
      (PackEvent.disabled name) es m (λ j. refl, λ j f. refl) h
apply_event-AllLast other_event es m h = other-AllLast es m h

snoc_append :
    (es : List PackEvent) (e : PackEvent) (fs : List PackEvent)
    → (es ++ e ∷ []) ++ fs ≡ es ++ e ∷ fs
snoc_append [] e fs = refl
snoc_append (x ∷ xs) e fs = ap (λ l. x ∷ l) (snoc_append xs e fs)

apply_events-AllLast :
    (fs es : List PackEvent) (m : States) → AllLast es m → AllLast (es ++ fs) (apply_events m fs)
unfolding apply_events
apply_events-AllLast [] es m h = subst (λ l. AllLast l m) (sym (append-nil es)) h
apply_events-AllLast (e ∷ fs) es m h =
    subst (λ l. AllLast l (apply_events (apply_event m e) fs)) (snoc_append es e fs)
      (apply_events-AllLast fs (es ++ e ∷ []) (apply_event m e) (apply_event-AllLast e es m h))

pub pack_states-AllLast : (events : List PackEvent) → AllLast events (pack_states events)
unfolding pack_states
pack_states-AllLast events = apply_events-AllLast events [] [] tt

-- Which packs have a state.
str_eq_sym : (a b : String) → str_eq a b ≡ str_eq b a
str_eq_sym a b = elim (Bool-cases (str_eq a b)) [
  | inl e ↦ rw (e, (eq_iff a b).0 e) (sym (eq_refl b))
  | inr e ↦ elim (Bool-cases (str_eq b a)) [
    | inl f ↦ ground (arith, ap (λ x. str_eq x b) ((eq_iff b a).0 f), eq_refl b)
    | inr f ↦ e ∙ sym f
  ]
]

has_name-set_all :
    (key name : String) (s : PackState) (m : States)
    → has_name key (set_all name s m) ≡ has_name key m
has_name-set_all key name s [] = refl
has_name-set_all key name s ((j, t) ∷ m) = rw (has_name-set_all key name s m)

has_name-append :
    (key name : String) (s : PackState) (m : States)
    → has_name key (m ++ (name, s) ∷ []) ≡ (has_name key m || str_eq name key)
has_name-append key name s [] = ground arith
has_name-append key name s ((j, t) ∷ m) = ground (arith, has_name-append key name s m)

pub has_name-put_state :
    (key name : String) (s : PackState) (m : States)
    → str_eq key name ≡ true
    → has_name key (put_state name s m) ≡ true
unfolding put_state
has_name-put_state key name s m h = elim (Bool-cases (has_name name m)) [
  | inl f ↦ rw (f, put_state, has_name-set_all key name s m) (rw ((eq_iff key name).0 h) f)
  | inr f ↦
      rw (f, put_state, has_name-append key name s m, sym (str_eq_sym key name), h) (ground arith)
]

pub has_name-kept :
    (key name : String) (s : PackState) (m : States)
    → has_name key m ≡ true
    → has_name key (put_state name s m) ≡ true
unfolding put_state
has_name-kept key name s m h = elim (Bool-cases (has_name name m)) [
  | inl f ↦ rw (f, put_state, has_name-set_all key name s m) h
  | inr f ↦ rw (f, put_state, has_name-append key name s m, h) refl
]
