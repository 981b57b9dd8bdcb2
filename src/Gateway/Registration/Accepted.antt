-- ===== src/Gateway/Registration/Accepted.antt =====
-- Accepted registrations, and the declarations behind them.
use activegraph_packs.Base.{
  String, Bool, true, false, ◌||◌, Option, none, some, List, [], ◌∷◌, any, str_eq, eq_iff, eq_refl,
  ◌≡◌, refl, sym, ap, subst, ◌∙◌, arith, inl, inr, Bool-cases,
}
use activegraph_packs.Gateway.Registration.{
  Declaration, PackEvent, loaded, other_event, PackState, States, has_name, capabilities_of,
  apply_event, apply_events, pack_states, declared_classes, passes, declares, enabled_declares,
  check_states, check_registration,
}
use activegraph_packs.Gateway.Registration.Declared.{
  about, last_load, enabled_of, AllLast, pack_states-AllLast, has_name-kept, has_name-put_state,
}

-- A pack whose last event is a load declares the pair with these classes.
pub record Declares (events : List PackEvent) (provider capability risk action : String)
    : Type 0 where
  pub pack : String
  pub declared : List Declaration
  pub loaded_last : last_load pack events ≡ some declared
  pub classes : declared_classes provider capability declared ≡ some (risk, action)

has_name-apply_event :
    (key : String) (m : States) (e : PackEvent)
    → (has_name key m || about key e) ≡ true
    → has_name key (apply_event m e) ≡ true
unfolding apply_event
has_name-apply_event key m (loaded name d) h = elim (Bool-cases (str_eq key name)) [
  | inl f ↦ has_name-put_state key name (record { disabled = false; capabilities = d }) m f
  | inr f ↦
      has_name-kept key name (record { disabled = false; capabilities = d }) m (ground (arith, f))
]
has_name-apply_event key m (PackEvent.disabled name) h = elim (Bool-cases (str_eq key name)) [
  | inl f ↦
      has_name-put_state key name
        (record { disabled = true; capabilities = capabilities_of name m }) m f
  | inr f ↦
      has_name-kept key name (record { disabled = true; capabilities = capabilities_of name m }) m
        (ground (arith, f))
]
has_name-apply_event key m other_event h = ground arith

has_name-apply_events :
    (key : String) (es : List PackEvent) (m : States)
    → (has_name key m || any (about key) es) ≡ true
    → has_name key (apply_events m es) ≡ true
unfolding apply_events
has_name-apply_events key [] m h = ground arith
has_name-apply_events key (e ∷ es) m h =
    has_name-apply_events key es (apply_event m e) (elim (Bool-cases (any (about key) es)) [
      | inl f ↦ ground (arith, f)
      | inr f ↦ ground (arith, f, has_name-apply_event key m e)
    ])

last_load-about :
    (key : String) (es : List PackEvent) (d : List Declaration)
    → last_load key es ≡ some d
    → any (about key) es ≡ true
unfolding last_load
last_load-about key [] d h = ground arith
last_load-about key (loaded n c ∷ es) d h = ground arith
last_load-about key (PackEvent.disabled n ∷ es) d h = ground arith
last_load-about key (other_event ∷ es) d h = ground arith

passes_inv :
    (test : String × String → Bool) (classes : Option (String × String))
    → passes test classes ≡ true
    → (risk : String) × (action : String) × (classes ≡ some (risk, action))
      × (test (risk, action) ≡ true)
passes_inv test none h = ground arith
passes_inv test (some (risk, action)) h = (risk, action, refl, h)

enabled_declares_inv :
    (provider capability : String) (test : String × String → Bool) (t : PackState)
    → enabled_declares provider capability test t ≡ true
    → (enabled_of t ≡ some t.capabilities)
      × ((risk : String) × (action : String) × (declared_classes provider capability t.capabilities
            ≡ some (risk, action))
          × (test (risk, action) ≡ true))
enabled_declares_inv provider capability test t h = (
  ground arith,
  passes_inv test (declared_classes provider capability t.capabilities) (ground arith),
)

-- Some state passes, so a pack passes that the log says is enabled.
any-Declares :
    (events : List PackEvent) (provider capability : String) (test : String × String → Bool)
    (m : States)
    → AllLast events m
    → any (λ x. enabled_declares provider capability test x.1) m ≡ true
    → (risk : String) × (action : String) × (test (risk, action) ≡ true)
      × Declares events provider capability risk action
any-Declares events provider capability test [] h e = ground arith
any-Declares events provider capability test ((j, t) ∷ m) h e =
    elim (Bool-cases (enabled_declares provider capability test t)) [
      | inl f ↦
          let (on, (risk, action, classes, ok)) =
            enabled_declares_inv provider capability test t f in
          (
            risk,
            action,
            ok,
            record {
              pack = j;
              declared = t.capabilities;
              loaded_last = sym h.0 ∙ on;
              classes = classes;
            },
          )
      | inr f ↦ any-Declares events provider capability test m h.1 (ground (arith, f))
    ]

-- An armed check that accepts a native registration: a pack that is enabled, by the log, declares the
-- capability with that risk class, and one declares it with that action class.
pub check_registration_accepts :
    (events : List PackEvent) (provider capability risk action : String)
    → check_registration (some events) provider capability risk "native" action ≡ none
    → ((other_action : String) × Declares events provider capability risk other_action)
      × ((other_risk : String) × Declares events provider capability other_risk action)
unfolding check_registration check_states
check_registration_accepts events provider capability risk action h =
    let m = pack_states events in
    let last = pack_states-AllLast events in
    let by_risk : any (λ x. enabled_declares provider capability (λ c. str_eq c.0 risk) x.1) m
        ≡ true =
      ground arith in
    let by_action : any (λ x. enabled_declares provider capability (λ c. str_eq c.1 action) x.1) m
        ≡ true =
      ground arith in
    let (r, a, same, one) =
      any-Declares events provider capability (λ c. str_eq c.0 risk) m last by_risk in
    let (r', a', same', two) =
      any-Declares events provider capability (λ c. str_eq c.1 action) m last by_action in
    (
      (a, subst (λ x. Declares events provider capability x a) ((eq_iff r risk).0 same) one),
      (r', subst (λ x. Declares events provider capability r' x) ((eq_iff a' action).0 same') two),
    )

enabled_of_inv :
    (t : PackState) (declared : List Declaration)
    → enabled_of t ≡ some declared
    → (t.disabled ≡ false) × (t.capabilities ≡ declared)
enabled_of_inv t declared h = (ground arith, ground arith)

enabled_declares_of :
    (provider capability : String) (test : String × String → Bool) (t : PackState)
    (declared : List Declaration) (classes : String × String)
    → enabled_of t ≡ some declared
    → declared_classes provider capability declared ≡ some classes
    → test classes ≡ true
    → enabled_declares provider capability test t ≡ true
enabled_declares_of provider capability test t declared classes on c ok =
    let (enabled, same) = enabled_of_inv t declared on in rw (enabled, same, c, ok) refl

-- A state of the pack is found and enabled, so the tests that its classes pass succeed.
Declares-any :
    (events : List PackEvent) (provider capability risk action : String)
    (test : String × String → Bool) (pack : String) (declared : List Declaration) (m : States)
    → last_load pack events ≡ some declared
    → declared_classes provider capability declared ≡ some (risk, action)
    → test (risk, action) ≡ true
    → AllLast events m
    → has_name pack m ≡ true
    → any (λ x. enabled_declares provider capability test x.1) m ≡ true
Declares-any events provider capability risk action test pack declared [] l c ok h n = ground arith
Declares-any events provider capability risk action test pack declared ((j, t) ∷ m) l c ok h n =
    elim (Bool-cases (str_eq j pack)) [
      | inl f ↦
          let on = h.0 ∙ ap (λ x. last_load x events) ((eq_iff j pack).0 f) ∙ l in
          rw (enabled_declares_of provider capability test t declared (risk, action) on c ok) refl
      | inr f ↦
          let rest =
            Declares-any events provider capability risk action test pack declared m l c ok h.1
              (rw f at n) in
          rw rest (ground arith)
    ]

enabled-declares :
    (provider capability : String) (m : States)
    → any (λ x. enabled_declares provider capability (λ c. true) x.1) m ≡ true
    → any (λ x. declares provider capability (λ c. true) x.1) m ≡ true
enabled-declares provider capability [] h = h
enabled-declares provider capability ((j, t) ∷ m) h =
    elim (Bool-cases (declares provider capability (λ c. true) t)) [
      | inl f ↦ rw f refl
      | inr f ↦ rw f (enabled-declares provider capability m (ground (arith, f)))
    ]

-- A registration with the classes with which an enabled pack declares the capability is accepted,
-- from whatever origin and whatever other packs declare.
pub check_registration_declared :
    (events : List PackEvent) (provider capability risk action origin : String)
    → Declares events provider capability risk action
    → check_registration (some events) provider capability risk origin action ≡ none
unfolding check_registration check_states pack_states
check_registration_declared events provider capability risk action origin d =
    let m = pack_states events in
    let there : has_name d.pack m ≡ true =
      has_name-apply_events d.pack events []
        (last_load-about d.pack events d.declared d.loaded_last) in
    let found = λ (test : String × String → Bool) (ok : test (risk, action) ≡ true).
      Declares-any events provider capability risk action test d.pack d.declared m d.loaded_last
        d.classes ok (pack_states-AllLast events) there in
    let on = found (λ c. true) refl in
    elim (Bool-cases (str_eq origin "native")) [
      | inr f ↦ rw (f, check_registration) refl
      | inl f ↦
          rw
            (
              f,
              check_registration,
              enabled-declares provider capability m on,
              on,
              found (λ c. str_eq c.0 risk) (eq_refl risk),
              found (λ c. str_eq c.1 action) (eq_refl action),
            )
            refl
    ]
