-- ===== src/Reader/InFlight/SingleFlight.antt =====
-- At most one flight of a key runs at a time, and callers that come while it runs join it.
use event_driven_platform.Prelude.{
  ℕ, suc, ◌≤◌, ◌==◌, ==_iff, Bool, true, false, Bool-cases, if◌then◌else◌, Text, [], ◌∷◌, ◌++◌,
  Option, none, some, or_else, ◌≡◌, refl, sym, ap, ◌∙◌, ◌≢◌, inl, inr, arith,
}
use event_driven_platform.JavaScript.{same, map_get, map_delete, map_set}
use event_driven_platform.JavaScript.Maps.{
  same→≡, same_refl, Distinct, set-absent, append-Distinct, delete-Distinct,
}
use event_driven_platform.JavaScript.Lookups.{get→has, get-append, get-delete}
use mathlib.Core.Option.{map as map_option}
use event_driven_platform.JavaScript.Quoting.{stringify-injective}
use event_driven_platform.ReadCacheInMemory.{TenantScopedReadCacheKey}
use event_driven_platform.ReadCacheInMemory.Keys.{parts, key_of}
use event_driven_platform.Reader.InFlight.{
  LocalReadInFlight, FlightRole, joined, led, identity_of, join_or_start, run, is_flight,
  settle_flight, Running, update_running, after_run, Reachable, start, runs, settles,
}

abbrev Identified : Type 0
Identified = ℕ → Option Text

-- the map has just the running flights, by their identities
pub record Accurate (s : LocalReadInFlight) (running : Identified) : Type 0 where
  pub distinct : Distinct s.flights
  pub listed :
      (identity : Text) (f : ℕ) → map_get identity s.flights ≡ some f → running f ≡ some identity
  pub found :
      (identity : Text) (f : ℕ) → running f ≡ some identity → map_get identity s.flights ≡ some f
  pub fresh : (f : ℕ) → s.started ≤ f → running f ≡ none

-- a role that fits the flights that run, by key or by identity: one to join, or none
abbrev pub RoleFits : {X : Type 0} → (ℕ → Option X) → X → FlightRole → Type 0
RoleFits running key (joined flight) =
    (running flight ≡ some key) × ((g : ℕ) → running g ≡ some key → g ≡ flight)
RoleFits running key (led flight) = (running flight ≡ none) × ((g : ℕ) → running g ≢ some key)

none_not_some : {A : Type 0} {a : A} → ◌≡◌ {A = Option A} none (some a) → ⊥
none_not_some e = cc

true_not_false : ◌≡◌ {A = Bool} true false → ⊥
true_not_false e = cc

some-injective : {A : Type 0} {a b : A} → some a ≡ some b → a ≡ b
some-injective {a} e = ap (λ o. or_else o a) e

when_true : {A : Type 0} (b : Bool) (x y z : A) → b ≡ true → (if b then x else y) ≡ z → x ≡ z
when_true true x y z t e = e
when_true false x y z t e = absurd (true_not_false (sym t))

when_false : {A : Type 0} (b : Bool) (x y z : A) → b ≡ false → (if b then x else y) ≡ z → y ≡ z
when_false true x y z t e = absurd (true_not_false t)
when_false false x y z t e = e

module _ (s : LocalReadInFlight) (running : Identified) (h : Accurate s running) (identity : Text)
    (absent : map_get identity s.flights ≡ none) where
  not_running : (j : Text) (f : ℕ) → running f ≡ some j → same j identity ≡ false
  not_running j f r = elim (Bool-cases (same j identity)) [
    | inr n ↦ n
    | inl t ↦
        let at_identity = ap (λ k. map_get k s.flights) (same→≡ j identity t) in
        absurd (none_not_some (sym absent ∙ sym at_identity ∙ h.found j f r))
  ]

  not_started : (j : Text) (f : ℕ) → running f ≡ some j → (f == s.started) ≡ false
  not_started j f r = elim (Bool-cases (f == s.started)) [
    | inr n ↦ n
    | inl t ↦
        let e : f ≡ s.started = (==_iff f s.started).0 t in
        absurd (none_not_some (sym (h.fresh f (omega arith)) ∙ r))
  ]

  led-listed :
      (j : Text) (f : ℕ)
      → map_get j (s.flights ++ (identity, s.started) ∷ []) ≡ some f
      → update_running s.started (some identity) running f ≡ some j
  led-listed j f e =
      let e' =
        sym (get-append j identity s.started s.flights (get→has identity s.flights absent)) ∙ e in
      elim (Bool-cases (same j identity)) [
        | inl t ↦
            let n : s.started ≡ f = some-injective (when_true (same j identity) _ _ _ t e') in
            rw ((==_iff f s.started).1 (sym n)) (ap some (sym (same→≡ j identity t)))
        | inr d ↦
            let g = h.listed j f (when_false (same j identity) _ _ _ d e') in
            rw (not_started j f g) g
      ]

  led-found :
      (j : Text) (f : ℕ)
      → update_running s.started (some identity) running f ≡ some j
      → map_get j (s.flights ++ (identity, s.started) ∷ []) ≡ some f
  led-found j f e =
      get-append j identity s.started s.flights (get→has identity s.flights absent)
      ∙ elim (Bool-cases (f == s.started)) [
        | inl t ↦
            let p : identity ≡ j = some-injective (when_true (f == s.started) _ _ _ t e) in
            let n : f ≡ s.started = (==_iff f s.started).0 t in
            rw (sym p, same_refl identity, n) refl
        | inr d ↦
            let r : running f ≡ some j = when_false (f == s.started) _ _ _ d e in
            rw (not_running j f r) (h.found j f r)
      ]

  led-Accurate :
      Accurate
        (record { flights = map_set identity s.started s.flights; started = suc s.started })
        (update_running s.started (some identity) running)
  led-Accurate =
      let missing = get→has identity s.flights absent in
      let grown = set-absent identity s.started s.flights missing in
      record {
        distinct = rw grown (append-Distinct identity s.started s.flights h.distinct missing);
        listed = λ j f e. led-listed j f (ap (λ m. map_get j m) (sym grown) ∙ e);
        found = λ j f e. ap (λ m. map_get j m) grown ∙ led-found j f e;
        fresh = λ f le.
            let d : (f == s.started) ≡ false = ground (arith, le) in rw d (h.fresh f (omega arith));
      }

module _ (s : LocalReadInFlight) (running : Identified) (h : Accurate s running) (identity : Text)
    (flight : ℕ) (r : running flight ≡ some identity) where
  settled-listed :
      (j : Text) (f : ℕ)
      → map_get j (map_delete identity s.flights) ≡ some f
      → update_running flight none running f ≡ some j
  settled-listed j f e =
      let e' = sym (get-delete j identity s.flights h.distinct) ∙ e in
      elim (Bool-cases (same j identity)) [
        | inl t ↦ absurd (none_not_some (when_true (same j identity) _ _ _ t e'))
        | inr d ↦
            let g = h.listed j f (when_false (same j identity) _ _ _ d e') in
            elim (Bool-cases (f == flight)) [
              | inr n ↦ rw n g
              | inl t ↦
                  let p = some-injective (sym g ∙ ap running ((==_iff f flight).0 t) ∙ r) in
                  absurd (
                    true_not_false
                      (sym (same_refl identity) ∙ sym (ap (λ k. same k identity) p) ∙ d))
            ]
      ]

  settled-found :
      (j : Text) (f : ℕ)
      → update_running flight none running f ≡ some j
      → map_get j (map_delete identity s.flights) ≡ some f
  settled-found j f e =
      get-delete j identity s.flights h.distinct ∙ elim (Bool-cases (f == flight)) [
        | inl t ↦ absurd (none_not_some (when_true (f == flight) _ _ _ t e))
        | inr d ↦
            let r' : running f ≡ some j = when_false (f == flight) _ _ _ d e in
            elim (Bool-cases (same j identity)) [
              | inr n ↦ rw n (h.found j f r')
              | inl t ↦
                  let at_identity = ap (λ k. map_get k s.flights) (same→≡ j identity t) in
                  let p : f ≡ flight =
                    some-injective
                      (sym (h.found j f r') ∙ at_identity ∙ h.found identity flight r) in
                  absurd (true_not_false (sym ((==_iff f flight).1 p) ∙ d))
            ]
      ]

  settled-Accurate : Accurate (settle_flight identity flight s) (update_running flight none running)
  unfolding settle_flight is_flight
  settled-Accurate =
      let mine : (flight == flight) ≡ true = (==_iff flight flight).1 refl in
      rw (h.found identity flight r, mine)
        (record {
          distinct = delete-Distinct identity s.flights h.distinct;
          listed = settled-listed;
          found = settled-found;
          fresh = λ f le. elim (Bool-cases (f == flight)) [
            | inl t ↦ rw t refl
            | inr d ↦ rw d (h.fresh f le)
          ];
        })

module _ (s : LocalReadInFlight) (running : Identified) (h : Accurate s running)
    (identity : Text) where
  join_or_start-Accurate :
      (o : Option ℕ)
      → map_get identity s.flights ≡ o
      → Accurate
          (join_or_start s identity o).1
          (after_run identity (join_or_start s identity o).0 running)
  unfolding join_or_start
  join_or_start-Accurate none e = led-Accurate s running h identity e
  join_or_start-Accurate (some active) e = h

  join_or_start-RoleFits :
      (o : Option ℕ)
      → map_get identity s.flights ≡ o
      → RoleFits running identity (join_or_start s identity o).0
  unfolding join_or_start
  join_or_start-RoleFits none e =
      (h.fresh s.started (omega arith), λ g r. none_not_some (sym e ∙ h.found identity g r))
  join_or_start-RoleFits (some active) e =
      (h.listed identity active e, λ g r. some-injective (sym (h.found identity g r) ∙ e))

-- the identities of the keys of flights
abbrev identities : Running → Identified
identities running f = map_option identity_of (running f)

identity_of-injective : (a b : TenantScopedReadCacheKey) → identity_of a ≡ identity_of b → a ≡ b
unfolding identity_of
identity_of-injective a b e = ap key_of (stringify-injective (parts a) (parts b) e)

key_of_identity :
    (o : Option TenantScopedReadCacheKey) (key : TenantScopedReadCacheKey)
    → map_option identity_of o ≡ some (identity_of key)
    → o ≡ some key
key_of_identity none key e = absurd (none_not_some e)
key_of_identity (some a) key e = ap some (identity_of-injective a key (some-injective e))

no_key : (o : Option TenantScopedReadCacheKey) → map_option identity_of o ≡ none → o ≡ none
no_key none e = refl
no_key (some a) e = absurd (none_not_some (sym e))

-- flights that fit by their identities fit by their keys
RoleFits-keys :
    (running : Running) (key : TenantScopedReadCacheKey) (role : FlightRole)
    → RoleFits (identities running) (identity_of key) role
    → RoleFits running key role
RoleFits-keys running key (joined flight) h =
    (key_of_identity (running flight) key h.0, λ g r. h.1 g (ap (map_option identity_of) r))
RoleFits-keys running key (led flight) h =
    (no_key (running flight) h.0, λ g r. h.1 g (ap (map_option identity_of) r))

identities-update :
    (flight : ℕ) (o : Option TenantScopedReadCacheKey) (running : Running) (f : ℕ)
    → update_running flight (map_option identity_of o) (identities running) f
      ≡ identities (update_running flight o running) f
identities-update flight o running f = elim (Bool-cases (f == flight)) [
  | inl t ↦ rw t refl
  | inr d ↦ rw d refl
]

identities-after_run :
    (key : TenantScopedReadCacheKey) (role : FlightRole) (running : Running) (f : ℕ)
    → after_run (identity_of key) role (identities running) f
      ≡ identities (after_run key role running) f
identities-after_run key (joined flight) running f = refl
identities-after_run key (led flight) running f = identities-update flight (some key) running f

-- only what the flights are matters, not how they are given
Accurate-cong :
    (s : LocalReadInFlight) (p q : Identified) → ((f : ℕ) → p f ≡ q f) → Accurate s p → Accurate s q
Accurate-cong s p q e h = record {
  distinct = h.distinct;
  listed = λ j f g. sym (e f) ∙ h.listed j f g;
  found = λ j f g. h.found j f (e f ∙ g);
  fresh = λ f le. sym (e f) ∙ h.fresh f le;
}

Reachable-Accurate :
    {s : LocalReadInFlight} {running : Running}
    → Reachable s running
    → Accurate s (identities running)
unfolding run map_get
Reachable-Accurate start = record {
  distinct = tt;
  listed = λ j f e. absurd (none_not_some e);
  found = λ j f e. absurd (none_not_some e);
  fresh = λ f le. refl;
}
Reachable-Accurate (runs {s} {running} key r) =
    Accurate-cong _ _ _ (identities-after_run key (run key s).0 running) (
      join_or_start-Accurate s (identities running) (Reachable-Accurate r) (identity_of key)
        (map_get (identity_of key) s.flights) refl)
Reachable-Accurate (settles {s} {running} key flight e r) =
    Accurate-cong _ _ _ (identities-update flight none running) (
      settled-Accurate s (identities running) (Reachable-Accurate r) (identity_of key) flight
        (ap (map_option identity_of) e))

-- Whatever reads have been started and settled before, in any order: a caller that joins a flight joins
-- the one flight of its key, tenant and all, that runs, and a caller leads a new flight only if none of
-- its key runs.
pub run-single_flight :
    {s : LocalReadInFlight} {running : Running}
    → Reachable s running
    → (key : TenantScopedReadCacheKey) → RoleFits running key (run key s).0
unfolding run
run-single_flight {s} {running} r key = RoleFits-keys running key (run key s).0 (
    join_or_start-RoleFits s (identities running) (Reachable-Accurate r) (identity_of key)
      (map_get (identity_of key) s.flights) refl)
