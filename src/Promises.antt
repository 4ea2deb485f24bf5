-- ===== src/Promises.antt =====
-- Promises with a guard that lets the first event settle them (waitForRelease of the Redis coordinator,
-- the default timeouts of the Runner and the Reader).
use event_driven_platform.Prelude.{List, [], ◌∷◌, ◌++◌, Option, none, some, or_else, ◌≡◌, refl}

-- `if (settled) return; settled = true; resolve(result)`
unfoldable pub settle_once : {R : Type 0} → Option R → Option R → Option R
settle_once (some settled) result = some settled
settle_once none result = result

module _ {E R : Type 0} where
  -- the promise after the events, by what each of them would settle it with
  unfoldable pub settle_all : (E → Option R) → List E → Option R → Option R
  unfolding settle_once
  settle_all settles [] settled = settled
  settle_all settles (event ∷ events) settled =
      settle_all settles events (settle_once settled (settles event))

  -- what the first event that settles anything settles
  abbrev pub first_settling : (E → Option R) → List E → Option R
  first_settling settles [] = none
  first_settling settles (event ∷ events) =
      let rest = first_settling settles events in
      elim (settles event) [ some r ↦ some r | none ↦ rest ]

  settle_all-some :
      (settles : E → Option R) (events : List E) (r : R)
      → settle_all settles events (some r) ≡ some r
  unfolding settle_all settle_once
  settle_all-some settles [] r = refl
  settle_all-some settles (event ∷ events) r = settle_all-some settles events r

  settled_or_later :
      (settles : E → Option R) (events : List E) (o : Option R)
      → settle_all settles events none ≡ first_settling settles events
      → settle_all settles events (settle_once none o)
        ≡ elim o [ some r ↦ some r | none ↦ first_settling settles events ]
  unfolding settle_once
  settled_or_later settles events none h = h
  settled_or_later settles events (some r) h = settle_all-some settles events r

  -- The first event that settles a promise decides it.
  pub settle_all-first_settling :
      (settles : E → Option R) (events : List E)
      → settle_all settles events none ≡ first_settling settles events
  unfolding settle_all settle_once
  settle_all-first_settling settles [] = refl
  settle_all-first_settling settles (event ∷ events) =
      settled_or_later settles events (settles event) (settle_all-first_settling settles events)

  -- an event that settles the promise, after others
  pub first_settling-append :
      (settles : E → Option R) (before after : List E) (event : E) (r : R)
      → settles event ≡ some r
      → first_settling settles (before ++ event ∷ after)
        ≡ some (or_else (first_settling settles before) r)
  first_settling-append settles [] after event r h = rw h refl
  first_settling-append settles (b ∷ before) after event r h =
      elim (settles b)
        as (λ o.
          elim o [ some x ↦ some x | none ↦ first_settling settles (before ++ event ∷ after) ]
          ≡ some (or_else (elim o [ some x ↦ some x | none ↦ first_settling settles before ]) r)) [
            | some x ↦ refl
            | none ↦ first_settling-append settles before after event r h
          ]
