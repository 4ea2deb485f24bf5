-- ===== src/Reader/InFlight.antt =====
-- packages/reader/src/lib/inflight/local-read-in-flight.ts: the flights of a process by the identity of
-- their key. A flight is the promise of a leader's read; promises are told apart by their number.
use event_driven_platform.Prelude.{
  ℕ, suc, ◌+◌, ◌≤◌, ◌<◌, ◌==◌, ==_iff, Bool, true, false, Bool-cases, if◌then◌else◌, Text, List, [],
  ◌∷◌, ◌++◌, Option, none, some, ◌≡◌, refl, sym, ap, ◌∙◌, ◌≢◌, inl, inr, arith,
}
use event_driven_platform.JavaScript.{
  same, Entries, map_get, map_has, map_delete, map_set, stringify,
}
use event_driven_platform.JavaScript.Maps.{
  same→≡, same_refl, Distinct, set-absent, append-Distinct, delete-Distinct,
}
use event_driven_platform.JavaScript.Lookups.{get→has, get-append, get-delete}
use event_driven_platform.ReadCacheInMemory.{TenantScopedReadCacheKey}
pub mod SingleFlight

-- the map of the flights, and how many flights have been started
pub record LocalReadInFlight : Type 0 where
  pub flights : Entries ℕ
  pub started : ℕ

pub data FlightRole : Type 0 where
  joined led : (flight : ℕ) → FlightRole

unfoldable pub identity_of : TenantScopedReadCacheKey → Text
unfolding stringify
identity_of k = stringify (
    k.tenant.type ∷ k.tenant.id ∷ k.key.namespace ∷ k.key.version ∷ k.key.partition ∷ k.key.value
    ∷ [])

-- an active flight is joined; otherwise the caller leads a new one
unfoldable pub join_or_start : LocalReadInFlight → Text → Option ℕ → FlightRole × LocalReadInFlight
unfolding map_set
join_or_start s identity (some active) = (joined active, s)
join_or_start s identity none = (
  led s.started,
  record { flights = map_set identity s.started s.flights; started = suc s.started },
)

-- LocalReadInFlight.run
unfoldable pub run : TenantScopedReadCacheKey → LocalReadInFlight → FlightRole × LocalReadInFlight
unfolding identity_of map_get join_or_start
run key s = join_or_start s (identity_of key) (map_get (identity_of key) s.flights)

-- `this.flights.get(identity) === flight`
unfoldable pub is_flight : ℕ → Option ℕ → Bool
is_flight flight none = false
is_flight flight (some active) = active == flight

-- the `finally` of a flight that has settled
unfoldable pub settle_flight : Text → ℕ → LocalReadInFlight → LocalReadInFlight
unfolding map_get map_delete is_flight
settle_flight identity flight s =
    if is_flight flight (map_get identity s.flights)
    then record s { flights = map_delete identity s.flights }
    else s

-- the keys of the flights that have been led and have not settled, by the number of the flight
abbrev pub Running : Type 0
Running = ℕ → Option TenantScopedReadCacheKey

abbrev pub update_running {ℓ} : {X : Type ℓ} → ℕ → Option X → (ℕ → Option X) → ℕ → Option X
update_running flight o running f = if f == flight then o else running f

abbrev pub after_run {ℓ} : {X : Type ℓ} → X → FlightRole → (ℕ → Option X) → ℕ → Option X
after_run key (joined flight) running = running
after_run key (led flight) running = update_running flight (some key) running

-- the states that calls of `run` and the ends of flights lead to, in any order
pub data Reachable : LocalReadInFlight → Running → Type 0 where
  start : Reachable (record { flights = []; started = 0 }) (λ f. none)
  runs :
      {s : LocalReadInFlight} {running : Running} (key : TenantScopedReadCacheKey)
      → Reachable s running
      → Reachable (run key s).1 (after_run key (run key s).0 running)
  settles :
      {s : LocalReadInFlight} {running : Running} (key : TenantScopedReadCacheKey) (flight : ℕ)
      → running flight ≡ some key
      → Reachable s running
      → Reachable (settle_flight (identity_of key) flight s) (update_running flight none running)
