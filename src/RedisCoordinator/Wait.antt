-- ===== src/RedisCoordinator/Wait.antt =====
-- wait, waitForRelease, connect and close of RedisReadExecutionCoordinator, and the coordinator with all
-- its methods.
use event_driven_platform.Prelude.{
  Text, List, [], ◌∷◌, Option, none, some, or_else, Bool, true, false, if◌then◌else◌, ◌≡◌, refl, ap,
  ◌∙◌,
}
use event_driven_platform.Effects.{ok, Exec, pure, ◌>>=◌, ◌>>◌}
use event_driven_platform.Coordinator.{WaitForReadExecutionRequest, WaitForReadExecutionResult}
use event_driven_platform.Promises.{settle_all, first_settling, settle_all-first_settling}
use event_driven_platform.Reader.Environment.{ReadExecutionCoordinator}
use event_driven_platform.RedisCoordinator.{
  RedisMethod, RedisClient, WaitEvent, message_arrived, signal_fired, checked, failed, answered_by,
  error_object, other_value, unavailable_reason, lease_key, channel_key, claim, renew, release,
}

-- what an event settles the wait with, if anything; an abort is heard only with a signal
unfoldable pub settles : (signal : Bool) → WaitEvent → Option WaitForReadExecutionResult
unfolding unavailable_reason
settles signal message_arrived = some WaitForReadExecutionResult.released
settles false signal_fired = none
settles true signal_fired = some WaitForReadExecutionResult.cancelled
settles signal (checked true) = none
settles signal (checked false) = some WaitForReadExecutionResult.released
settles signal (failed e) = some (WaitForReadExecutionResult.unavailable (unavailable_reason e))

-- the promise after the events
unfoldable pub after_events : (signal : Bool) → List WaitEvent → Option WaitForReadExecutionResult
unfolding settles settle_all
after_events signal events = settle_all (settles signal) events none

module _ {W Number : Type 0} (redis : RedisClient W Number) (key_prefix : Text) where
  unfoldable pub connect : RedisMethod W (Unit {0})
  connect w =
      let (is_open, w') = redis.subscriber_is_open w in
      if is_open then pure tt w' else redis.subscriber_connect w'

  unfoldable pub close : RedisMethod W (Unit {0})
  close w =
      let (is_open, w') = redis.subscriber_is_open w in
      if is_open then redis.subscriber_quit w' else pure tt w'

  -- the timer fires at last, if nothing else has settled the promise
  unfoldable pub wait_for_release :
      WaitForReadExecutionRequest Number → RedisMethod W WaitForReadExecutionResult
  unfolding after_events lease_key channel_key
  wait_for_release request w =
      let (events, w') =
        redis.subscription (channel_key key_prefix request.key) (lease_key key_prefix request.key)
          w in
      (ok (or_else (after_events request.signal events) WaitForReadExecutionResult.timed_out), w')

  unfoldable pub wait_for_holder :
      WaitForReadExecutionRequest Number → RedisMethod W WaitForReadExecutionResult
  unfolding connect wait_for_release lease_key
  wait_for_holder request = do
    connect
    found ← redis.exists (lease_key key_prefix request.key)
    if found then wait_for_release request else pure WaitForReadExecutionResult.released

  unfoldable pub unless_aborted :
      WaitForReadExecutionRequest Number → Bool → RedisMethod W WaitForReadExecutionResult
  unfolding wait_for_holder
  unless_aborted request true = pure WaitForReadExecutionResult.cancelled
  unless_aborted request false = wait_for_holder request

  -- `request.signal?.aborted === true`
  unfoldable pub signal_is_aborted : (signal : Bool) → RedisMethod W Bool
  signal_is_aborted false w = (ok false, w)
  signal_is_aborted true w = let (aborted, w') = redis.signal_aborted w in (ok aborted, w')

  unfoldable pub wait : WaitForReadExecutionRequest Number → W → WaitForReadExecutionResult × W
  unfolding answered_by signal_is_aborted unless_aborted unavailable_reason
  wait request =
      answered_by (signal_is_aborted request.signal >>= unless_aborted request) (λ result. result)
        (λ e. WaitForReadExecutionResult.unavailable (unavailable_reason e))

-- a method that always answers
unfoldable pub settled_method : {W E A : Type 0} → (W → A × W) → Exec W E A
settled_method m w = let (a, w') = m w in (ok a, w')

-- the coordinator, as the Reader takes it
unfoldable pub redis_read_execution_coordinator :
    {W Number : Type 0}
    → RedisClient W Number
    → (key_prefix : Text) → ReadExecutionCoordinator W Number
unfolding settled_method claim wait renew release
redis_read_execution_coordinator redis key_prefix = record {
  claim = λ q. settled_method (claim redis key_prefix q);
  wait = λ q. settled_method (wait redis key_prefix q);
  renew = renew redis key_prefix;
  release = λ q. settled_method (release redis key_prefix q);
}

-- the answer of a wait by the events that happen in it, in their order
abbrev pub wait_answer : (signal : Bool) → List WaitEvent → WaitForReadExecutionResult
wait_answer signal [] = WaitForReadExecutionResult.timed_out
wait_answer signal (message_arrived ∷ rest) = WaitForReadExecutionResult.released
wait_answer signal (checked false ∷ rest) = WaitForReadExecutionResult.released
wait_answer signal (checked true ∷ rest) = wait_answer signal rest
wait_answer true (signal_fired ∷ rest) = WaitForReadExecutionResult.cancelled
wait_answer false (signal_fired ∷ rest) = wait_answer false rest
wait_answer signal (failed e ∷ rest) =
    WaitForReadExecutionResult.unavailable (elim e [ error_object m ↦ m | other_value t ↦ t ])

first_settling-wait_answer :
    (signal : Bool) (events : List WaitEvent)
    → or_else (first_settling (settles signal) events) WaitForReadExecutionResult.timed_out
      ≡ wait_answer signal events
unfolding settles unavailable_reason
first_settling-wait_answer signal [] = refl
first_settling-wait_answer signal (message_arrived ∷ rest) = refl
first_settling-wait_answer signal (checked false ∷ rest) = refl
first_settling-wait_answer signal (checked true ∷ rest) = first_settling-wait_answer signal rest
first_settling-wait_answer true (signal_fired ∷ rest) = refl
first_settling-wait_answer false (signal_fired ∷ rest) = first_settling-wait_answer false rest
first_settling-wait_answer signal (failed (error_object m) ∷ rest) = refl
first_settling-wait_answer signal (failed (other_value t) ∷ rest) = refl

module _ {W Number : Type 0} (redis : RedisClient W Number) (key_prefix : Text) where
  -- While a caller waits for the release of a lease, the first event that settles the wait decides its
  -- answer, whatever follows: a message or a look that finds no lease answers that it is released, an
  -- abort of the signal, if there is one, that the wait is cancelled, and a failure that Redis is
  -- unavailable, with its message. A look that finds the lease, and an abort without a signal, settle
  -- nothing; without a settling event the answer is that the wait has timed out.
  pub wait_for_release-wait_answer :
      (request : WaitForReadExecutionRequest Number) (w : W)
      → (wait_for_release redis key_prefix request w).0
        ≡ ok (
            wait_answer request.signal
              (redis.subscription
                (channel_key key_prefix request.key)
                (lease_key key_prefix request.key)
                w).0)
  unfolding wait_for_release after_events
  wait_for_release-wait_answer request w =
      let events =
        (redis.subscription (channel_key key_prefix request.key) (lease_key key_prefix request.key)
          w).0 in
      ap (λ o. ok (or_else o WaitForReadExecutionResult.timed_out))
        (settle_all-first_settling (settles request.signal) events)
      ∙ ap ok (first_settling-wait_answer request.signal events)
