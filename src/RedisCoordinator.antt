-- ===== src/RedisCoordinator.antt =====
-- packages/read-execution-coordinator-redis: leases of reads, kept in Redis by scripts that Redis runs
-- one at a time. A world holds Redis and the client. The commands of Redis, the client and Lua's
-- cjson are parameters; RedisCoordinator/Laws says what the code relies on.
use event_driven_platform.Prelude.{
  ℕ, zero, suc, Text, text, decimal, concat, List, [], ◌∷◌, ◌++◌, Option, none, some, or_else, Bool,
  true, false, ◌==◌, if◌then◌else◌,
}
use event_driven_platform.Effects.{Result, ok, err, Exec, pure, ◌>>=◌, ◌>>◌}
use event_driven_platform.Coordinator.{
  ReadExecutionLeaseReference, ClaimReadExecutionRequest, ClaimReadExecutionResult,
  RenewReadExecutionRequest, RenewReadExecutionResult, ReleaseReadExecutionRequest,
  ReleaseReadExecutionResult,
}
use event_driven_platform.JavaScript.{same, stringify, json_string}
use event_driven_platform.ReadCacheInMemory.{TenantScopedReadCacheKey}
pub mod Wait
pub mod Texts
pub mod Laws
pub mod Fencing
pub mod Grants
pub mod Steps
pub mod Outcomes
pub mod Answers
pub mod Leases
pub mod Histories
pub mod Holder
mod Examples

-- what the client rejects with: an Error with its message, or another value, as `String` shows it
pub data RedisError : Type 0 where
  error_object : (message : Text) → RedisError
  other_value : (shown : Text) → RedisError

abbrev pub RedisMethod : Type 0 → Type 0 → Type 0
RedisMethod W A = Exec W RedisError A

-- what happens while a caller waits, before its timer fires: a message on the channel, an abort of
-- the signal, the answer of EXISTS after the subscription, or a failure of either
pub data WaitEvent : Type 0 where
  message_arrived signal_fired : WaitEvent
  checked : (exists : Bool) → WaitEvent
  failed : RedisError → WaitEvent

pub record RedisClient (W Number : Type 0) : Type 1 where
  -- the commands, as `redis.call` runs them within a script and as the client sends them
  pub exists : Text → RedisMethod W Bool
  pub get : Text → RedisMethod W (Option Text)
  pub incr : Text → RedisMethod W ℕ
  pub psetex : (key duration value : Text) → RedisMethod W (Unit {0})
  pub pexpire : (key duration : Text) → RedisMethod W (Unit {0})
  pub del : Text → RedisMethod W (Unit {0})
  pub publish : (channel message : Text) → RedisMethod W (Unit {0})
  -- `cjson.encode({owner, version})`
  pub cjson_encode : Text → ℕ → Text
  -- the client sends a script and waits for the reply
  pub eval : {A : Type 0} → RedisMethod W A → RedisMethod W A
  -- `String(n)`
  pub show : Number → Text
  pub subscriber_is_open : W → Bool × W
  pub subscriber_connect : RedisMethod W (Unit {0})
  pub subscriber_quit : RedisMethod W (Unit {0})
  pub signal_aborted : W → Bool × W
  -- the subscription to a channel, and what happens until the timer fires
  pub subscription : (channel lease_key : Text) → W → List WaitEvent × W

-- `try { return onward(await m) } catch (e) { return caught(e) }`
unfoldable pub answered_by :
    {W A B : Type 0} → RedisMethod W A → (A → B) → (RedisError → B) → W → B × W
answered_by m onward caught w =
    let (r, w') = m w in (elim r [ ok a ↦ onward a | err e ↦ caught e ], w')

-- `unavailable`: its reason
unfoldable pub unavailable_reason : RedisError → Text
unavailable_reason (error_object message) = message
unavailable_reason (other_value shown) = shown

unfoldable pub identity : TenantScopedReadCacheKey → Text
unfolding stringify
identity k = stringify (
    k.tenant.type ∷ k.tenant.id ∷ k.key.namespace ∷ k.key.version ∷ k.key.partition ∷ k.key.value
    ∷ [])

-- the prefix of the options, or the default
unfoldable pub key_prefix_of : Option Text → Text
key_prefix_of key_prefix = or_else key_prefix (text "read-execution")

unfoldable pub lease_key : (key_prefix : Text) → TenantScopedReadCacheKey → Text
unfolding identity
lease_key key_prefix key = key_prefix ++ (text ":lease:" ++ identity key)

unfoldable pub generation_key : (key_prefix : Text) → Text
generation_key key_prefix = key_prefix ++ text ":generation"

unfoldable pub channel_key : (key_prefix : Text) → TenantScopedReadCacheKey → Text
unfolding identity
channel_key key_prefix key = key_prefix ++ (text ":release:" ++ identity key)

-- `JSON.stringify([lease.ownerId, lease.version])`
unfoldable pub serialize_lease : ReadExecutionLeaseReference → Text
unfolding json_string
serialize_lease lease = 91 ∷ (json_string lease.owner_id ++ 44 ∷ (decimal lease.version ++ 93 ∷ []))

-- Lua's `current == text`, where a key that is not there gives `false`
unfoldable pub is_current : Option Text → Text → Bool
unfolding same
is_current none lease = false
is_current (some current) lease = same current lease

module _ {W Number : Type 0} (redis : RedisClient W Number) where
  -- the part of claimScript after the test
  unfoldable pub grant_lease : (key generation owner_id duration : Text) → RedisMethod W (List ℕ)
  grant_lease key generation owner_id duration = do
    version ← redis.incr generation
    redis.psetex key duration (redis.cjson_encode owner_id version)
    pure (1 ∷ version ∷ [])

  unfoldable pub claim_script : (key generation owner_id duration : Text) → RedisMethod W (List ℕ)
  unfolding grant_lease
  claim_script key generation owner_id duration = do
    found ← redis.exists key
    if found then pure (0 ∷ []) else grant_lease key generation owner_id duration

  unfoldable pub renew_script : (key lease duration : Text) → RedisMethod W ℕ
  unfolding is_current
  renew_script key lease duration = do
    current ← redis.get key
    if is_current current lease then (redis.pexpire key duration >>= λ _. pure 1) else pure 0

  unfoldable pub delete_and_publish : (key channel lease : Text) → RedisMethod W ℕ
  delete_and_publish key channel lease = do redis.del key; redis.publish channel lease; pure 1

  unfoldable pub release_script : (key channel lease : Text) → RedisMethod W ℕ
  unfolding is_current delete_and_publish
  release_script key channel lease = do
    current ← redis.get key
    if is_current current lease then delete_and_publish key channel lease else pure 0

-- the reply of claimScript
unfoldable pub claim_result : (owner_id : Text) → List ℕ → ClaimReadExecutionResult
claim_result owner_id (suc zero ∷ version ∷ rest) =
    ClaimReadExecutionResult.acquired (record { owner_id = owner_id; version = version })
claim_result owner_id _ = ClaimReadExecutionResult.already_in_progress

unfoldable pub renew_result : ReadExecutionLeaseReference → ℕ → RenewReadExecutionResult
renew_result lease n =
    if n == 1
    then RenewReadExecutionResult.renewed lease
    else RenewReadExecutionResult.ownership_lost

unfoldable pub release_result : ℕ → ReleaseReadExecutionResult
release_result n =
    if n == 1
    then ReleaseReadExecutionResult.released
    else ReleaseReadExecutionResult.ownership_lost

module _ {W Number : Type 0} (redis : RedisClient W Number) (key_prefix : Text) where
  unfoldable pub claim : ClaimReadExecutionRequest Number → W → ClaimReadExecutionResult × W
  unfolding answered_by claim_script claim_result unavailable_reason lease_key generation_key
  claim request =
      answered_by
        (redis.eval (
          claim_script redis (lease_key key_prefix request.key) (generation_key key_prefix)
            request.owner_id (redis.show request.lease_duration_ms)))
        (claim_result request.owner_id)
        (λ e. ClaimReadExecutionResult.unavailable (unavailable_reason e))

  unfoldable pub renew : RenewReadExecutionRequest Number → W → RenewReadExecutionResult × W
  unfolding answered_by renew_script renew_result unavailable_reason lease_key serialize_lease
  renew request =
      answered_by
        (redis.eval (
          renew_script redis (lease_key key_prefix request.key) (serialize_lease request.lease)
            (redis.show request.lease_duration_ms)))
        (renew_result request.lease)
        (λ e. RenewReadExecutionResult.unavailable (unavailable_reason e))

  unfoldable pub release : ReleaseReadExecutionRequest → W → ReleaseReadExecutionResult × W
  unfolding answered_by release_script release_result unavailable_reason lease_key channel_key
      serialize_lease
  release request =
      answered_by
        (redis.eval (
          release_script redis (lease_key key_prefix request.key)
            (channel_key key_prefix request.key) (serialize_lease request.lease)))
        release_result (λ e. ReleaseReadExecutionResult.unavailable (unavailable_reason e))
