-- ===== src/RedisCoordinator/Examples.antt =====
-- A Redis of two functions, the strings and the counters, that obeys the laws; tests of the coordinator,
-- and the witnesses of its theorems.
use event_driven_platform.Prelude.{
  ℕ, suc, Text, text, List, [], ◌∷◌, Option, none, some, Bool, true, false, Bool-cases,
  if◌then◌else◌, decimal, ◌≡◌, refl, ap, ◌∙◌, ◌≢◌, inl, inr, arith,
}
use event_driven_platform.Effects.{ok}
use event_driven_platform.Effects.Hoare.{weaken}
use event_driven_platform.Coordinator.{
  ReadExecutionLeaseReference, ClaimReadExecutionRequest, ClaimReadExecutionResult,
  ReleaseReadExecutionRequest, WaitForReadExecutionRequest,
}
use event_driven_platform.JavaScript.{same}
use event_driven_platform.JavaScript.Maps.{same→≡, same_refl}
use event_driven_platform.ReadCacheInMemory.{TenantScopedReadCacheKey}
use event_driven_platform.RedisCoordinator.{
  RedisClient, message_arrived, checked, signal_fired, lease_key, channel_key, serialize_lease,
  claim, renew, release, key_prefix_of,
}
use event_driven_platform.RedisCoordinator.Laws.{View, Same, SameBut, is_there, RedisLaws}
use event_driven_platform.RedisCoordinator.Wait.{
  wait_for_release, wait_answer, wait_for_release-wait_answer,
}
use event_driven_platform.RedisCoordinator.Texts.{serialize_lease-injective}
use event_driven_platform.RedisCoordinator.Fencing.{
  Grant, System, start, claims, releases, IsDecreasing, lease_at, Evolves,
}
use event_driven_platform.RedisCoordinator.Histories.{
  IsRefusedClaim, IsRefusedRenewal, IsRefusedRelease, System-IsDecreasing, outdated_lease-refused,
}
use event_driven_platform.RedisCoordinator.Holder.{IsKept, IsGone, acquired_lease-held}

abbrev World : Type 0
World = (Text → Option Text) × (Text → ℕ)

abbrev update : {A : Type 0} → (Text → A) → Text → A → Text → A
update f key a k = if same k key then a else f k

-- the commands, without durations; a caller hears an abort and then a message while it waits
abbrev redis : RedisClient World ℕ
redis = record {
  exists = λ key w. (ok (is_there (w.0 key)), w);
  get = λ key w. (ok (w.0 key), w);
  incr = λ key w. (ok (suc (w.1 key)), (w.0, update w.1 key (suc (w.1 key))));
  psetex = λ key duration value w. (ok tt, (update w.0 key (some value), w.1));
  pexpire = λ key duration w. (ok tt, w);
  del = λ key w. (ok tt, (update w.0 key none, w.1));
  publish = λ channel message w. (ok tt, w);
  cjson_encode =
      λ owner_id version. serialize_lease (record { owner_id = owner_id; version = version });
  eval = λ script. script;
  show = decimal;
  subscriber_is_open = λ w. (true, w);
  subscriber_connect = λ w. (ok tt, w);
  subscriber_quit = λ w. (ok tt, w);
  signal_aborted = λ w. (false, w);
  subscription = λ channel key w. (signal_fired ∷ checked true ∷ message_arrived ∷ [], w);
}

abbrev view : View World
view = record { string_at = λ w. w.0; count_at = λ w. w.1 }

update-other :
    {A : Type 0} (f : Text → A) (key : Text) (a : A) (k : Text) → k ≢ key → update f key a k ≡ f k
update-other f key a k d = elim (Bool-cases (same k key)) [
  | inl t ↦ absurd (d (same→≡ k key t))
  | inr e ↦ rw e refl
]

update-key : {A : Type 0} (f : Text → A) (key : Text) (a : A) → update f key a key ≡ a
update-key f key a = rw (same_refl key) refl

-- the world after a command, by the one before
updated_string :
    (w w' : World) (key : Text) (o : Option Text)
    → Same view w w'
    → SameBut view key w (update w'.0 key o, w'.1)
updated_string w w' key o h = (λ k d. update-other w'.0 key o k d ∙ h.0 k, λ k d. h.1 k)

updated_count :
    (w w' : World) (key : Text)
    → Same view w w'
    → SameBut view key w (w'.0, update w'.1 key (suc (w'.1 key)))
updated_count w w' key h = (λ k d. h.0 k, λ k d. update-other w'.1 key (suc (w'.1 key)) k d ∙ h.1 k)

redis_laws : RedisLaws redis view
redis_laws = record {
  exists_law = λ w key. record { at = λ w' h. (h, ap is_there (h.0 key)) };
  get_law = λ w key. record { at = λ w' h. (h, h.0 key) };
  incr_law = λ w key. record {
    at = λ w' h. (updated_count w w' key h, ap suc (h.1 key), update-key w'.1 key (suc (w'.1 key)));
  };
  psetex_law = λ w key duration value. record {
    at = λ w' h. (updated_string w w' key (some value) h, update-key w'.0 key (some value));
  };
  pexpire_law = λ w key duration. record { at = λ w' h. (λ k. inl (h.0 k), h.1) };
  del_law =
      λ w key. record { at = λ w' h. (updated_string w w' key none h, update-key w'.0 key none) };
  publish_law = λ w channel message. record { at = λ w' h. h };
  eval_law = λ script P Q R t. weaken t (λ s h. h) (λ a s h. h) (λ e s h. inr (inr (e, h)));
  version_law = λ l owner_id version e. ap (λ x. x.version) (serialize_lease-injective l _ e);
}

abbrev balance_key : TenantScopedReadCacheKey
balance_key = record {
  tenant = record { type = text "merchant"; id = text "m-1" };
  key = record {
    namespace = text "wallet";
    version = text "v1";
    partition = text "balance";
    value = text "wallet-1";
  };
}

abbrev empty : World
empty = (λ k. none, λ k. 0)

abbrev by_owner : Text → ClaimReadExecutionRequest ℕ
by_owner owner_id = record { key = balance_key; owner_id = owner_id; lease_duration_ms = 1000 }

abbrev lease : Text → ℕ → ReadExecutionLeaseReference
lease owner_id version = record { owner_id = owner_id; version = version }

abbrev first_claim : World
first_claim = (claim redis (text "p") (by_owner (text "a")) empty).1

abbrev first_release : ReleaseReadExecutionRequest
first_release = record { key = balance_key; lease = lease (text "a") 1 }

abbrev released_world : World
released_world = (release redis (text "p") first_release first_claim).1

abbrev second_claim : World
second_claim = (claim redis (text "p") (by_owner (text "b")) released_world).1

abbrev grants : List Grant
grants =
    record { key = balance_key; lease = lease (text "b") 2 }
    ∷ record { key = balance_key; lease = lease (text "a") 1 }
    ∷ []

default_prefix : key_prefix_of none ≡ text "read-execution"
unfolding key_prefix_of
default_prefix = refl

-- a second claim while the lease is there is refused
second_is_refused :
    (claim redis (text "p") (by_owner (text "b")) first_claim).0
    ≡ ClaimReadExecutionResult.already_in_progress
unfolding claim decimal same text
second_is_refused = refl

first_acquired :
    (claim redis (text "p") (by_owner (text "a")) empty).0
    ≡ ClaimReadExecutionResult.acquired (lease (text "a") 1)
unfolding claim
first_acquired = refl

-- one claim, its release, and another claim
history : System redis view (text "p") grants second_claim
unfolding claim release decimal text
history =
    claims (by_owner (text "b"))
      (releases first_release (claims (by_owner (text "a")) (start empty (λ k. refl))))

System-IsDecreasing_example : IsDecreasing grants
System-IsDecreasing_example = System-IsDecreasing redis view redis_laws (text "p") history

outdated_lease-refused_example :
    let (r1, w1) =
      renew redis
        (text "p")
        (record { key = balance_key; lease = lease (text "a") 1; lease_duration_ms = 1000 })
        second_claim in
    let (r2, w2) = release redis (text "p") first_release second_claim in
    (IsRefusedRenewal r1 × Same view second_claim w1)
    × (IsRefusedRelease r2 × Same view second_claim w2)
outdated_lease-refused_example =
    outdated_lease-refused redis view redis_laws (text "p") history
      (record { key = balance_key; lease = lease (text "b") 2 }) (inl refl) (lease (text "a") 1)
      (omega arith) 1000

acquired_lease-held_example :
    let (r0, w0) = claim redis (text "p") (by_owner (text "b")) first_claim in
    let (r1, w1) =
      renew redis
        (text "p")
        (record { key = balance_key; lease = lease (text "a") 1; lease_duration_ms = 1000 })
        first_claim in
    let (r2, w2) = release redis (text "p") first_release first_claim in
    (IsRefusedClaim r0 × Evolves redis view (text "p") first_claim w0)
    × IsKept (lease (text "a") 1) r1
    × IsGone r2 (lease_at redis view (text "p") balance_key w2)
acquired_lease-held_example =
    acquired_lease-held redis view redis_laws (text "p") empty (by_owner (text "a"))
      (lease (text "a") 1) (λ l e. refl) first_acquired first_claim refl (text "b") 1000

abbrev waiting : Bool → WaitForReadExecutionRequest ℕ
waiting signal = record { key = balance_key; timeout_ms = 1000; signal = signal }

wait_for_release-wait_answer_example :
    (wait_for_release redis (text "p") (waiting false) first_claim).0
    ≡ ok (
        wait_answer false
          (redis.subscription
            (channel_key (text "p") balance_key)
            (lease_key (text "p") balance_key)
            first_claim).0)
wait_for_release-wait_answer_example =
    wait_for_release-wait_answer redis (text "p") (waiting false) first_claim

serialize_lease-injective_example : lease (text "a") 1 ≡ lease (text "a") 1
serialize_lease-injective_example =
    serialize_lease-injective (lease (text "a") 1) (lease (text "a") 1) refl
