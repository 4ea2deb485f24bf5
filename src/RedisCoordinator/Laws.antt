-- ===== src/RedisCoordinator/Laws.antt =====
-- What the coordinator relies on: the documented effect of the commands of Redis on the strings and
-- counters that a world holds, of the client's `eval`, and of cjson.
use event_driven_platform.Prelude.{
  ℕ, suc, Text, Option, none, some, Bool, true, false, ◌≡◌, ◌≢◌, ◌⊎◌,
}
use event_driven_platform.Effects.{Result, ok, err}
use event_driven_platform.Effects.Hoare.{Post, Triple}
use event_driven_platform.Coordinator.{ReadExecutionLeaseReference}
use event_driven_platform.RedisCoordinator.{
  RedisError, RedisMethod, RedisClient, answered_by, serialize_lease,
}

-- the string at a key, and the counter at a key
pub record View (W : Type 0) : Type 0 where
  pub string_at : W → Text → Option Text
  pub count_at : W → Text → ℕ

module _ {W : Type 0} (view : View W) where
  -- nothing has changed
  abbrev pub Same : W → W → Type 0
  Same w w' =
      ((k : Text) → view.string_at w' k ≡ view.string_at w k)
      × ((k : Text) → view.count_at w' k ≡ view.count_at w k)

  -- only the key has changed
  abbrev pub SameBut : Text → W → W → Type 0
  SameBut key w w' =
      ((k : Text) → k ≢ key → view.string_at w' k ≡ view.string_at w k)
      × ((k : Text) → k ≢ key → view.count_at w' k ≡ view.count_at w k)

  -- keys may have expired, and nothing else has changed
  abbrev pub Expires : W → W → Type 0
  Expires w w' =
      ((k : Text) → (view.string_at w' k ≡ view.string_at w k) ⊎ (view.string_at w' k ≡ none))
      × ((k : Text) → view.count_at w' k ≡ view.count_at w k)

abbrev pub is_there : Option Text → Bool
is_there none = false
is_there (some t) = true

module _ {W Number : Type 0} (redis : RedisClient W Number) where
  -- A command that fails changes nothing. PEXPIRE deletes a key when the duration is not positive.
  -- What `eval` answers is what the script answers; when it fails the script has not run, has run, or
  -- has failed. A JSON text of an owner and a version has one version.
  pub record RedisLaws (view : View W) : Type 1 where
    pub exists_law :
        (w : W) (key : Text)
        → Triple
            (Same view w)
            (redis.exists key)
            (λ b w'. Same view w w' × (b ≡ is_there (view.string_at w key)))
            (λ _. Same view w)
    pub get_law :
        (w : W) (key : Text)
        → Triple
            (Same view w)
            (redis.get key)
            (λ r w'. Same view w w' × (r ≡ view.string_at w key))
            (λ _. Same view w)
    pub incr_law :
        (w : W) (key : Text)
        → Triple
            (Same view w)
            (redis.incr key)
            (λ n w'.
              SameBut view key w w' × (n ≡ suc (view.count_at w key)) × (view.count_at w' key ≡ n))
            (λ _. Same view w)
    pub psetex_law :
        (w : W) (key duration value : Text)
        → Triple
            (Same view w)
            (redis.psetex key duration value)
            (λ _ w'. SameBut view key w w' × (view.string_at w' key ≡ some value))
            (λ _. Same view w)
    pub pexpire_law :
        (w : W) (key duration : Text)
        → Triple (Same view w) (redis.pexpire key duration) (λ _. Expires view w) (λ _. Same view w)
    pub del_law :
        (w : W) (key : Text)
        → Triple
            (Same view w)
            (redis.del key)
            (λ _ w'. SameBut view key w w' × (view.string_at w' key ≡ none))
            (λ _. Same view w)
    pub publish_law :
        (w : W) (channel message : Text)
        → Triple (Same view w) (redis.publish channel message) (λ _. Same view w) (λ _. Same view w)
    pub eval_law :
        {A : Type 0} (script : RedisMethod W A) (P : W → Type 0) (Q : A → W → Type 0)
        (R : RedisError → W → Type 0)
        → Triple P script Q R
        → Triple P
            (redis.eval script)
            Q
            (λ _ w. P w ⊎ (((a : A) × Q a w) ⊎ ((e : RedisError) × R e w)))
    pub version_law :
        (l : ReadExecutionLeaseReference) (owner_id : Text) (version : ℕ)
        → serialize_lease l ≡ redis.cjson_encode owner_id version
        → l.version ≡ version

module _ {W A B : Type 0} (P : W → Type 0) (Q : A → W → Type 0) (R : RedisError → W → Type 0)
    (T : B → W → Type 0) where
  answered-Post :
      (r : Result RedisError A) (onward : A → B) (caught : RedisError → B) (w : W)
      → Post Q R r w
      → ((a : A) (w : W) → Q a w → T (onward a) w)
      → ((e : RedisError) (w : W) → R e w → T (caught e) w)
      → T (elim r [ ok a ↦ onward a | err e ↦ caught e ]) w
  answered-Post (ok a) onward caught w h q e = q a w h
  answered-Post (err x) onward caught w h q e = e x w h

  -- the rule of `try { return onward(await m) } catch (e) { return caught(e) }`
  pub answered_by-Post :
      (m : RedisMethod W A) (onward : A → B) (caught : RedisError → B)
      → Triple P m Q R
      → ((a : A) (w : W) → Q a w → T (onward a) w)
      → ((e : RedisError) (w : W) → R e w → T (caught e) w)
      → (w : W) → P w
      → T (answered_by m onward caught w).0 (answered_by m onward caught w).1
  unfolding answered_by
  answered_by-Post m onward caught t q e w h =
      answered-Post (m w).0 onward caught (m w).1 (t.at w h) q e
