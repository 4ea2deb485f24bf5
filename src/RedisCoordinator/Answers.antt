-- ===== src/RedisCoordinator/Answers.antt =====
-- What the answers of renew and release tell of the lease in Redis, and of the world after them.
use event_driven_platform.Prelude.{
  ℕ, Text, none, Bool, true, false, Bool-cases, if◌then◌else◌, ◌≡◌, refl, sym, ap, ◌∙◌, ◌⊎◌, inl,
  inr, arith,
}
use event_driven_platform.Effects.{pure, ◌>>=◌}
use event_driven_platform.Effects.Hoare.{Triple, Triple-bind, Triple-pure, Triple-if, weaken}
use event_driven_platform.JavaScript.{same}
use event_driven_platform.JavaScript.Maps.{same→≡}
use event_driven_platform.ReadCacheInMemory.{TenantScopedReadCacheKey}
use event_driven_platform.RedisCoordinator.{
  RedisError, RedisMethod, RedisClient, lease_key, generation_key, is_current, renew_script,
  release_script, delete_and_publish,
}
use event_driven_platform.RedisCoordinator.Laws.{View, Same, SameBut, RedisLaws}
use event_driven_platform.RedisCoordinator.Fencing.{lease_at, Evolves}
use event_driven_platform.RedisCoordinator.Grants.{same_false→≢}
use event_driven_platform.RedisCoordinator.Steps.{
  lease_key≢generation_key, Same-refl, Expires-Evolves, Evolves-trans,
}

module _ {W Number : Type 0} (redis : RedisClient W Number) (view : View W)
    (laws : RedisLaws redis view) (key_prefix : Text) (w : W) (key : TenantScopedReadCacheKey)
    (lease : Text) where
  -- whether the lease is the one in Redis
  abbrev pub current : Bool
  current = is_current (lease_at redis view key_prefix key w) lease

  -- what a script that needs the lease comes to, where `After` holds if it has the lease
  abbrev pub Tested : (W → Type 0) → ℕ → W → Type 0
  Tested After n w' =
      ((current ≡ false) × (n ≡ 0) × Same view w w') ⊎ ((current ≡ true) × (n ≡ 1) × After w')

  abbrev pub Failed : W → Type 0
  Failed w' = Same view w w' ⊎ ((current ≡ true) × Evolves redis view key_prefix w w')

  -- the scripts read the lease and go on only with their own
  tested :
      (After : W → Type 0) (m : RedisMethod W ℕ)
      → (current ≡ true → Triple (Same view w) m (Tested After) (λ _. Failed))
      → Triple
          (Same view w)
          (redis.get (lease_key key_prefix key) >>= λ r. if is_current r lease then m else pure 0)
          (Tested After)
          (λ _. Failed)
  tested After m h =
      Triple-bind (λ r s. Same view w s × (r ≡ lease_at redis view key_prefix key w))
        (weaken (laws.get_law w (lease_key key_prefix key)) (λ s h. h) (λ r s h. h)
          (λ e s h. inl h))
        (λ r. record {
          at = λ s h'.
              (Triple-if {P = λ s'. s' ≡ s} (is_current r lease)
                  (λ e.
                    weaken (h (sym (ap (λ o. is_current o lease) h'.1) ∙ e)) (λ s' p. rw p h'.0)
                      (λ n s' q. q) (λ x s' q. q))
                  (λ e. Triple-pure 0 (λ s' p.
                    inl (sym (ap (λ o. is_current o lease) h'.1) ∙ e, refl, rw p h'.0)))).at
                s refl;
        })

  pub renew_script-Tested :
      (duration : Text)
      → Triple
          (Same view w)
          (renew_script redis (lease_key key_prefix key) lease duration)
          (Tested (Evolves redis view key_prefix w))
          (λ _. Failed)
  unfolding renew_script
  renew_script-Tested duration = tested (Evolves redis view key_prefix w) _ (λ c.
      Triple-bind (λ _. Evolves redis view key_prefix w)
        (weaken (laws.pexpire_law w (lease_key key_prefix key) duration) (λ s h. h)
          (λ _ s h. Expires-Evolves redis view laws key_prefix w s h) (λ e s h. inl h))
        (λ _. Triple-pure 1 (λ s h. inr (c, refl, h))))

  -- the lease is deleted
  abbrev pub Deleted : W → Type 0
  Deleted w' = (lease_at redis view key_prefix key w' ≡ none) × Evolves redis view key_prefix w w'

  deleted-Evolves :
      (w' : W)
      → SameBut view (lease_key key_prefix key) w w'
      → lease_at redis view key_prefix key w' ≡ none
      → Evolves redis view key_prefix w w'
  deleted-Evolves w' s n = record {
    grows =
        let c =
          s.1 (generation_key key_prefix) (λ p. lease_key≢generation_key key_prefix key (sym p)) in
        omega arith;
    leases = λ k. elim (Bool-cases (same (lease_key key_prefix k) (lease_key key_prefix key))) [
      | inl t ↦ inr (ap (view.string_at w') (same→≡ _ _ t) ∙ n)
      | inr f ↦ inl (s.0 (lease_key key_prefix k) (same_false→≢ _ _ f))
    ];
  }

  pub release_script-Tested :
      (channel : Text)
      → Triple
          (Same view w)
          (release_script redis (lease_key key_prefix key) channel lease)
          (Tested Deleted)
          (λ _. Failed)
  unfolding release_script delete_and_publish
  release_script-Tested channel = tested Deleted _ (λ c.
      Triple-bind (λ _. Deleted)
        (weaken (laws.del_law w (lease_key key_prefix key)) (λ s h. h)
          (λ _ s h. (h.1, deleted-Evolves s h.0 h.1)) (λ e s h. inl h))
        (λ _.
          Triple-bind (λ _. Deleted)
            (record {
              at = λ w1 d.
                  (weaken {Q' = λ _. Deleted} {R' = λ _. Failed} (laws.publish_law w1 channel lease)
                      (λ s h. h)
                      (λ _ s h. (
                        h.0 (lease_key key_prefix key) ∙ d.0,
                        Evolves-trans redis view laws key_prefix w w1 s d.1 h,
                      ))
                      (λ e s h. inr (c, Evolves-trans redis view laws key_prefix w w1 s d.1 h))).at
                    w1 (Same-refl redis view laws key_prefix w1);
            })
            (λ _. Triple-pure 1 (λ s h. inr (c, refl, h)))))

  -- what a test comes to when the reply may be lost
  after_eval :
      (After : W → Type 0)
      → ((s : W) → After s → Evolves redis view key_prefix w s)
      → (s : W) → Same view w s ⊎ (((n : ℕ) × Tested After n s) ⊎ (RedisError × Failed s))
      → Failed s
  after_eval After h s (inl e) = inl e
  after_eval After h s (inr (inl (n, inl t))) = inl t.2
  after_eval After h s (inr (inl (n, inr t))) = inr (t.0, h s t.2)
  after_eval After h s (inr (inr (e, f))) = f

  pub evaluated :
      (After : W → Type 0)
      → ((s : W) → After s → Evolves redis view key_prefix w s)
      → (m : RedisMethod W ℕ) → Triple (Same view w) m (Tested After) (λ _. Failed)
      → Triple (Same view w) (redis.eval m) (Tested After) (λ _. Failed)
  evaluated After h m t =
      weaken (laws.eval_law m (Same view w) (Tested After) (λ _. Failed) t) (λ s h. h) (λ n s h. h)
        (λ e s x. after_eval After h s x)
