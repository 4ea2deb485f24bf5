-- ===== src/RedisCoordinator/Steps.antt =====
-- What the scripts and the operations do to the leases in Redis.
use event_driven_platform.Prelude.{
  ℕ, suc, Text, text, List, [], ◌∷◌, Option, none, some, false, ◌≡◌, refl, sym, ap, ◌∙◌, ◌≢◌, ◌⊎◌,
  inl, inr, arith,
}
use event_driven_platform.Effects.Hoare.{Triple, Triple-bind, Triple-pure, Triple-if, weaken}
use event_driven_platform.ReadCacheInMemory.{TenantScopedReadCacheKey}
use event_driven_platform.RedisCoordinator.{
  RedisClient, lease_key, generation_key, grant_lease, claim_script,
}
use event_driven_platform.RedisCoordinator.Laws.{View, Same, SameBut, Expires, is_there, RedisLaws}
use event_driven_platform.RedisCoordinator.Fencing.{
  append-injective, lease_at, generation, Evolves, Granted,
}

abbrev second : Text → ℕ
second [] = 0
second (x ∷ []) = 0
second (x ∷ y ∷ t) = y

not_there : (o : Option Text) → is_there o ≡ false → o ≡ none
not_there none h = refl
not_there (some t) h = cc

-- the l of a lease and the g of the generation
different_letters : ◌≡◌ {A = ℕ} 108 103 → ⊥
different_letters e = omega arith

-- a lease and the generation have different keys
pub lease_key≢generation_key :
    (p : Text) (k : TenantScopedReadCacheKey) → lease_key p k ≢ generation_key p
unfolding lease_key generation_key text
lease_key≢generation_key p k e = different_letters (ap second (append-injective p _ _ e))

module _ {W Number : Type 0} (redis : RedisClient W Number) (view : View W)
    (laws : RedisLaws redis view) (key_prefix : Text) where
  pub Same-refl : (w : W) → Same view w w
  Same-refl w = (λ k. refl, λ k. refl)

  pub Same-Evolves : (w w' : W) → Same view w w' → Evolves redis view key_prefix w w'
  Same-Evolves w w' h = record {
    grows = let c = h.1 (generation_key key_prefix) in omega arith;
    leases = λ k. inl (h.0 (lease_key key_prefix k));
  }

  pub Expires-Evolves : (w w' : W) → Expires view w w' → Evolves redis view key_prefix w w'
  Expires-Evolves w w' h = record {
    grows = let c = h.1 (generation_key key_prefix) in omega arith;
    leases = λ k. h.0 (lease_key key_prefix k);
  }

  Counted-Evolves :
      (w w' : W) (n : ℕ)
      → SameBut view (generation_key key_prefix) w w'
      → n ≡ suc (generation redis view key_prefix w)
      → generation redis view key_prefix w' ≡ n
      → Evolves redis view key_prefix w w'
  Counted-Evolves w w' n s e c = record {
    grows = omega arith;
    leases = λ k. inl (s.0 (lease_key key_prefix k) (lease_key≢generation_key key_prefix k));
  }

  pub Evolves-trans :
      (w w' w'' : W)
      → Evolves redis view key_prefix w w'
      → Same view w' w''
      → Evolves redis view key_prefix w w''
  Evolves-trans w w' w'' h s = record {
    grows = let a = h.grows in let c = s.1 (generation_key key_prefix) in omega arith;
    leases = λ k. elim (h.leases k) [
      | inl e ↦ inl (s.0 (lease_key key_prefix k) ∙ e)
      | inr e ↦ inr (s.0 (lease_key key_prefix k) ∙ e)
    ];
  }

  module _ (w : W) (key : TenantScopedReadCacheKey) (owner_id : Text) where
    -- what claimScript comes to
    abbrev pub Claimed : List ℕ → W → Type 0
    Claimed r w' =
        ((r ≡ 0 ∷ []) × Same view w w')
        ⊎ ((v : ℕ) × (r ≡ 1 ∷ v ∷ []) × Granted redis view key_prefix key owner_id v w w')

    stored-Granted :
        (w1 w2 : W) (n : ℕ)
        → lease_at redis view key_prefix key w ≡ none
        → SameBut view (generation_key key_prefix) w w1
        → n ≡ suc (generation redis view key_prefix w)
        → generation redis view key_prefix w1 ≡ n
        → SameBut view (lease_key key_prefix key) w1 w2
        → view.string_at w2 (lease_key key_prefix key) ≡ some (redis.cjson_encode owner_id n)
        → Granted redis view key_prefix key owner_id n w w2
    stored-Granted w1 w2 n free s e c s' t = record {
      free = free;
      version = e;
      counted =
          s'.1 (generation_key key_prefix) (λ p. lease_key≢generation_key key_prefix key (sym p))
          ∙ c;
      lease = t;
      others = λ k d.
          s'.0 (lease_key key_prefix k) d
          ∙ s.0 (lease_key key_prefix k) (lease_key≢generation_key key_prefix k);
    }

    grant_lease-Claimed :
        (duration : Text)
        → lease_at redis view key_prefix key w ≡ none
        → Triple
            (Same view w)
            (grant_lease redis
              (lease_key key_prefix key)
              (generation_key key_prefix)
              owner_id
              duration)
            Claimed
            (λ _. Evolves redis view key_prefix w)
    unfolding grant_lease
    grant_lease-Claimed duration free =
        let gen = generation_key key_prefix in
        let lk = lease_key key_prefix key in
        let Counted : ℕ → W → Type 0 = λ n w1.
          SameBut view gen w w1 × (n ≡ suc (view.count_at w gen)) × (view.count_at w1 gen ≡ n) in
        Triple-bind Counted
          (weaken (laws.incr_law w gen) (λ s h. h) (λ n s h. h) (λ e s h. Same-Evolves w s h))
          (λ n.
            Triple-bind (λ _. Granted redis view key_prefix key owner_id n w)
              (record {
                at = λ w1 c.
                    (weaken {Q' = λ _. Granted redis view key_prefix key owner_id n w}
                        {R' = λ _. Evolves redis view key_prefix w}
                        (laws.psetex_law w1 lk duration (redis.cjson_encode owner_id n)) (λ s h. h)
                        (λ _ s h. stored-Granted w1 s n free c.0 c.1 c.2 h.0 h.1)
                        (λ e s h. Evolves-trans w w1 s (Counted-Evolves w w1 n c.0 c.1 c.2) h)).at
                      w1 (Same-refl w1);
              })
              (λ _. Triple-pure _ (λ s h. inr (n, refl, h))))

    pub claim_script-Claimed :
        (duration : Text)
        → Triple
            (Same view w)
            (claim_script redis
              (lease_key key_prefix key)
              (generation_key key_prefix)
              owner_id
              duration)
            Claimed
            (λ _. Evolves redis view key_prefix w)
    unfolding claim_script
    claim_script-Claimed duration =
        Triple-bind
          (λ found s. Same view w s × (found ≡ is_there (lease_at redis view key_prefix key w)))
          (weaken (laws.exists_law w (lease_key key_prefix key)) (λ s h. h) (λ b s h. h)
            (λ e s h. Same-Evolves w s h))
          (λ found. record {
            at = λ s h.
                (Triple-if {P = λ s'. s' ≡ s} found
                    (λ e. Triple-pure _ (λ s' p. inl (refl, rw p h.0)))
                    (λ e.
                      weaken (grant_lease-Claimed duration (not_there _ (sym h.1 ∙ e)))
                        (λ s' p. rw p h.0) (λ r s' q. q) (λ x s' q. q))).at
                  s refl;
          })
