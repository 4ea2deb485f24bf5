-- ===== src/ReadCacheInMemory/Laws/Drops.antt =====
-- Maps from which the oldest keys have been dropped.
use event_driven_platform.Prelude.{
  ℕ, zero, suc, ◌-◌, ◌≤◌, ◌<◌, false, ◌≡◌, refl, List, [], ◌∷◌, ◌++◌, Text, length, drop, arith,
}
use event_driven_platform.JavaScript.{Entries, map_has}
use event_driven_platform.JavaScript.Maps.{Distinct}

module _ {ℓ} {V : Type ℓ} where
  pub drop-length : (n : ℕ) (m : List V) → length (drop n m) ≡ length m - n
  drop-length zero m = omega arith
  drop-length (suc n) [] = omega arith
  drop-length (suc n) (x ∷ m) = omega (arith, drop-length n m)

  pub drop-later :
      (n c : ℕ) (x : V) (m : List V) → c < suc n → drop (suc n - c) (x ∷ m) ≡ drop (n - c) m
  drop-later n c x m h = let shift : (suc n - c) ≡ suc (n - c) = omega arith in rw shift refl

  pub drop-none : (n c : ℕ) (m : List V) → n ≤ c → drop (n - c) m ≡ m
  drop-none n c m h = let none : (n - c) ≡ 0 = omega arith in rw none refl

  pub drop-append : (n : ℕ) (m k : List V) → n ≤ length m → drop n (m ++ k) ≡ drop n m ++ k
  drop-append zero m k h = refl
  drop-append (suc n) [] k h = ground arith
  drop-append (suc n) (x ∷ m) k h = drop-append n m k (omega arith)

module _ {ℓ} {V : Type ℓ} where
  pub drop-Distinct : (n : ℕ) (m : Entries V) → Distinct m → Distinct (drop n m)
  drop-Distinct zero m h = h
  drop-Distinct (suc n) [] h = tt
  drop-Distinct (suc n) (e ∷ m) h = drop-Distinct n m h.1

  pub has-drop :
      (k : Text) (n : ℕ) (m : Entries V) → map_has k m ≡ false → map_has k (drop n m) ≡ false
  unfolding map_has
  has-drop k zero m h = h
  has-drop k (suc n) [] h = refl
  has-drop k (suc n) (e ∷ m) h = has-drop k n m (ground arith)
