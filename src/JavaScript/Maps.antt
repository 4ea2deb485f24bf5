-- ===== src/JavaScript/Maps.antt =====
-- Laws of maps whose keys are distinct.
use event_driven_platform.Prelude.{
  ◌==◌, ==_iff, true, false, Bool-cases, ◌≡◌, refl, ◌∙◌, [], ◌∷◌, ◌++◌, some, Text, arith, inl, inr,
}
use event_driven_platform.JavaScript.{same, Entries, map_get, map_has, map_delete, map_set}

pub same_refl : (k : Text) → same k k ≡ true
unfolding same
same_refl [] = refl
same_refl (x ∷ xs) = ground (arith, same_refl xs)

pub same_comm : (a b : Text) → same a b ≡ same b a
unfolding same
same_comm [] [] = refl
same_comm [] (y ∷ ys) = refl
same_comm (x ∷ xs) [] = refl
same_comm (x ∷ xs) (y ∷ ys) = ground (arith, same_comm xs ys)

pub same→≡ : (a b : Text) → same a b ≡ true → a ≡ b
unfolding same
same→≡ [] [] h = refl
same→≡ [] (y ∷ ys) h = ground arith
same→≡ (x ∷ xs) [] h = ground arith
same→≡ (x ∷ xs) (y ∷ ys) h = elim (Bool-cases (x == y)) [
  | inl e ↦ elim (Bool-cases (same xs ys)) [
    | inl t ↦ grind (arith, same→≡ xs ys t, (==_iff x y).0 e)
    | inr f ↦ ground (arith, e, f)
  ]
  | inr f ↦ ground (arith, f)
]

module _ {ℓ} {V : Type ℓ} where
  abbrev pub Distinct : Entries V → Type 0
  Distinct [] = Unit
  Distinct (e ∷ rest) = (map_has e.0 rest ≡ false) × Distinct rest

  pub delete-absent : (k : Text) (m : Entries V) → map_has k m ≡ false → map_delete k m ≡ m
  unfolding map_has map_delete
  delete-absent k [] h = refl
  delete-absent k (e ∷ m) h = ground (arith, delete-absent k m)

  pub delete-first : (e : Text × V) (m : Entries V) → map_delete e.0 (e ∷ m) ≡ m
  unfolding map_delete
  delete-first e m = rw (same_refl e.0) refl

  pub has-delete :
      (j k : Text) (m : Entries V) → map_has j m ≡ false → map_has j (map_delete k m) ≡ false
  unfolding map_has map_delete
  has-delete j k [] h = refl
  has-delete j k (e ∷ m) h = ground (arith, has-delete j k m)

  pub delete-Distinct : (k : Text) (m : Entries V) → Distinct m → Distinct (map_delete k m)
  unfolding map_delete
  delete-Distinct k [] h = tt
  delete-Distinct k (e ∷ m) h = elim (Bool-cases (same k e.0)) [
    | inl t ↦ rw t h.1
    | inr f ↦ rw f (has-delete e.0 k m h.0, delete-Distinct k m h.1)
  ]

  pub has-delete_self : (k : Text) (m : Entries V) → Distinct m → map_has k (map_delete k m) ≡ false
  unfolding map_has map_delete
  has-delete_self k [] h = refl
  has-delete_self k (e ∷ m) h = elim (Bool-cases (same k e.0)) [
    | inl t ↦ rw t (rw (same→≡ k e.0 t) h.0)
    | inr f ↦ ground (arith, f, has-delete_self k m h.1)
  ]

  pub set-absent :
      (k : Text) (v : V) (m : Entries V) → map_has k m ≡ false → map_set k v m ≡ m ++ (k, v) ∷ []
  unfolding map_has map_set
  set-absent k v [] h = refl
  set-absent k v (e ∷ m) h = ground (arith, set-absent k v m)

  pub get-last :
      (k : Text) (v : V) (m : Entries V)
      → map_has k m ≡ false
      → map_get k (m ++ (k, v) ∷ []) ≡ some v
  unfolding map_has map_get
  get-last k v [] h = rw (same_refl k) refl
  get-last k v (e ∷ m) h = ground (arith, get-last k v m)

  pub has-append :
      (j k : Text) (v : V) (m : Entries V)
      → map_has j m ≡ false
      → same j k ≡ false
      → map_has j (m ++ (k, v) ∷ []) ≡ false
  unfolding map_has
  has-append j k v [] h d = rw d refl
  has-append j k v (e ∷ m) h d = ground (arith, has-append j k v m)

  first_of :
      (k : Text) (e : Text × V) (m : Entries V) → map_has k (e ∷ m) ≡ false → same k e.0 ≡ false
  unfolding map_has
  first_of k e m h = ground arith

  rest_of :
      (k : Text) (e : Text × V) (m : Entries V) → map_has k (e ∷ m) ≡ false → map_has k m ≡ false
  unfolding map_has
  rest_of k e m h = ground arith

  other-key :
      (k : Text) (e : Text × V) (before after : Entries V)
      → map_has k (before ++ e ∷ after) ≡ false
      → same k e.0 ≡ false
  unfolding map_has
  other-key k e [] after h = ground arith
  other-key k e (b ∷ before) after h = other-key k e before after (ground arith)

  -- a key is deleted from the middle of a map
  pub delete-middle :
      (e : Text × V) (before after : Entries V)
      → Distinct (before ++ e ∷ after)
      → map_delete e.0 (before ++ e ∷ after) ≡ before ++ after
  unfolding map_delete
  delete-middle e [] after h = delete-first e after
  delete-middle e (b ∷ before) after h =
      let differ : same e.0 b.0 ≡ false = same_comm e.0 b.0 ∙ other-key b.0 e before after h.0 in
      rw (differ, delete-middle e before after h.1) refl

  pub append-Distinct :
      (k : Text) (v : V) (m : Entries V)
      → Distinct m
      → map_has k m ≡ false
      → Distinct (m ++ (k, v) ∷ [])
  unfolding map_has
  append-Distinct k v [] d h = (refl, tt)
  append-Distinct k v (e ∷ m) d h =
      let differ : same e.0 k ≡ false = same_comm e.0 k ∙ first_of k e m h in
      (has-append e.0 k v m d.0 differ, append-Distinct k v m d.1 (rest_of k e m h))
