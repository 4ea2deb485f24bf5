-- ===== src/JavaScript/Lookups.antt =====
-- What is found in a map after an entry has been added or deleted.
use event_driven_platform.Prelude.{
  true, false, Bool-cases, if◌then◌else◌, ◌≡◌, refl, ap, ◌∙◌, [], ◌∷◌, ◌++◌, none, some, Text,
  arith, inl, inr,
}
use event_driven_platform.JavaScript.{same, Entries, map_get, map_has, map_delete}
use event_driven_platform.JavaScript.Maps.{same→≡, same_comm, Distinct}

-- a text that is one of two different keys is not the other
other_text : (j k l : Text) → same j k ≡ true → same l k ≡ false → same j l ≡ false
other_text j k l e d = ap (λ t. same t l) (same→≡ j k e) ∙ same_comm k l ∙ d

module _ {V : Type 0} where
  pub get→has : (k : Text) (m : Entries V) → map_get k m ≡ none → map_has k m ≡ false
  unfolding map_get map_has
  get→has k [] h = refl
  get→has k (e ∷ m) h = ground (arith, get→has k m)

  has→get : (k : Text) (m : Entries V) → map_has k m ≡ false → map_get k m ≡ none
  unfolding map_get map_has
  has→get k [] h = refl
  has→get k (e ∷ m) h = ground (arith, has→get k m)

  pub get-append :
      (j k : Text) (v : V) (m : Entries V)
      → map_has k m ≡ false
      → map_get j (m ++ (k, v) ∷ []) ≡ (if same j k then some v else map_get j m)
  unfolding map_get map_has
  get-append j k v [] h = refl
  get-append j k v (e ∷ m) h =
      let first : same k e.0 ≡ false = ground arith in
      let later : map_has k m ≡ false = ground arith in
      elim (Bool-cases (same j e.0)) [
        | inl t ↦ rw (t, other_text j e.0 k t first) refl
        | inr f ↦ rw (f, get-append j k v m later) refl
      ]

  get-absent :
      (j k : Text) (m : Entries V) → same j k ≡ true → map_has k m ≡ false → map_get j m ≡ none
  get-absent j k m e h = has→get j m (ap (λ t. map_has t m) (same→≡ j k e) ∙ h)

  pub get-delete :
      (j k : Text) (m : Entries V)
      → Distinct m
      → map_get j (map_delete k m) ≡ (if same j k then none else map_get j m)
  unfolding map_get map_delete
  get-delete j k [] h = elim (Bool-cases (same j k)) [ inl t ↦ rw t refl | inr f ↦ rw f refl ]
  get-delete j k (e ∷ m) h = elim (Bool-cases (same k e.0)) [
    | inl t ↦
        let p : k ≡ e.0 = same→≡ k e.0 t in
        elim (Bool-cases (same j e.0)) [
          | inl u ↦ rw (t, p, u) (get-absent j e.0 m u h.0)
          | inr f ↦ rw (t, p, f) refl
        ]
    | inr d ↦ elim (Bool-cases (same j e.0)) [
      | inl u ↦ rw (d, u, other_text j e.0 k u d) refl
      | inr f ↦ rw (d, f, get-delete j k m h.1) refl
    ]
  ]
