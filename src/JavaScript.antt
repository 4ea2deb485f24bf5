-- ===== src/JavaScript.antt =====
-- What the packages use of the language and its standard library: `Map` with the order in which keys
-- were inserted, and `JSON.stringify` of an array of strings.
use event_driven_platform.Prelude.{
  ℕ, ◌+◌, ◌/◌, ◌%◌, Bool, true, false, ◌&&◌, ◌||◌, ltb, leb, ◌==◌, if◌then◌else◌, List, [], ◌∷◌,
  ◌++◌, Option, none, some, Text, text,
}
pub mod Maps
pub mod Quoting
pub mod Lookups
pub mod Numbers

-- `a === b`
unfoldable pub same : Text → Text → Bool
same [] [] = true
same [] (y ∷ ys) = false
same (x ∷ xs) [] = false
same (x ∷ xs) (y ∷ ys) = (x == y) && same xs ys

-- the entries of a `Map` with string keys, in the order of their insertion
abbrev pub Entries {ℓ} : Type ℓ → Type ℓ
Entries V = List (Text × V)

module _ {ℓ} {V : Type ℓ} where
  unfoldable pub map_get : Text → Entries V → Option V
  unfolding same
  map_get k [] = none
  map_get k (e ∷ rest) = if same k e.0 then some e.1 else map_get k rest

  unfoldable pub map_has : Text → Entries V → Bool
  unfolding same
  map_has k [] = false
  map_has k (e ∷ rest) = same k e.0 || map_has k rest

  unfoldable pub map_delete : Text → Entries V → Entries V
  unfolding same
  map_delete k [] = []
  map_delete k (e ∷ rest) = let rest' = map_delete k rest in if same k e.0 then rest else e ∷ rest'

  -- a key that is there keeps its place
  unfoldable pub map_set : Text → V → Entries V → Entries V
  unfolding same
  map_set k v [] = (k, v) ∷ []
  map_set k v (e ∷ rest) =
      let rest' = map_set k v rest in if same k e.0 then (k, v) ∷ rest else e ∷ rest'

-- a hexadecimal digit
abbrev pub hex : ℕ → ℕ
hex n = if ltb n 10 then n + 48 else n + 87

abbrev pub unicode_escape : ℕ → Text
unicode_escape c =
    92 ∷ 117 ∷ hex (c / 4096) ∷ hex (c / 256 % 16) ∷ hex (c / 16 % 16) ∷ hex (c % 16) ∷ []

-- a code point within a JSON string; a lone surrogate is escaped
unfoldable pub escape_code_point : ℕ → Text
escape_code_point c =
    if c == 34 || c == 92
    then 92 ∷ c ∷ []
    else if c == 8
    then 92 ∷ 98 ∷ []
    else if c == 9
    then 92 ∷ 116 ∷ []
    else if c == 10
    then 92 ∷ 110 ∷ []
    else if c == 12
    then 92 ∷ 102 ∷ []
    else if c == 13
    then 92 ∷ 114 ∷ []
    else if ltb c 32 || (leb 55296 c && leb c 57343)
    then unicode_escape c
    else c ∷ []

unfoldable pub escape_text : Text → Text
unfolding escape_code_point
escape_text [] = []
escape_text (c ∷ t) = escape_code_point c ++ escape_text t

unfoldable pub json_string : Text → Text
unfolding escape_text
json_string t = 34 ∷ (escape_text t ++ 34 ∷ [])

unfoldable pub json_tail : List Text → Text
unfolding json_string
json_tail [] = 93 ∷ []
json_tail (t ∷ ts) = 44 ∷ (json_string t ++ json_tail ts)

-- `JSON.stringify(texts)`
unfoldable pub stringify : List Text → Text
unfolding json_string json_tail
stringify [] = text "[]"
stringify (t ∷ ts) = 91 ∷ (json_string t ++ json_tail ts)
