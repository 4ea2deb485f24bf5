-- ===== src/Effects.antt =====
-- Asynchronous methods that read and change the world and may throw. What was done before a throw
-- stays done, so the state comes back beside the error too.

pub mod Hoare
pub mod Traced
pub mod Results

pub data Result {ℓ} (E A : Type ℓ) : Type ℓ where
  ok : A → Result E A
  err : E → Result E A

abbrev pub Exec {ℓ} : Type ℓ → Type ℓ → Type ℓ → Type ℓ
Exec S E A = S → Result E A × S

module _ {ℓ} {S E A : Type ℓ} where
  abbrev pub pure : A → Exec S E A
  pure a s = (ok a, s)

  abbrev pub throw : E → Exec S E A
  throw e s = (err e, s)

  -- a function that may throw and has no effect
  abbrev pub lift : Result E A → Exec S E A
  lift r s = (r, s)

module _ {ℓ} {S E A B : Type ℓ} where
  abbrev pub continue : Result E A → (A → Exec S E B) → Exec S E B
  continue (ok a) f s = f a s
  continue (err e) f s = (err e, s)

  infixl 10 ◌>>=◌ ◌>>◌
  abbrev pub ◌>>=◌ : Exec S E A → (A → Exec S E B) → Exec S E B
  ◌>>=◌ m f s = let (r, s') = m s in continue r f s'

  abbrev pub ◌>>◌ : Exec S E A → Exec S E B → Exec S E B
  m >> n = m >>= λ _. n

module _ {ℓ} {S E F A B : Type ℓ} where
  abbrev pub settle : Result E A → (A → Exec S F B) → (E → Exec S F B) → Exec S F B
  settle (ok a) k h s = k a s
  settle (err e) k h s = h e s

  -- `let a; try { a = await m } catch (e) { return h(e) } return k(a)`
  abbrev pub attempt : Exec S E A → (A → Exec S F B) → (E → Exec S F B) → Exec S F B
  attempt m k h s = let (r, s') = m s in settle r k h s'

module _ {ℓ} {S E F A : Type ℓ} where
  -- `try { return await m } catch (e) { h(e) }`
  abbrev pub catch : Exec S E A → (E → Exec S F A) → Exec S F A
  catch m h = attempt m pure h
