-- ===== src/Base/Effects.antt =====
-- Code that calls out of the process: a function of the outside state, whose calls hand back the
-- state that they leave. `try: … except Exception` is a match on the reply.
use Prim.Native.String.{String}

-- what a call into a client library returns, or the text of the exception that it raises
pub data Reply {ℓ} (A : Type ℓ) : Type ℓ where
  ok : A → Reply A
  raised : String → Reply A

abbrev pub Eff {ℓ} : Type ℓ → Type ℓ → Type ℓ
Eff S A = S → A × S

module _ {ℓ} {S A : Type ℓ} where
  abbrev pub pure : A → Eff S A
  pure a s = (a, s)

module _ {ℓ} {A B : Type ℓ} where
  abbrev recover : (A → B) → (String → B) → Reply A → B
  recover f g (ok a) = f a
  recover f g (raised e) = g e

module _ {ℓ} {S A B : Type ℓ} where
  infixl 5 ◌>>=◌
  abbrev pub ◌>>=◌ : Eff S A → (A → Eff S B) → Eff S B
  m >>= f = λ s. let (a, s') = m s in f a s'

  -- `try: return f(await call)` / `except Exception as exc: return g(str(exc))`
  abbrev pub try_call : Eff S (Reply A) → (A → B) → (String → B) → Eff S B
  try_call call f g = λ s. let (reply, s') = call s in (recover f g reply, s')
