-- ===== src/Common/Effects.antt =====
-- Calls that change a state and return or raise; what was changed before a raise stays.
use mathlib.Core.Path.{◌≡◌, refl, subst}
use litecast.Common.Results.{Outcome, ok, raise}

abbrev pub Effect {ℓ} : Type ℓ → Type ℓ → Type ℓ → Type ℓ
Effect S E A = S → Outcome E A × S

module _ {ℓ} {S E : Type ℓ} where
  abbrev pub continue : {A B : Type ℓ} → Outcome E A × S → (A → Effect S E B) → Outcome E B × S
  continue (raise e, s) rest = (raise e, s)
  continue (ok a, s) rest = rest a s

  abbrev pub ◌>>=◌ : {A B : Type ℓ} → Effect S E A → (A → Effect S E B) → Effect S E B
  ◌>>=◌ call rest s = continue (call s) rest

  abbrev pub ◌>>◌ : {A B : Type ℓ} → Effect S E A → Effect S E B → Effect S E B
  ◌>>◌ call rest s = continue (call s) (λ _. rest)

  infixl 5 ◌>>=◌ ◌>>◌
  -- A call that leaves the state as it is.
  abbrev pub lift : {A : Type ℓ} → Outcome E A → Effect S E A
  lift r s = (r, s)

  -- What a chain that returns ensures: what the rest of it ensures behind its first call.
  pub ensures-continue :
      {A B : Type ℓ} (P : B → S → Type ℓ) (r : Outcome E A × S) (rest : A → Effect S E B)
      → ((a : A) (s : S) → r ≡ (ok a, s) → (b : B) (s' : S) → rest a s ≡ (ok b, s') → P b s')
      → (b : B) (s' : S) → continue r rest ≡ (ok b, s')
      → P b s'
  ensures-continue P (raise e, s) rest k b s' h = absurd (cc)
  ensures-continue P (ok a, s) rest k b s' h = k a s refl b s' h

  pub ensures-lift :
      {A B : Type ℓ} (P : B → S → Type ℓ) (r : Outcome E A) (s : S) (rest : A → Effect S E B)
      → ((a : A) → r ≡ ok a → (b : B) (s' : S) → rest a s ≡ (ok b, s') → P b s')
      → (b : B) (s' : S) → continue (r, s) rest ≡ (ok b, s')
      → P b s'
  ensures-lift P (raise e) s rest k b s' h = absurd (cc)
  ensures-lift P (ok a) s rest k b s' h = k a refl b s' h

  Holds : {B : Type ℓ} → (B → S → Type ℓ) → Outcome E B × S → Type ℓ
  Holds P (ok b, s) = P b s
  Holds P (raise e, s) = Unit

  -- The end of a chain.
  pub ensures_end :
      {B : Type ℓ} (P : B → S → Type ℓ) (a b : B) (s s' : S)
      → P a s
      → ◌≡◌ {A = Outcome E B × S} (ok a, s) (ok b, s')
      → P b s'
  unfolding Holds
  ensures_end P a b s s' p h = subst (Holds P) h p
