-- ===== src/Common/Results.antt =====
-- A call that returns or raises, over any type of errors, and Python's `int`.
use Prim.Native.Nat.{ℕ}
use mathlib.Core.Path.{◌≡◌, refl, subst}
use mathlib.Core.Logic.{◌⊎◌, inl, inr}

pub data Outcome {ℓ κ} (E : Type ℓ) (A : Type κ) : Type (ℓ ⊔ κ) where
  ok : A → Outcome E A
  raise : E → Outcome E A

-- The rest of a method, where the call before it returned.
abbrev pub ◌>>=◌ {ℓ κ ι} :
    {E : Type ℓ} {A : Type κ} {B : Type ι} → Outcome E A → (A → Outcome E B) → Outcome E B
◌>>=◌ (raise e) rest = raise e
◌>>=◌ (ok a) rest = rest a

abbrev pub ◌>>◌ {ℓ κ} : {E : Type ℓ} {B : Type κ} → Outcome E (Unit {0}) → Outcome E B → Outcome E B
◌>>◌ (raise e) rest = raise e
◌>>◌ (ok _) rest = rest

infixl 5 ◌>>=◌ ◌>>◌
-- `negsuc n` is -(n + 1).
pub data ℤ : Type 0 where
  pos : ℕ → ℤ
  negsuc : ℕ → ℤ

unfoldable pub Outcome-cases {ℓ κ} :
    {E : Type ℓ} {A : Type κ} (r : Outcome E A) → ((e : E) × (r ≡ raise e)) ⊎ ((a : A) × (r ≡ ok a))
Outcome-cases (ok a) = inr (a, refl)
Outcome-cases (raise e) = inl (e, refl)

-- A chain that returned: its first call did, and the rest of it from there.
pub bind_returns {ℓ κ ι} :
    {E : Type ℓ} {A : Type κ} {B : Type ι} (call : Outcome E A) (rest : A → Outcome E B) (b : B)
    → (call >>= rest) ≡ ok b
    → (a : A) × (call ≡ ok a) × (rest a ≡ ok b)
bind_returns (raise e) rest b h = cc
bind_returns (ok a) rest b h = (a, refl, h)

-- What a chain that returns ensures: what the rest of it ensures behind its first call.
pub ensures-bind {ℓ κ ι μ} :
    {E : Type ℓ} {A : Type κ} {B : Type ι} (P : B → Type μ) (call : Outcome E A)
    (rest : A → Outcome E B)
    → ((a : A) → call ≡ ok a → (b : B) → rest a ≡ ok b → P b)
    → (b : B) → (call >>= rest) ≡ ok b
    → P b
ensures-bind P (raise e) rest k b h = absurd (cc)
ensures-bind P (ok a) rest k b h = k a refl b h

pub ensures-then {ℓ ι μ} :
    {E : Type ℓ} {B : Type ι} (P : B → Type μ) (call : Outcome E (Unit {0})) (rest : Outcome E B)
    → (call ≡ ok tt → (b : B) → rest ≡ ok b → P b)
    → (b : B) → (call >> rest) ≡ ok b
    → P b
ensures-then P (raise e) rest k b h = absurd (cc)
ensures-then P (ok tt) rest k b h = k refl b h

Holds {ℓ ι μ} : {E : Type ℓ} {B : Type ι} → (B → Type μ) → Outcome E B → Type μ
Holds P (ok b) = P b
Holds P (raise e) = Unit

pub ensures_ok {ℓ ι μ} :
    {E : Type ℓ} {B : Type ι} (P : B → Type μ) (a b : B)
    → P a
    → ◌≡◌ {A = Outcome E B} (ok a) (ok b)
    → P b
unfolding Holds
ensures_ok P a b p h = subst (Holds P) h p
