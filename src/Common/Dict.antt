-- ===== src/Common/Dict.antt =====
-- Python's `dict` and `OrderedDict`: the entries in the order of insertion, each key once.
use mathlib.Core.Logic.{◌≢◌, ite, if_pos, if_neg}
use mathlib.Core.List.{List, [], ◌∷◌, ◌++◌}
use mathlib.Core.Option.{Option, none, some}
use mathlib.Core.Path.{◌≡◌, refl, subst}
use native.Mathlib.Omega.{arith}

module _ {ℓ} {K V : Type ℓ} (dec : Discrete K) where
  -- `d.get(k)`
  unfoldable pub get : K → List (K × V) → Option V
  get k [] = none
  get k ((j, v) ∷ d) = ite (dec j k) (some v) (get k d)

  -- `del d[k]` and the second half of `d.pop(k, None)`
  unfoldable pub remove : K → List (K × V) → List (K × V)
  remove k [] = []
  remove k ((j, v) ∷ d) = ite (dec j k) d ((j, v) ∷ remove k d)

  -- `d[k] = v`: in place, or at the end.
  unfoldable pub set : K → V → List (K × V) → List (K × V)
  set k v [] = (k, v) ∷ []
  set k v ((j, w) ∷ d) = ite (dec j k) ((j, v) ∷ d) ((j, w) ∷ set k v d)

  -- Each key stands once.
  abbrev pub IsDistinct : List (K × V) → Type ℓ
  IsDistinct [] = Unit
  IsDistinct ((k, v) ∷ d) = (get k d ≡ none) × IsDistinct d

  pub get-set :
      (k j : K) (v : V) (d : List (K × V)) → get j (set k v d) ≡ ite (dec k j) (some v) (get j d)
  unfolding get set
  get-set k j v [] = refl
  get-set k j v ((i, w) ∷ d) = ground (arith, get-set k j v d)

  pub get-set_self : (k : K) (v : V) (d : List (K × V)) → get k (set k v d) ≡ some v
  get-set_self k v d = rw get-set (if_pos (dec k k) refl _ _)

  pub get-set_ne : (k j : K) (v : V) (d : List (K × V)) → k ≢ j → get j (set k v d) ≡ get j d
  get-set_ne k j v d h = rw get-set (if_neg (dec k j) h _ _)

  pub get-remove_ne : (k j : K) (d : List (K × V)) → k ≢ j → get j (remove k d) ≡ get j d
  unfolding get remove
  get-remove_ne k j [] h = refl
  get-remove_ne k j ((i, w) ∷ d) h = ground (arith, get-remove_ne k j d)

  pub get-remove_self : (k : K) (d : List (K × V)) → IsDistinct d → get k (remove k d) ≡ none
  unfolding get remove
  get-remove_self k [] h = refl
  get-remove_self k ((i, w) ∷ d) h = ground (arith, get-remove_self k d)

  pub remove_absent : (k : K) (d : List (K × V)) → get k d ≡ none → remove k d ≡ d
  unfolding get remove
  remove_absent k [] h = refl
  remove_absent k ((i, w) ∷ d) h = ground (arith, remove_absent k d)

  pub set_absent :
      (k : K) (v : V) (d : List (K × V)) → get k d ≡ none → set k v d ≡ d ++ (k, v) ∷ []
  unfolding get set
  set_absent k v [] h = refl
  set_absent k v ((i, w) ∷ d) h = ground (arith, set_absent k v d)

  get-remove-eq-none : (k j : K) (d : List (K × V)) → get j d ≡ none → get j (remove k d) ≡ none
  unfolding get remove
  get-remove-eq-none k j [] h = refl
  get-remove-eq-none k j ((i, w) ∷ d) h = ground (arith, get-remove-eq-none k j d)

  pub remove-IsDistinct : (k : K) (d : List (K × V)) → IsDistinct d → IsDistinct (remove k d)
  unfolding remove
  remove-IsDistinct k [] h = tt
  remove-IsDistinct k ((i, w) ∷ d) h = elim (dec i k) [
    | yes p ↦ rw (if_pos _ p) h.1
    | no p ↦ rw (if_neg _ p) (get-remove-eq-none k i d h.0, remove-IsDistinct k d h.1)
  ]

  pub set-IsDistinct : (k : K) (v : V) (d : List (K × V)) → IsDistinct d → IsDistinct (set k v d)
  unfolding set
  set-IsDistinct k v [] h = (unfold get in refl, tt)
  set-IsDistinct k v ((i, w) ∷ d) h = elim (dec i k) [
    | yes p ↦ rw (if_pos _ p) h
    | no p ↦
        rw (if_neg _ p)
          (rw (get-set_ne k i v d (λ e. p (ground (arith, e)))) h.0, set-IsDistinct k v d h.1)
  ]

  -- Every value satisfies `P`.
  abbrev pub All : (V → Type ℓ) → List (K × V) → Type ℓ
  All P [] = Unit
  All P ((k, v) ∷ d) = P v × All P d

  pub All-get :
      (P : V → Type ℓ) (k : K) (d : List (K × V)) (v : V) → get k d ≡ some v → All P d → P v
  unfolding get
  All-get P k [] v h a = cc
  All-get P k ((j, w) ∷ d) v h a = elim (dec j k) [
    | yes p ↦ subst P {x = w} (ground arith) a.0
    | no p ↦ All-get P k d v (ground arith) a.1
  ]

  pub All-remove : (P : V → Type ℓ) (k : K) (d : List (K × V)) → All P d → All P (remove k d)
  unfolding remove
  All-remove P k [] a = tt
  All-remove P k ((j, w) ∷ d) a = elim (dec j k) [
    | yes p ↦ rw (if_pos _ p) a.1
    | no p ↦ rw (if_neg _ p) (a.0, All-remove P k d a.1)
  ]

  pub All-set :
      (P : V → Type ℓ) (k : K) (v : V) (d : List (K × V)) → P v → All P d → All P (set k v d)
  unfolding set
  All-set P k v [] p a = (p, tt)
  All-set P k v ((j, w) ∷ d) p a = elim (dec j k) [
    | yes e ↦ rw (if_pos _ e) (p, a.1)
    | no e ↦ rw (if_neg _ e) (a.0, All-set P k v d p a.1)
  ]
