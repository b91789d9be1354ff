-- ===== src/Base/Actions.antt =====
-- Code that changes a state and may throw: what was written before a throw stays written.
use mathlib.Core.Path.{◌≡◌, refl}
use mathlib.Core.Logic.{◌⊎◌, inl, inr}

-- The `std::runtime_error`s of the sources, by the text that they are thrown with.
pub data Exception : Type 0 where
  wallet_exists write_failed wallet_not_found withdraw_from_nonexistent : Exception
  transaction_not_found key_not_found invalid_block genesis_rejected request_failed : Exception
  -- no exception: the run is undefined from here on
  undefined_behaviour : Exception

pub data Result {ℓ} (A : Type ℓ) : Type ℓ where
  returned : A → Result A
  threw : Exception → Result A

abbrev pub Action : Type 0 → Type 0 → Type 0
Action S A = S → Result A × S

module _ {S A : Type 0} where
  abbrev pub pure : A → Action S A
  pure a s = (returned a, s)

  abbrev pub throw : Exception → Action S A
  throw e s = (threw e, s)

  -- A read of the state that may throw.
  abbrev pub reads : (S → Result A) → Action S A
  reads f s = (f s, s)

infixl 5 ◌>>=◌ ◌>>◌
abbrev pub ◌>>=◌ : {S A B : Type 0} → Action S A → (A → Action S B) → Action S B
◌>>=◌ m f s = let (r, s') = m s in elim r [ returned a ↦ f a s' | threw e ↦ (threw e, s') ]

abbrev pub ◌>>◌ : {S A B : Type 0} → Action S A → Action S B → Action S B
m >> k = m >>= λ _. k

pub returned_eq : {A : Type 0} {x y : A} → ◌≡◌ {A = Result A} (returned x) (returned y) → x ≡ y
returned_eq h = cc

pub threw-ne-returned :
    {A : Type 0} {ex : Exception} {y : A} → ◌≡◌ {A = Result A} (threw ex) (returned y) → ⊥
threw-ne-returned h = cc

-- A step ran to its end or threw.
pub step-cases :
    {S : Type 0} (m : Action S (Unit {0})) (s : S)
    → ((m s).0 ≡ returned tt) ⊎ ((ex : Exception) × ((m s).0 ≡ threw ex))
step-cases m s = go (m s).0
  where
    go : (r : Result (Unit {0})) → (r ≡ returned tt) ⊎ ((ex : Exception) × (r ≡ threw ex))
    go (returned u) = inl refl
    go (threw ex) = inr (ex, refl)

pub Result-cases :
    {A : Type 0} (r : Result A) → ((a : A) × (r ≡ returned a)) ⊎ ((ex : Exception) × (r ≡ threw ex))
Result-cases (returned a) = inl (a, refl)
Result-cases (threw ex) = inr (ex, refl)

-- `m` keeps what holds of the state, also where it throws.
abbrev pub Keeps : {S A : Type 0} → (S → Type 0) → Action S A → Type 0
Keeps {S} P m = (s : S) → P s → P (m s).1

-- From a state with `P`, `m` comes to one with `Q`, also where it throws.
abbrev pub Leads : {S A : Type 0} → (S → Type 0) → (S → Type 0) → Action S A → Type 0
Leads {S} P Q m = (s : S) → P s → Q (m s).1

pub Leads->>= :
    {S A B : Type 0} (P Q : S → Type 0) (m : Action S A) (f : A → Action S B)
    → Keeps P m
    → ((s : S) → P s → Q s)
    → ((a : A) → Leads P Q (f a))
    → Leads P Q (m >>= f)
Leads->>= P Q m f first weaker rest s h = elim (Result-cases (m s).0) [
  | inl (a, e) ↦ rw (e, ◌>>=◌) (rest a (m s).1 (first s h))
  | inr (ex, e) ↦ rw (e, ◌>>=◌) (weaker (m s).1 (first s h))
]

pub Keeps->>= :
    {S A B : Type 0} (P : S → Type 0) (m : Action S A) (f : A → Action S B)
    → Keeps P m
    → ((a : A) → Keeps P (f a))
    → Keeps P (m >>= f)
Keeps->>= P m f first rest = Leads->>= P P m f first (λ s h. h) rest

-- A value that is returned behind a step does not change the state.
pub seq_pure_state :
    {S A : Type 0} (m : Action S (Unit {0})) (a : A) (s : S) → ((m >> pure a) s).1 ≡ (m s).1
seq_pure_state m a s = elim (step-cases m s) [
  | inl e ↦ rw (e, ◌>>=◌) refl
  | inr (ex, e) ↦ rw (e, ◌>>=◌) refl
]
