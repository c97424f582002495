-- ===== src/Prelude/Outcomes.antt =====
-- What a call leads to where the program may end in it.
use bounce.Prelude.{ℕ, ◌≡◌, refl, Option, none, some}

-- It returns, the program exits with a code, it uses a null pointer, or `std::terminate` runs.
pub data Outcome {ℓ} (A : Type ℓ) : Type ℓ where
  returns : A → Outcome A
  exits : ℕ → Outcome A
  crashes : Outcome A
  terminates : Outcome A

module _ {ℓ} {A B : Type ℓ} where
  infixl 10 ◌>>=◌
  abbrev pub ◌>>=◌ : Outcome A → (A → Outcome B) → Outcome B
  returns a >>= f = f a
  exits code >>= f = exits code
  crashes >>= f = crashes
  terminates >>= f = terminates

pub bind_assoc {ℓ} :
    {A B C : Type ℓ} (o : Outcome A) (f : A → Outcome B) (g : B → Outcome C)
    → ((o >>= f) >>= g) ≡ (o >>= λ a. f a >>= g)
bind_assoc (returns a) f g = refl
bind_assoc (exits code) f g = refl
bind_assoc crashes f g = refl
bind_assoc terminates f g = refl

-- What a call returns, if it does.
abbrev pub returned {ℓ} : {A : Type ℓ} → Outcome A → Option A
returned (returns a) = some a
returned (exits code) = none
returned crashes = none
returned terminates = none
