-- ===== src/Base/Outcome.antt =====
-- Code that may throw: a value, or the message of the error thrown.
use mathlib.Core.Path.{◌≡◌, refl}
use mathlib.Core.List.{List, [], ◌∷◌, ◌++◌}
use deedlit_dev.Base.Texts.{Text}

pub data Outcome {ℓ} (A : Type ℓ) : Type ℓ where
  returned : A → Outcome A
  thrown : Text → Outcome A

infixl 5 ◌>>=◌
abbrev pub ◌>>=◌ {ℓ κ} : {A : Type ℓ} {B : Type κ} → Outcome A → (A → Outcome B) → Outcome B
returned a >>= f = f a
thrown e >>= f = thrown e

-- `try { m } catch (e) { h e }`.
abbrev pub catch {ℓ} : {A : Type ℓ} → Outcome A → (Text → A) → A
catch (returned a) h = a
catch (thrown e) h = h e

pub >>=_assoc {ℓ} :
    {A B C : Type ℓ} (m : Outcome A) (f : A → Outcome B) (g : B → Outcome C)
    → ((m >>= f) >>= g) ≡ (m >>= (λ a. f a >>= g))
>>=_assoc (returned a) f g = refl
>>=_assoc (thrown e) f g = refl

-- The calls in turn, their results joined, up to the first error.
abbrev pub gather {ℓ κ} :
    {A : Type ℓ} {B : Type κ} → (A → Outcome (List B)) → List A → Outcome (List B)
gather f [] = returned []
gather f (x ∷ xs) = do ys ← f x; zs ← gather f xs; returned (ys ++ zs)

pub >>=-returned {ℓ} : {A : Type ℓ} (m : Outcome A) → (m >>= returned) ≡ m
>>=-returned (returned a) = refl
>>=-returned (thrown e) = refl
