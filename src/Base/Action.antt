-- ===== src/Base/Action.antt =====
-- Code that reads and changes a state and may throw; what it changed before it threw stays.
use mathlib.Core.Path.{◌≡◌, refl, ap}
use mathlib.Core.List.{[]}
use mathlib.Core.Logic.{◌⊎◌, inl, inr}
use deedlit_dev.Base.Texts.{Text}
use deedlit_dev.Base.Outcome.{Outcome, returned, thrown}

abbrev pub Action : Type 0 → Type 0 → Type 0
Action S A = S → Outcome A × S

abbrev pub pure : {S A : Type 0} → A → Action S A
pure a s = (returned a, s)

abbrev pub throw : {S A : Type 0} → Text → Action S A
throw e s = (thrown e, s)

abbrev pub continue : {S A B : Type 0} → (A → Action S B) → Outcome A × S → Outcome B × S
continue f (returned a, s) = f a s
continue f (thrown e, s) = (thrown e, s)

infixl 5 ◌>>=◌
abbrev pub ◌>>=◌ : {S A B : Type 0} → Action S A → (A → Action S B) → Action S B
(m >>= f) s = continue f (m s)

abbrev pub rescue : {S A : Type 0} → (Text → Action S A) → Outcome A × S → Outcome A × S
rescue h (returned a, s) = (returned a, s)
rescue h (thrown e, s) = h e s

-- `try { m } catch (e) { h e }`.
abbrev pub attempt : {S A : Type 0} → Action S A → (Text → Action S A) → Action S A
attempt m h s = rescue h (m s)

-- What the second part is run on, where the whole throws.
abbrev pub ThrownBy : {S A B : Type 0} → (A → Action S B) → Outcome A × S → Text → Type 0
ThrownBy {S} {A} f r e =
    (r.0 ≡ thrown e) ⊎ ((a : A) × (t : S) × (r ≡ (returned a, t)) × ((f a t).0 ≡ thrown e))

abbrev message_of : {A : Type 0} → Outcome A → Text
message_of (returned a) = []
message_of (thrown e) = e

pub continue-thrown :
    {S A B : Type 0} (f : A → Action S B) (r : Outcome A × S) (e : Text)
    → (continue f r).0 ≡ thrown e
    → ThrownBy f r e
continue-thrown f (returned a, s) e h = inr (a, s, refl, h)
continue-thrown f (thrown d, s) e h = inl (ap thrown (ap message_of h))

-- An error of two parts in turn is one that the first or the second throws.
pub >>=-thrown :
    {S A B : Type 0} (m : Action S A) (f : A → Action S B) (s : S) (e : Text)
    → ((m >>= f) s).0 ≡ thrown e
    → ThrownBy f (m s) e
>>=-thrown m f s e h = continue-thrown f (m s) e h

continue-returned :
    {S A B : Type 0} (f : A → Action S B) (r : Outcome A × S) (b : B) (t : S)
    → continue f r ≡ (returned b, t)
    → (a : A) × (u : S) × (r ≡ (returned a, u)) × (f a u ≡ (returned b, t))
continue-returned f (returned a, u) b t h = (a, u, refl, h)
continue-returned f (thrown d, u) b t h = cc (ap (λ x. x.0) h)

-- Where two parts in turn return, both return.
pub >>=-returned :
    {S A B : Type 0} (m : Action S A) (f : A → Action S B) (s : S) (b : B) (t : S)
    → (m >>= f) s ≡ (returned b, t)
    → (a : A) × (u : S) × (m s ≡ (returned a, u)) × (f a u ≡ (returned b, t))
>>=-returned m f s b t h = continue-returned f (m s) b t h
