-- ===== src/Prelude/Checked.antt =====
-- What a function returns that throws, or that returns a message for a problem it finds.
use mathlib.Core.Path.{◌≡◌, refl}
use mathlib.Core.Logic.{◌⊎◌, inl, inr}
use mathlib.Core.Bool.{Bool, true, false}
use btcr2_aggregation.Prelude.Tests.{if◌then◌else◌}

pub data Checked (E : Type 0) (A : Type 0) : Type 0 where
  valid : A → Checked E A
  problem : E → Checked E A

module _ {E : Type 0} {B : Type 0} where
  infixl 5 ◌>>=◌
  abbrev pub ◌>>=◌ : {A : Type 0} → Checked E A → (A → Checked E B) → Checked E B
  problem e >>= next = problem e
  valid a >>= next = next a

  -- A statement that gives nothing.
  infixl 5 ◌>>◌
  abbrev pub ◌>>◌ : Checked E (Unit {0}) → Checked E B → Checked E B
  first >> later = first >>= λ done. later

module _ {E : Type 0} where
  -- `if (bad) return message`.
  abbrev pub problem_if : Bool → E → Checked E (Unit {0})
  problem_if true e = problem e
  problem_if false e = valid tt

  pub problem_if-eq-valid : (b : Bool) (e : E) (u : Unit {0}) → problem_if b e ≡ valid u → b ≡ false
  problem_if-eq-valid true e u h = cc
  problem_if-eq-valid false e u h = refl

-- Both parts of a chain that succeeds have succeeded.
pub >>=-of_valid {ι} :
    {E A B : Type 0} {P : Type ι} (m : Checked E A) (f : A → Checked E B) {b : B}
    → (m >>= f) ≡ valid b
    → ((a : A) → m ≡ valid a → f a ≡ valid b → P)
    → P
>>=-of_valid (problem e) f h keep = cc
>>=-of_valid (valid a) f h keep = keep a refl h

-- A value behind a test that fails otherwise.
pub if-eq-valid :
    {E A : Type 0} (b : Bool) (e : E) {x y : A}
    → (if b then problem e else valid x) ≡ valid y
    → (b ≡ false) × (x ≡ y)
if-eq-valid true e h = cc
if-eq-valid false e h = (refl, cc)

pub valid-injective : {E A : Type 0} {x y : A} → ◌≡◌ {A = Checked E A} (valid x) (valid y) → x ≡ y
valid-injective h = cc

pub >>=-congruent :
    {E A B : Type 0} (m : Checked E A) (f g : A → Checked E B)
    → ((a : A) → f a ≡ g a)
    → (m >>= f) ≡ (m >>= g)
>>=-congruent (problem e) f g h = refl
>>=-congruent (valid a) f g h = h a

pub Checked-cases :
    {E A : Type 0} (m : Checked E A) → ((a : A) × (m ≡ valid a)) ⊎ ((e : E) × (m ≡ problem e))
Checked-cases (valid a) = inl (a, refl)
Checked-cases (problem e) = inr (e, refl)
