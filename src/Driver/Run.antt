-- ===== src/Driver/Run.antt =====
-- Functions of the driver that hold a loop: `none` means that the loop is still going on when its
-- fuel is used up.
use mathlib.Core.Path.{subst}
use zynq_can_sja1000_top.Common.{◌≡◌, ◌≢◌, refl, Option, none, some}
use zynq_can_sja1000_top.Driver.{World, Step}

abbrev pub Run : Type 0 → Type 0
Run A = World → Option (A × World)

abbrev pub lift : {A : Type 0} → Step A → Run A
lift m w = some (m w)

abbrev pub pure : {A : Type 0} → A → Run A
pure a w = some (a, w)

infixl 5 ◌>>=◌ ◌>>◌
abbrev pub ◌>>=◌ : {A B : Type 0} → Run A → (A → Run B) → Run B
◌>>=◌ m f w = elim (m w) [ none ↦ none | some (a, w') ↦ f a w' ]

abbrev pub ◌>>◌ : {B : Type 0} → Run (Unit {0}) → Run B → Run B
◌>>◌ m n = m >>= λ _. n

-- What holds of the result, if there is one.
abbrev pub Ensures : {A : Type 0} → (A → World → Type 0) → Option (A × World) → Type 0
Ensures P none = Unit {0}
Ensures P (some (a, w)) = P a w

pub Ensures-map :
    {A : Type 0} {P Q : A → World → Type 0} (o : Option (A × World))
    → ((a : A) (w : World) → P a w → Q a w)
    → Ensures P o
    → Ensures Q o
Ensures-map none f e = tt
Ensures-map (some (a, w)) f e = f a w e

-- A step of a chain: what the first part ensures is what the rest starts from.
pub Ensures-elim :
    {A B : Type 0} (P : A → World → Type 0) (Q : B → World → Type 0) (o : Option (A × World))
    (f : A → Run B)
    → Ensures P o
    → ((a : A) (w : World) → P a w → Ensures Q (f a w))
    → Ensures Q (elim o [ none ↦ none | some (a, w) ↦ f a w ])
Ensures-elim P Q none f e g = tt
Ensures-elim P Q (some (a, w)) f e g = g a w e

pub Ensures-some :
    {A : Type 0} (P : A → World → Type 0) {o : Option (A × World)} {a : A} {w : World}
    → Ensures P o
    → o ≡ some (a, w)
    → P a w
Ensures-some P e h = subst (Ensures P) h e

-- There is a result, and this holds of it.
abbrev pub Yields : {A : Type 0} → (A → World → Type 0) → Option (A × World) → Type 0
Yields {A} P o = (a : A) × (w : World) × (o ≡ some (a, w)) × P a w

pub Ensures-Yields :
    {A : Type 0} {P : A → World → Type 0} (o : Option (A × World))
    → o ≢ none
    → Ensures P o
    → Yields P o
Ensures-Yields none f e = absurd (f refl)
Ensures-Yields (some (a, w)) f e = (a, w, refl, e)

-- A chain returns if its parts do.
pub returns-elim :
    {A B : Type 0} (o : Option (A × World)) (f : A → Run B)
    → o ≢ none
    → ((a : A) (w : World) → f a w ≢ none)
    → elim o [ none ↦ none | some (a, w) ↦ f a w ] ≢ none
returns-elim none f h g = absurd (h refl)
returns-elim (some (a, w)) f h g = g a w
