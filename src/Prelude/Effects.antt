-- ===== src/Prelude/Effects.antt =====
-- What a call of the C code can come to: a value, its error code (-1 or NULL), undefined behaviour,
-- or fuel that ran out, which is no behaviour of the code.
use mathlib.Core.Path.{◌≡◌, refl, subst}
use mathlib.Core.Option.{Option, none, some}
use mathlib.Core.Bool.{Bool, true, false}
use grid_goose_sv.Prelude.Tests.{if◌then◌else◌}

pub data Outcome {ℓ} (A : Type ℓ) : Type ℓ where
  ok : A → Outcome A
  failed fault stuck : Outcome A

infixl 5 ◌>>=◌ ◌>>◌
abbrev pub ◌>>=◌ {ℓ κ} : {A : Type ℓ} {B : Type κ} → Outcome A → (A → Outcome B) → Outcome B
ok a >>= f = f a
failed >>= f = failed
fault >>= f = fault
stuck >>= f = stuck

abbrev pub ◌>>◌ {ℓ κ} : {A : Type ℓ} {B : Type κ} → Outcome A → Outcome B → Outcome B
m >> k = m >>= λ _. k

-- A read or a write outside its array is undefined behaviour.
abbrev pub or_fault {ℓ} : {A : Type ℓ} → Option A → Outcome A
or_fault none = fault
or_fault (some a) = ok a

-- The value that a result is computed from.
pub >>=-outcome {ℓ κ} :
    {Step : Type ℓ} {End : Type κ} {result : End} (first : Outcome Step) (rest : Step → Outcome End)
    → (first >>= rest) ≡ ok result
    → (mid : Step) × (first ≡ ok mid) × (rest mid ≡ ok result)
>>=-outcome fault _ stopped = cc
>>=-outcome stuck _ stopped = cc
>>=-outcome failed _ stopped = cc
>>=-outcome (ok mid) _ ran = (mid, refl, ran)

-- What holds of a result holds of whatever is equal to it.
pub ok-subst {ℓ} : {A : Type ℓ} (P : A → Type 0) (a b : A) → ok a ≡ ok b → P a → P b
ok-subst P a b e h = let same : a ≡ b = cc in subst P same h

pub >>=_assoc {ℓ κ} :
    {A B : Type ℓ} {C : Type κ} (m : Outcome A) (f : A → Outcome B) (g : B → Outcome C)
    → ((m >>= f) >>= g) ≡ (m >>= λ a. f a >>= g)
>>=_assoc (ok a) f g = refl
>>=_assoc failed f g = refl
>>=_assoc fault f g = refl
>>=_assoc stuck f g = refl

pub >>=_ext {ℓ κ} :
    {A : Type ℓ} {B : Type κ} (m : Outcome A) (f g : A → Outcome B)
    → ((a : A) → f a ≡ g a)
    → (m >>= f) ≡ (m >>= g)
>>=_ext (ok a) f g h = h a
>>=_ext failed f g h = refl
>>=_ext fault f g h = refl
>>=_ext stuck f g h = refl

-- Neither undefined behaviour nor lack of fuel, and a value that is returned has the property.
abbrev pub Ensures {ℓ} : {A : Type ℓ} → (A → Type 0) → Outcome A → Type 0
Ensures P (ok a) = P a
Ensures P failed = Unit {0}
Ensures P fault = ⊥
Ensures P stuck = ⊥

pub Ensures-bind {ℓ κ} :
    {A : Type ℓ} {B : Type κ} (P : A → Type 0) (Q : B → Type 0) (m : Outcome A) (f : A → Outcome B)
    → Ensures P m
    → ((a : A) → P a → Ensures Q (f a))
    → Ensures Q (m >>= f)
Ensures-bind P Q (ok a) f h k = k a h
Ensures-bind P Q failed f h k = tt
Ensures-bind P Q fault f h k = absurd h
Ensures-bind P Q stuck f h k = absurd h

-- What holds of a result, with the computation that it comes from.
pub Ensures-with :
    {A : Type 0} (P : A → Type 0) (m : Outcome A)
    → Ensures P m
    → Ensures {A = A} (λ a. P a × (m ≡ ok a)) m
Ensures-with P (ok a) h = (h, refl)
Ensures-with P failed h = tt
Ensures-with P fault h = h
Ensures-with P stuck h = h

pub Ensures-if {ℓ} :
    {A : Type ℓ} (P : A → Type 0) (b : Bool) (x y : Outcome A)
    → (b ≡ true → Ensures P x)
    → (b ≡ false → Ensures P y)
    → Ensures P (if b then x else y)
Ensures-if P true x y h k = h refl
Ensures-if P false x y h k = k refl

-- `if (result < 0) handler else k(result)`
abbrev pub on_failure {ℓ κ} :
    {A : Type ℓ} {B : Type κ} → Outcome A → Outcome B → (A → Outcome B) → Outcome B
on_failure (ok a) handler k = k a
on_failure failed handler k = handler
on_failure fault handler k = fault
on_failure stuck handler k = stuck

pub Ensures-on_failure {ℓ κ} :
    {A : Type ℓ} {B : Type κ} (P : A → Type 0) (Q : B → Type 0) (m : Outcome A)
    (handler : Outcome B) (k : A → Outcome B)
    → Ensures P m
    → Ensures Q handler
    → ((a : A) → P a → Ensures Q (k a))
    → Ensures Q (on_failure m handler k)
Ensures-on_failure P Q (ok a) handler k h e f = f a h
Ensures-on_failure P Q failed handler k h e f = e
Ensures-on_failure P Q fault handler k h e f = absurd h
Ensures-on_failure P Q stuck handler k h e f = absurd h

pub Ensures-weaken {ℓ} :
    {A : Type ℓ} (P Q : A → Type 0) (m : Outcome A)
    → Ensures P m
    → ((a : A) → P a → Q a)
    → Ensures Q m
Ensures-weaken P Q (ok a) h k = k a h
Ensures-weaken P Q failed h k = tt
Ensures-weaken P Q fault h k = h
Ensures-weaken P Q stuck h k = h
