-- ===== src/Iec61850/Constraint.antt =====
-- FunctionalConstraint of iec61850/inc/iec61850_common.h and its two letters in
-- iec61850/common/iec61850_common.cc.
use grid_goose_sv.Prelude.{
  ℕ, ◌≡◌, ◌≢◌, ◌↔◌, refl, sym, ◌∙◌, arith, ◌⊎◌, inl, inr, ◌==◌, if◌then◌else◌, Option, none, some,
}

pub data FunctionalConstraint : Type 0 where
  st mx sp sv cf dc sg se sr or_ bl ex co us ms rp br lg go all_ no_constraint :
      FunctionalConstraint

-- FunctionalConstraint_toString; NULL is `none`.
unfoldable pub constraint_to_string : FunctionalConstraint → Option (ℕ × ℕ)
constraint_to_string st = some (b'S', b'T')
constraint_to_string mx = some (b'M', b'X')
constraint_to_string sp = some (b'S', b'P')
constraint_to_string sv = some (b'S', b'V')
constraint_to_string cf = some (b'C', b'F')
constraint_to_string dc = some (b'D', b'C')
constraint_to_string sg = some (b'S', b'G')
constraint_to_string se = some (b'S', b'E')
constraint_to_string sr = some (b'S', b'R')
constraint_to_string or_ = some (b'O', b'R')
constraint_to_string bl = some (b'B', b'L')
constraint_to_string ex = some (b'E', b'X')
constraint_to_string co = some (b'C', b'O')
constraint_to_string us = some (b'U', b'S')
constraint_to_string ms = some (b'M', b'S')
constraint_to_string rp = some (b'R', b'P')
constraint_to_string br = some (b'B', b'R')
constraint_to_string lg = some (b'L', b'G')
constraint_to_string go = some (b'G', b'O')
constraint_to_string all_ = none
constraint_to_string no_constraint = none

-- FunctionalConstraint_fromString on its first two characters; where the string is shorter they are
-- the terminator and what stands behind it, which is read only behind a letter.
unfoldable pub constraint_from_string : ℕ → ℕ → FunctionalConstraint
constraint_from_string a b =
    if a == b'S'
    then (if b == b'T'
        then st
        else if b == b'P'
        then sp
        else if b == b'V'
        then sv
        else if b == b'G'
        then sg
        else if b == b'E'
        then se
        else if b == b'R'
        then sr
        else no_constraint)
    else if a == b'M'
    then (if b == b'X' then mx else if b == b'S' then ms else no_constraint)
    else if a == b'C'
    then (if b == b'F' then cf else if b == b'O' then co else no_constraint)
    else if a == b'D'
    then (if b == b'C' then dc else no_constraint)
    else if a == b'O'
    then (if b == b'R' then or_ else no_constraint)
    else if a == b'B'
    then (if b == b'L' then bl else if b == b'R' then br else no_constraint)
    else if a == b'E'
    then (if b == b'X' then ex else no_constraint)
    else if a == b'U'
    then (if b == b'S' then us else no_constraint)
    else if a == b'R'
    then (if b == b'P' then rp else no_constraint)
    else if a == b'L'
    then (if b == b'G' then lg else no_constraint)
    else if a == b'G'
    then (if b == b'O' then go else no_constraint)
    else no_constraint

from_letters :
    (fc : FunctionalConstraint) (a b : ℕ)
    → constraint_to_string fc ≡ some (a, b)
    → constraint_from_string a b ≡ fc
unfolding constraint_to_string constraint_from_string
from_letters no_constraint a b h = cc
from_letters _ a b h = ground arith

to_letters :
    (a b : ℕ)
    → (constraint_from_string a b ≡ no_constraint)
      ⊎ (constraint_to_string (constraint_from_string a b) ≡ some (a, b))
unfolding constraint_to_string constraint_from_string
to_letters a b = ground arith

-- A constraint has two letters exactly where they are read as this constraint and it is not the one
-- that stands for none.
pub constraint_to-from_string :
    (fc : FunctionalConstraint) (a b : ℕ)
    → (constraint_to_string fc ≡ some (a, b))
      ↔ ((constraint_from_string a b ≡ fc) × (fc ≢ no_constraint))
constraint_to-from_string fc a b = (
  λ h. (from_letters fc a b h, λ e. absurd (cc (rw e at h, nothing))),
  λ r. by_letters r.0 r.1 (to_letters a b),
)
  where
    nothing : constraint_to_string no_constraint ≡ none
    nothing = unfold constraint_to_string in refl

    by_letters :
        constraint_from_string a b ≡ fc
        → fc ≢ no_constraint
        → (constraint_from_string a b ≡ no_constraint)
          ⊎ (constraint_to_string (constraint_from_string a b) ≡ some (a, b))
        → constraint_to_string fc ≡ some (a, b)
    by_letters e some_fc (inl no_letters) = absurd (some_fc (sym e ∙ no_letters))
    by_letters e some_fc (inr letters) = rw e at letters
