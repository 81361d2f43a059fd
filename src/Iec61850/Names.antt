-- ===== src/Iec61850/Names.antt =====
-- The names of iec61850/common/iec61850_common.cc: an object reference such as LD/LN.DO.DA becomes the
-- MMS domain LD and the MMS variable name LN$FC$DO$DA. A string is the list of its characters, none of
-- them 0, and what `malloc` returns is an array of zeros, of which every octet that is read later is
-- written first.
pub mod Variable
use grid_goose_sv.Prelude.{
  ℕ, suc, ◌+◌, ◌-◌, List, [], ◌∷◌, ◌++◌, length, take, drop, replicate, ltb, ◌==◌, ◌||◌,
  if◌then◌else◌, Bool, true, false, Option, none, some, Outcome, ok, failed, ◌>>=◌,
}
use grid_goose_sv.Memory.{Cursor, put, put_all}
use grid_goose_sv.Iec61850.Constraint.{FunctionalConstraint, constraint_to_string, no_constraint}

-- The loop for the end of the logical device's name: the index of the first '/', or the length.
unfoldable pub slash_index : List ℕ → ℕ
slash_index [] = 0
slash_index (c ∷ cs) = let rest = slash_index cs in if c == b'/' then 0 else suc rest

-- The memory that the name is written to: the caller's, or new memory of the size given.
unfoldable pub target : Option (List ℕ) → ℕ → Cursor
target none size = record { buffer = replicate size 0; pos = 0 }
target (some buffer) size = record { buffer = buffer; pos = 0 }

-- MmsMapping_getMmsDomainFromObjectReference
unfoldable pub get_mms_domain : List ℕ → Option (List ℕ) → Outcome (List ℕ)
get_mms_domain object_reference buffer =
    let i = slash_index object_reference in
    if ltb 129 (length object_reference)
    then failed
    else if ltb 64 i
    then failed
    else if i == length object_reference
    then failed
    else (do c ← put_all (take i object_reference ++ (0 ∷ [])) (target buffer (i + 1)); ok c.buffer)

-- The loop of MmsMapping_createMmsVariableNameFromObjectReference over the characters that are left;
-- `added` says whether the constraint has been written.
unfoldable pub name_loop : ℕ → ℕ → List ℕ → Bool → Cursor → Outcome (Cursor × Bool)
name_loop a b [] added c = ok (c, added)
name_loop a b (x ∷ xs) added c = do
  next ←
      (if x == b'.'
        then (if added then put b'$' c else put_all (b'$' ∷ a ∷ b ∷ b'$' ∷ []) c)
        else put x c)
  name_loop a b xs (added || x == b'.') next

-- What stands behind the loop.
unfoldable pub finish_name : ℕ → ℕ → Cursor × Bool → Outcome (List ℕ)
finish_name a b (c, added) = do
  next ← (if added then ok c else put_all (b'$' ∷ a ∷ b ∷ []) c)
  end ← put 0 next
  ok end.buffer

-- The part of the reference behind the logical device's name.
unfoldable pub name_part : List ℕ → List ℕ
name_part object_reference =
    let i = slash_index object_reference in
    drop (if i == length object_reference then 0 else i + 1) object_reference

-- The rest of the function for a constraint with the letters `a` and `b`: `namePartLength` is one less
-- than the number of characters, and may be -1.
unfoldable pub create_named : ℕ → ℕ → List ℕ → Option (List ℕ) → Outcome (List ℕ)
create_named a b name buffer =
    if ltb 62 (length name)
    then failed
    else (do r ← name_loop a b name false (target buffer (length name + 4)); finish_name a b r)

-- MmsMapping_createMmsVariableNameFromObjectReference, with StringUtils_copyStringMax; NULL is `failed`.
unfoldable pub create_mms_variable_name :
    List ℕ → FunctionalConstraint → Option (List ℕ) → Outcome (List ℕ)
create_mms_variable_name object_reference fc buffer =
    if ltb 129 (length object_reference)
    then failed
    else if ltb 64 (slash_index object_reference)
    then failed
    else elim fc as (λ _. Outcome (List ℕ)) [
      | no_constraint ↦ (do
        c ← put_all (take 64 (name_part object_reference) ++ (0 ∷ [])) (target buffer 65)
        ok c.buffer)
      | other ↦ elim (constraint_to_string other) [
        | none ↦ failed
        | some (a, b) ↦ create_named a b (name_part object_reference) buffer
      ]
    ]
