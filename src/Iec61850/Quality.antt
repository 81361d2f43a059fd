-- ===== src/Iec61850/Quality.antt =====
-- Quality and Dbpos of iec61850/common/iec61850_common.cc: a word of 16 bits, and a number of two bits.
use grid_goose_sv.Prelude.{
  ℕ, zero, suc, ◌-◌, ◌%◌, ◌^◌, ◌<◌, ◌≡◌, refl, arith, bit_and, bit_or, List, [], ◌∷◌, replicate,
  ltb, ◌==◌, if◌then◌else◌, Bool, true, false, Option, none, some, Outcome, ok, failed, fault,
  ◌>>=◌,
}
use grid_goose_sv.Ber.Bytes.{store}
use grid_goose_sv.Mms.Value.{MmsValue}
use grid_goose_sv.Mms.BitString.{
  new_bit_string, bit_string_byte_size, set_bit_string_from_integer, get_bit_string_as_integer,
  set_bit_string_from_integer_big_endian, get_bit_string_as_integer_big_endian, set_bit_string_bit,
  get_bit_string_bit, change_bit, test_bit, add_power, from_integer_big_endian_loop,
  as_integer_big_endian_loop,
}
use grid_goose_sv.Mms.BitString.Integer.{get-set_bit_string_from_integer}

-- Quality_getValidity
unfoldable pub get_validity : ℕ → ℕ
get_validity self = bit_and self 0x3

-- Quality_setValidity
unfoldable pub set_validity : ℕ → ℕ → ℕ
set_validity self validity = bit_or (bit_and self 0xfffc) validity

-- Quality_isFlagSet
unfoldable pub is_flag_set : ℕ → ℕ → Bool
is_flag_set self flag = if ltb 0 (bit_and self flag) then true else false

-- Quality_setFlag
unfoldable pub set_flag : ℕ → ℕ → ℕ
set_flag self flag = bit_or self flag % 2 ^ 16

-- Quality_unsetFlag
unfoldable pub unset_flag : ℕ → ℕ → ℕ
unset_flag self flag = bit_and self (2 ^ 16 - 1 - flag % 2 ^ 16)

-- Quality_fromMmsValue, on a bit string; another type would be read as one.
unfoldable pub quality_from_mms_value : MmsValue → Outcome ℕ
quality_from_mms_value (MmsValue.bit_string size buf) = do
  value ← get_bit_string_as_integer size buf
  ok (value % 2 ^ 16)
quality_from_mms_value v = fault

-- Quality_toMmsValue, into a value or a new bit string.
unfoldable pub quality_to_mms_value : ℕ → Option MmsValue → Outcome MmsValue
quality_to_mms_value self none = do
  let (size, buf) = new_bit_string 13
  next ← set_bit_string_from_integer size buf self
  ok (MmsValue.bit_string size next)
quality_to_mms_value self (some (MmsValue.bit_string size buf)) = do
  next ← set_bit_string_from_integer size buf self
  ok (MmsValue.bit_string size next)
quality_to_mms_value self (some v) = fault

-- Dbpos_fromMmsValue
unfoldable pub dbpos_from_mms_value : MmsValue → Outcome ℕ
dbpos_from_mms_value (MmsValue.bit_string size buf) = get_bit_string_as_integer_big_endian size buf
dbpos_from_mms_value v = fault

-- The assertions of Dbpos_toMmsValue and its write.
unfoldable pub store_dbpos : ℕ → List ℕ → ℕ → Outcome MmsValue
store_dbpos size buf dbpos =
    if ltb dbpos 4
    then (do
      next ← set_bit_string_from_integer_big_endian size buf dbpos
      ok (MmsValue.bit_string size next))
    else fault

-- Dbpos_toMmsValue; NULL is `failed`.
unfoldable pub dbpos_to_mms_value : Option MmsValue → ℕ → Outcome MmsValue
dbpos_to_mms_value none dbpos = let (size, buf) = new_bit_string 2 in store_dbpos size buf dbpos
dbpos_to_mms_value (some (MmsValue.bit_string size buf)) dbpos =
    if size == 2 then store_dbpos size buf dbpos else failed
dbpos_to_mms_value (some v) dbpos = failed

quality-read :
    (q : ℕ)
    → q < 2 ^ 13
    → (v : MmsValue) × (quality_to_mms_value q none ≡ ok v) × (quality_from_mms_value v ≡ ok q)
unfolding quality_to_mms_value quality_from_mms_value new_bit_string bit_string_byte_size
quality-read q h =
    let (next, run, back) =
      get-set_bit_string_from_integer 13 (replicate 2 0) q (omega arith) (omega arith) (omega arith)
        h in
    let same : q % 2 ^ 16 ≡ q = omega arith in
    (MmsValue.bit_string 13 next, rw run, rw (back, same))

-- The four positions, checked by evaluation.
dbpos-read :
    (dbpos : ℕ)
    → dbpos < 4
    → (v : MmsValue) × (dbpos_to_mms_value none dbpos ≡ ok v) × (dbpos_from_mms_value v ≡ ok dbpos)
unfolding dbpos_to_mms_value dbpos_from_mms_value store_dbpos new_bit_string bit_string_byte_size
    set_bit_string_from_integer_big_endian get_bit_string_as_integer_big_endian set_bit_string_bit
    get_bit_string_bit change_bit test_bit add_power from_integer_big_endian_loop
    as_integer_big_endian_loop store
dbpos-read zero h = (MmsValue.bit_string 2 (0 ∷ []), refl, refl)
dbpos-read (suc zero) h = (MmsValue.bit_string 2 (64 ∷ []), refl, refl)
dbpos-read (suc (suc zero)) h = (MmsValue.bit_string 2 (128 ∷ []), refl, refl)
dbpos-read (suc (suc (suc zero))) h = (MmsValue.bit_string 2 (192 ∷ []), refl, refl)
dbpos-read (suc (suc (suc (suc n)))) h = absurd (omega arith)

-- A quality of at most 13 bits and a double point position are read back from the new bit strings that
-- they are stored in.
pub from-to_mms_value :
    (q dbpos : ℕ)
    → q < 2 ^ 13
    → dbpos < 4
    → ((v : MmsValue) × (quality_to_mms_value q none ≡ ok v) × (quality_from_mms_value v ≡ ok q))
      × ((v : MmsValue) × (dbpos_to_mms_value none dbpos ≡ ok v)
          × (dbpos_from_mms_value v ≡ ok dbpos))
from-to_mms_value q dbpos h k = (quality-read q h, dbpos-read dbpos k)
