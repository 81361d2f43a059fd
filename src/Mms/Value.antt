-- ===== src/Mms/Value.antt =====
-- `struct sMmsValue` of mms/inc_private/mms_value_internal.h: one constructor for each `MmsType` with
-- the union's fields. The components of an array or a structure are pointers that may be NULL. A
-- floating-point number is kept as the octets that the machine holds.
use grid_goose_sv.Prelude.{
  ℕ, zero, suc, List, [], ◌∷◌, ◌==◌, Option, none, some, Bool, if◌then◌else◌, replicate,
}
use grid_goose_sv.Ber.Primitive.{Asn1PrimitiveValue}

mutual
  pub data MmsValue : Type 0 where
    array : Components → MmsValue
    structure : Components → MmsValue
    boolean : Bool → MmsValue
    -- the number of bits, and the octets
    bit_string : ℕ → List ℕ → MmsValue
    integer : Asn1PrimitiveValue → MmsValue
    unsigned : Asn1PrimitiveValue → MmsValue
    -- exponent width, format width, octets
    float : ℕ → ℕ → List ℕ → MmsValue
    -- size, the absolute value of `maxSize`, octets
    octet_string : ℕ → ℕ → List ℕ → MmsValue
    -- the array `buf` with the terminator in it, and `size`
    visible_string : Option (List ℕ) → ℕ → MmsValue
    -- the characters before the terminator, and `size`
    mms_string : Option (List ℕ) → ℕ → MmsValue
    -- size and octets
    binary_time : ℕ → List ℕ → MmsValue
    utc_time : List ℕ → MmsValue
    data_access_error : ℕ → MmsValue
    -- the types that the encoder does not support
    generalized_time : MmsValue
    bcd : MmsValue
    obj_id : MmsValue

  pub data Components : Type 0 where
    nil : Components
    cons : MmsValue → Components → Components
    null_cons : Components → Components

-- The characters before the terminator; an array that is a C string has one.
unfoldable pub until_zero : List ℕ → List ℕ
until_zero [] = []
until_zero (c ∷ cs) = if c == 0 then [] else c ∷ until_zero cs

-- The C string at a pointer to such an array.
unfoldable pub string_of : Option (List ℕ) → Option (List ℕ)
string_of none = none
string_of (some buf) = some (until_zero buf)

-- MmsValue_getArraySize, on an array or a structure.
unfoldable pub array_size : Components → ℕ
array_size nil = 0
array_size (cons v cs) = suc (array_size cs)
array_size (null_cons cs) = suc (array_size cs)

-- The pointer at an index inside the array, as MmsValue_getElement returns it.
unfoldable pub get_component : Components → ℕ → Option MmsValue
get_component nil index = none
get_component (cons v cs) zero = some v
get_component (cons v cs) (suc index) = get_component cs index
get_component (null_cons cs) zero = none
get_component (null_cons cs) (suc index) = get_component cs index

-- MmsValue_getElement
unfoldable pub get_element : MmsValue → ℕ → Option MmsValue
get_element (array cs) index = get_component cs index
get_element (structure cs) index = get_component cs index
get_element v index = none

-- The write of MmsValue_setElement; an index out of range changes nothing.
unfoldable pub set_component : Components → ℕ → Option MmsValue → Components
set_component nil index v = nil
set_component (cons w cs) zero none = null_cons cs
set_component (cons w cs) zero (some v) = cons v cs
set_component (cons w cs) (suc index) v = cons w (set_component cs index v)
set_component (null_cons cs) zero none = null_cons cs
set_component (null_cons cs) zero (some v) = cons v cs
set_component (null_cons cs) (suc index) v = null_cons (set_component cs index v)

-- MmsValue_setElement
unfoldable pub set_element : MmsValue → ℕ → Option MmsValue → MmsValue
set_element (array cs) index v = array (set_component cs index v)
set_element (structure cs) index v = structure (set_component cs index v)
set_element w index v = w

-- MmsValue_createEmptyArray
unfoldable pub empty_components : ℕ → Components
empty_components zero = nil
empty_components (suc size) = null_cons (empty_components size)

-- MmsValue_newBinaryTime: `calloc` leaves the octets zero.
unfoldable pub new_binary_time : Bool → MmsValue
new_binary_time time_of_day =
    if time_of_day then binary_time 4 (replicate 6 0) else binary_time 6 (replicate 6 0)
