-- ===== src/Ber/Bytes.antt =====
-- The byte-array helpers of mms/asn1/ber_encoder.cc, `BerEncoder_revertByteOrder` and
-- `BerEncoder_compressInteger`, and the bytes of an integer in memory. Arrays are lists; a read or
-- a write outside one is a fault. A pointer into an array is the array and the offset `start`.
pub mod Revert
pub mod Bits
pub mod Compress
use grid_goose_sv.Prelude.{
  ℕ, zero, suc, ◌+◌, ◌-◌, ◌*◌, ◌/◌, ◌%◌, ◌^◌, ◌≤◌, ◌<◌, ◌≡◌, refl, arith, bit_and, List, [], ◌∷◌,
  ◌++◌, length, ltb, ◌==◌, if◌then◌else◌, set, Bool, true, false, ◌&&◌, ◌||◌, Outcome, ok, fault,
  ◌>>=◌,
}
use grid_goose_sv.Memory.{read}

-- `array[i] = v`
unfoldable pub store : List ℕ → ℕ → ℕ → Outcome (List ℕ)
store array i v = if ltb i (length array) then ok (set array i v) else fault

-- The `w` bytes of an integer as a little-endian machine holds it.
unfoldable pub le_bytes : ℕ → ℕ → List ℕ
le_bytes zero v = []
le_bytes (suc w) v = v % 256 ∷ le_bytes w (v / 256)

-- The loop of BerEncoder_revertByteOrder, with `rounds` iterations left.
unfoldable pub revert_loop : ℕ → ℕ → ℕ → ℕ → List ℕ → Outcome (List ℕ)
revert_loop zero i start size octets = ok octets
revert_loop (suc rounds) i start size octets = do
  temp ← read octets (start + i)
  other ← read octets (start + (size - 1 - i))
  octets1 ← store octets (start + i) other
  octets2 ← store octets1 (start + (size - 1 - i)) temp
  revert_loop rounds (i + 1) start size octets2

-- BerEncoder_revertByteOrder
unfoldable pub revert_byte_order : ℕ → ℕ → List ℕ → Outcome (List ℕ)
revert_byte_order start size octets = revert_loop (size / 2) 0 start size octets

-- The test of BerEncoder_compressInteger: the first byte only repeats the sign of the second.
unfoldable pub is_redundant : ℕ → ℕ → Bool
is_redundant b0 b1 = (b0 == 0x00 && bit_and b1 0x80 == 0) || (b0 == 0xff && bit_and b1 0x80 == 0x80)

-- Its first loop: how far `bytePosition` moves before it stops or reaches the last byte.
unfoldable pub bytes_to_delete : List ℕ → ℕ
bytes_to_delete [] = 0
bytes_to_delete (b0 ∷ []) = 0
bytes_to_delete (b0 ∷ b1 ∷ bs) = if is_redundant b0 b1 then suc (bytes_to_delete (b1 ∷ bs)) else 0

-- Its second loop: the bytes from `from` on are moved down to `to`.
unfoldable pub move_down : ℕ → ℕ → ℕ → List ℕ → Outcome (List ℕ)
move_down zero to from array = ok array
move_down (suc n) to from array = do
  b ← read array from
  array1 ← store array to b
  move_down n (to + 1) (from + 1) array1

-- BerEncoder_compressInteger on an array of `original_size` bytes; the result is the array and the
-- new size.
unfoldable pub compress_integer : List ℕ → Outcome (List ℕ × ℕ)
compress_integer integer =
    let deleted = bytes_to_delete integer in
    let new_size = length integer - deleted in
    if deleted == 0
    then ok (integer, length integer)
    else (do array ← move_down new_size 0 deleted integer; ok (array, new_size))
