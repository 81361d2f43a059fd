-- ===== src/Ber/Bytes/Compress.antt =====
-- `BerEncoder_compressInteger` of mms/asn1/ber_encoder.cc: `trim` is the list without the leading
-- octets that only repeat the sign.
use grid_goose_sv.Prelude.{
  ℕ, zero, suc, ◌+◌, ◌-◌, ◌≤◌, ◌<◌, ◌≡◌, refl, ap, ◌∙◌, arith, List, [], ◌∷◌, ◌++◌, length, set,
  drop, take, if◌then◌else◌, append_assoc, length-set, ok, inl, inr, Bool-cases, get_elem?-drop,
  drop-lt, lt→ltb, append-nil, length-drop, ◌==◌, true,
}
use Prim.Native.Nat.add
use native.Mathlib.Numerals.{add-one}
use native.Mathlib.Nat.{add-zero}
use grid_goose_sv.Ber.Bytes.{store, is_redundant, bytes_to_delete, move_down, compress_integer}
use grid_goose_sv.Memory.{take-set, drop-set}

-- The bytes that are kept.
unfoldable pub trim : List ℕ → List ℕ
trim [] = []
trim (b0 ∷ []) = b0 ∷ []
trim (b0 ∷ b1 ∷ bs) = if is_redundant b0 b1 then trim (b1 ∷ bs) else b0 ∷ b1 ∷ bs

trim-eq-drop : (xs : List ℕ) → trim xs ≡ drop (bytes_to_delete xs) xs
unfolding trim bytes_to_delete
trim-eq-drop [] = refl
trim-eq-drop (b0 ∷ []) = refl
trim-eq-drop (b0 ∷ b1 ∷ bs) = ground (arith, trim-eq-drop (b1 ∷ bs))

-- At least one byte is kept.
pub bytes_to_delete-lt : (b : ℕ) (bs : List ℕ) → bytes_to_delete (b ∷ bs) < length (b ∷ bs)
unfolding bytes_to_delete
bytes_to_delete-lt b [] = omega arith
bytes_to_delete-lt b (b1 ∷ bs) = ground (arith, bytes_to_delete-lt b1 bs)

pub drop-cons : (xs : List ℕ) (i : ℕ) → i < length xs → (x : ℕ) × (drop i xs ≡ x ∷ drop (suc i) xs)
drop-cons [] i h = absurd (omega arith)
drop-cons (x ∷ xs) zero h = (x, refl)
drop-cons (x ∷ xs) (suc i) h = drop-cons xs i (omega arith)

-- `out` is `array` with `n` bytes from `from` on moved down to `to`.
pub record Moved (n to from : ℕ) (array out : List ℕ) : Type 0 where
  pub same_length : length out ≡ length array
  pub front : take (to + n) out ≡ take to array ++ take n (drop from array)

move_step :
    (n to from b : ℕ) (array rest : List ℕ)
    → drop from array ≡ b ∷ rest
    → to < from
    → move_down (suc n) to from array ≡ move_down n (to + 1) (from + 1) (set array to b)
unfolding move_down store
move_step n to from b array rest e h =
    rw (get_elem?-drop array from e, lt→ltb to (length array) (omega (arith, drop-lt array from e)))

Moved-suc :
    (n to from b : ℕ) (array out : List ℕ)
    → drop from array ≡ b ∷ drop (suc from) array
    → to < from
    → from < length array
    → Moved n (to + 1) (from + 1) (set array to b) out
    → Moved (suc n) to from array out
Moved-suc n to from b array out e h k m = record {
  same_length = m.same_length ∙ length-set array to b;
  front = rw shift (m.front ∙ joined);
}
  where
    shift : to + suc n ≡ to + 1 + n
    shift = omega arith

    joined :
        take (to + 1) (set array to b) ++ take n (drop (from + 1) (set array to b))
        ≡ take to array ++ take (suc n) (drop from array)
    joined =
        rw
          (
            add-one to,
            add-one from,
            take-set array to b (omega arith),
            drop-set array to (suc from) b (omega arith),
            e,
          )
          (append_assoc (take to array) (b ∷ []) _)

move_down-Moved :
    (n to from : ℕ) (array : List ℕ)
    → to < from
    → from + n ≤ length array
    → (out : List ℕ) × (move_down n to from array ≡ ok out) × Moved n to from array out
move_down-Moved zero to from array h k = (
  array,
  unfold move_down in refl,
  record { same_length = refl; front = rw (add-zero to, append-nil) refl },
)
move_down-Moved (suc n) to from array h k =
    let (b, e) = drop-cons array from (omega arith) in
    let (out, run, m) =
      move_down-Moved n (to + 1) (from + 1) (set array to b) (omega arith)
        (omega (arith, length-set array to b)) in
    (
      out,
      move_step n to from b array _ e h ∙ run,
      Moved-suc n to from b array out e h (omega arith) m,
    )

take-length : (xs : List ℕ) → take (length xs) xs ≡ xs
take-length [] = refl
take-length (x ∷ xs) = ap (λ t. x ∷ t) (take-length xs)

pub length-trim :
    (b : ℕ) (bs : List ℕ) → length (trim (b ∷ bs)) ≡ length (b ∷ bs) - bytes_to_delete (b ∷ bs)
length-trim b bs = rw (trim-eq-drop (b ∷ bs)) (length-drop (bytes_to_delete (b ∷ bs)) (b ∷ bs))

-- On an array that is not empty the function keeps the array's length, and its first bytes, as many
-- as it returns, are the trimmed bytes.
pub compress_integer-trim :
    (b : ℕ) (bs : List ℕ)
    → (out : List ℕ) × (compress_integer (b ∷ bs) ≡ ok (out, length (trim (b ∷ bs))))
      × (length out ≡ length (b ∷ bs))
      × (take (length (trim (b ∷ bs))) out ≡ trim (b ∷ bs))
unfolding compress_integer
compress_integer-trim b bs = elim (Bool-cases (bytes_to_delete (b ∷ bs) == 0)) [
  | inl kept ↦ (b ∷ bs, rw (kept, whole kept), refl, rw (whole kept) (take-length (b ∷ bs)))
  | inr moved ↦
      let d = bytes_to_delete (b ∷ bs) in
      let n = length (b ∷ bs) - d in
      let (out, run, m) =
        move_down-Moved n 0 d (b ∷ bs) (ground arith) (omega (arith, bytes_to_delete-lt b bs)) in
      (
        out,
        rw (moved, run, length-trim b bs),
        m.same_length,
        rw (length-trim b bs) (rw (add.zero n) at m.front ∙ kept_part),
      )
]
  where
    whole : (bytes_to_delete (b ∷ bs) == 0) ≡ true → trim (b ∷ bs) ≡ b ∷ bs
    whole h =
        let none_deleted : bytes_to_delete (b ∷ bs) ≡ 0 = ground arith in
        trim-eq-drop (b ∷ bs) ∙ ap (λ (d : ℕ). drop d (b ∷ bs)) none_deleted

    kept_part :
        take (length (b ∷ bs) - bytes_to_delete (b ∷ bs)) (drop (bytes_to_delete (b ∷ bs)) (b ∷ bs))
        ≡ trim (b ∷ bs)
    kept_part = rw (← length-trim b bs, ← trim-eq-drop (b ∷ bs)) (take-length (trim (b ∷ bs)))
