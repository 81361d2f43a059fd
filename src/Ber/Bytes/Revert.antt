-- ===== src/Ber/Bytes/Revert.antt =====
-- `BerEncoder_revertByteOrder` of mms/asn1/ber_encoder.cc and the reversal of a list.
use grid_goose_sv.Prelude.{
  ℕ, zero, suc, ◌+◌, ◌-◌, ◌*◌, ◌/◌, ◌≡◌, refl, sym, ap, arith, List, [], ◌∷◌, ◌++◌, length,
  get_elem?, set, reverse, append_assoc, length-append, ok, some, subst,
}
use grid_goose_sv.Ber.Bytes.{store, revert_loop, revert_byte_order}
use grid_goose_sv.Memory.{read}
use mathlib.Core.List.{reverse-append, reverse-cons}

-- An element in the middle of a list: its position, and a write to it.
get_elem?-middle :
    (xs ys : List ℕ) (x i : ℕ) → i ≡ length xs → get_elem? (xs ++ (x ∷ ys)) i ≡ some x
get_elem?-middle [] ys x zero e = refl
get_elem?-middle [] ys x (suc i) e = absurd (omega arith)
get_elem?-middle (z ∷ xs) ys x zero e = absurd (omega arith)
get_elem?-middle (z ∷ xs) ys x (suc i) e = get_elem?-middle xs ys x i (omega arith)

set-middle :
    (xs ys : List ℕ) (x v i : ℕ) → i ≡ length xs → set (xs ++ (x ∷ ys)) i v ≡ xs ++ (v ∷ ys)
set-middle [] ys x v zero e = refl
set-middle [] ys x v (suc i) e = absurd (omega arith)
set-middle (z ∷ xs) ys x v zero e = absurd (omega arith)
set-middle (z ∷ xs) ys x v (suc i) e = ap (λ t. z ∷ t) (set-middle xs ys x v i (omega arith))

read-middle : (xs ys : List ℕ) (x i : ℕ) → i ≡ length xs → read (xs ++ (x ∷ ys)) i ≡ ok x
read-middle xs ys x i e = rw (get_elem?-middle xs ys x i e)

store-middle :
    (xs ys : List ℕ) (x v i : ℕ) → i ≡ length xs → store (xs ++ (x ∷ ys)) i v ≡ ok (xs ++ (v ∷ ys))
unfolding store
store-middle xs ys x v i e = ground (arith, length-append xs (x ∷ ys), set-middle xs ys x v i e)

-- One round swaps the two ends of what is still to be reversed.
swap_round :
    (rounds i start size a b : ℕ) (pre mid post : List ℕ)
    → start + i ≡ length pre
    → size ≡ 2 * i + 2 + length mid
    → revert_loop (suc rounds) i start size (pre ++ (a ∷ (mid ++ (b ∷ post))))
      ≡ revert_loop rounds (i + 1) start size (pre ++ (b ∷ (mid ++ (a ∷ post))))
unfolding revert_loop
swap_round rounds i start size a b pre mid post hi hs = rw (
  read-middle pre (mid ++ (b ∷ post)) a (start + i) hi,
  far a,
  read-middle (pre ++ (a ∷ mid)) post b (start + (size - 1 - i)) (far_length a),
  ← far a,
  store-middle pre (mid ++ (b ∷ post)) a b (start + i) hi,
  far b,
  store-middle (pre ++ (b ∷ mid)) post b a (start + (size - 1 - i)) (far_length b),
  append_assoc pre (b ∷ mid) (a ∷ post),
)
  where
    far : (x : ℕ) → pre ++ (x ∷ (mid ++ (b ∷ post))) ≡ (pre ++ (x ∷ mid)) ++ (b ∷ post)
    far x = sym (append_assoc pre (x ∷ mid) (b ∷ post))

    far_length : (x : ℕ) → start + (size - 1 - i) ≡ length (pre ++ (x ∷ mid))
    far_length x = omega (arith, length-append pre (x ∷ mid))

-- A list that is not empty has a last element.
pub unsnoc : (x : ℕ) (xs : List ℕ) → (init : List ℕ) × (last : ℕ) × (x ∷ xs ≡ init ++ (last ∷ []))
unsnoc x [] = ([], x, refl)
unsnoc x (y ∷ xs) = let (init, last, e) = unsnoc y xs in (x ∷ init, last, ap (λ t. x ∷ t) e)

reverse-ends :
    (a b : ℕ) (mid : List ℕ) → reverse (a ∷ (mid ++ (b ∷ []))) ≡ b ∷ (reverse mid ++ (a ∷ []))
reverse-ends a b mid = rw (reverse-cons, reverse-append mid (b ∷ [])) refl

swap_ends :
    (rounds i start size a b : ℕ) (pre mid post : List ℕ)
    → start + i ≡ length pre
    → size ≡ 2 * i + 2 + length mid
    → revert_loop rounds (i + 1) start size ((pre ++ (b ∷ [])) ++ (mid ++ (a ∷ post)))
      ≡ ok ((pre ++ (b ∷ [])) ++ (reverse mid ++ (a ∷ post)))
    → revert_loop (suc rounds) i start size (pre ++ ((a ∷ (mid ++ (b ∷ []))) ++ post))
      ≡ ok (pre ++ (reverse (a ∷ (mid ++ (b ∷ []))) ++ post))
swap_ends rounds i start size a b pre mid post hi hs ih =
    rw
      (
        reverse-ends a b mid,
        append_assoc mid (b ∷ []) post,
        append_assoc (reverse mid) (a ∷ []) post,
        swap_round rounds i start size a b pre mid post hi hs,
      )
      (rw (append_assoc pre (b ∷ []) _, append_assoc pre (b ∷ []) _) at ih)

revert_loop-eq-reverse :
    (rounds i start size : ℕ) (pre mid post : List ℕ)
    → start + i ≡ length pre
    → size ≡ 2 * i + length mid
    → rounds ≡ length mid / 2
    → revert_loop rounds i start size (pre ++ (mid ++ post)) ≡ ok (pre ++ (reverse mid ++ post))
revert_loop-eq-reverse zero i start size pre [] post hi hs hr = unfold revert_loop in refl
revert_loop-eq-reverse zero i start size pre (x ∷ []) post hi hs hr = unfold revert_loop in refl
revert_loop-eq-reverse zero i start size pre (x ∷ y ∷ mid) post hi hs hr = absurd (omega arith)
revert_loop-eq-reverse (suc rounds) i start size pre [] post hi hs hr = absurd (omega arith)
revert_loop-eq-reverse (suc rounds) i start size pre (x ∷ []) post hi hs hr = absurd (omega arith)
revert_loop-eq-reverse (suc rounds) i start size pre (a ∷ y ∷ rest) post hi hs hr =
    let (mid, b, e) = unsnoc y rest in
    let len : suc (length rest) ≡ length mid + 1 =
      omega (arith, ap length e, length-append mid (b ∷ [])) in
    subst
      (λ t.
        revert_loop (suc rounds) i start size (pre ++ ((a ∷ t) ++ post))
        ≡ ok (pre ++ (reverse (a ∷ t) ++ post)))
      (sym e)
      (swap_ends rounds i start size a b pre mid post hi (omega arith) (
        revert_loop-eq-reverse rounds (i + 1) start size (pre ++ (b ∷ [])) mid (a ∷ post)
          (omega (arith, length-append pre (b ∷ []))) (omega arith) (omega arith)))

-- The function reverses the `length mid` bytes from `start` on, whatever stands around them.
pub revert_byte_order-eq-reverse :
    (pre mid post : List ℕ)
    → revert_byte_order (length pre) (length mid) (pre ++ (mid ++ post))
      ≡ ok (pre ++ (reverse mid ++ post))
unfolding revert_byte_order
revert_byte_order-eq-reverse pre mid post =
    revert_loop-eq-reverse (length mid / 2) 0 (length pre) (length mid) pre mid post (omega arith)
      (omega arith) refl
