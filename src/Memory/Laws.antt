-- ===== src/Memory/Laws.antt =====
-- What a run of writes does to the buffer, and that runs compose.
use grid_goose_sv.Prelude.{
  ℕ, zero, suc, ◌+◌, ◌≤◌, ◌<◌, ◌≡◌, refl, arith, List, [], ◌∷◌, ◌++◌, length, set, drop, take,
  length-set, take-append-drop, append_assoc, Outcome, ok, fault, ◌>>=◌, >>=_ext, ap, sym,
}
use grid_goose_sv.Memory.Defs.{Cursor, put, put_all}
use native.Mathlib.Numerals.{add-one}

-- An encoder appends exactly the bytes `bs`, and is undefined where these do not fit.
abbrev pub Writes : (Cursor → Outcome Cursor) → List ℕ → Type 0
Writes w bs = (c : Cursor) → w c ≡ put_all bs c

pub put_all-append :
    (xs ys : List ℕ) (c : Cursor) → put_all (xs ++ ys) c ≡ (put_all xs c >>= put_all ys)
unfolding put_all put
put_all-append [] ys c = refl
put_all-append (x ∷ xs) ys c =
    ground (arith, put_all-append xs ys (record { buffer = set c.buffer c.pos x; pos = c.pos + 1 }))

pub Writes-then :
    (v w : Cursor → Outcome Cursor) (xs ys : List ℕ)
    → Writes v xs
    → Writes w ys
    → Writes (λ c. v c >>= w) (xs ++ ys)
Writes-then v w xs ys hv hw c =
    rw (put_all-append xs ys c, ← hv c) (>>=_ext (v c) w (put_all ys) hw)

pub put-Writes : (b : ℕ) → Writes (put b) (b ∷ [])
unfolding put_all put
put-Writes b c = ground arith

module _ {ℓ} {A : Type ℓ} where
  pub take-set :
      (xs : List A) (i : ℕ) (v : A)
      → i < length xs
      → take (suc i) (set xs i v) ≡ take i xs ++ (v ∷ [])
  take-set [] i v h = absurd (omega arith)
  take-set (x ∷ xs) zero v h = refl
  take-set (x ∷ xs) (suc i) v h = ap (λ t. x ∷ t) (take-set xs i v (omega arith))

  pub drop-set : (xs : List A) (i k : ℕ) (v : A) → i < k → drop k (set xs i v) ≡ drop k xs
  drop-set [] i k v h = refl
  drop-set (x ∷ xs) i zero v h = absurd (omega arith)
  drop-set (x ∷ xs) zero (suc k) v h = refl
  drop-set (x ∷ xs) (suc i) (suc k) v h = drop-set xs i k v (omega arith)

  pub drop-take-append : (xs ys : List A) (i : ℕ) → i ≤ length xs → drop i (take i xs ++ ys) ≡ ys
  drop-take-append xs ys zero h = refl
  drop-take-append [] ys (suc i) h = absurd (omega arith)
  drop-take-append (x ∷ xs) ys (suc i) h = drop-take-append xs ys i (omega arith)

-- The buffer with the bytes `bs` in place of those at `i`, `i + 1`, …
abbrev pub splice : List ℕ → ℕ → List ℕ → List ℕ
splice xs i bs = take i xs ++ (bs ++ drop (i + length bs) xs)

splice-set :
    (xs : List ℕ) (i b : ℕ) (bs : List ℕ)
    → i < length xs
    → splice (set xs i b) (suc i) bs ≡ splice xs i (b ∷ bs)
splice-set xs i b bs h = rw (
  take-set xs i b h,
  drop-set xs i (suc i + length bs) b (omega arith),
  append_assoc (take i xs) (b ∷ []) _,
  shift,
)
  where
    shift : suc i + length bs ≡ i + suc (length bs)
    shift = omega arith

splice-nil : (xs : List ℕ) (i : ℕ) → xs ≡ splice xs i []
splice-nil xs i = rw shift (sym (take-append-drop i xs))
  where
    shift : i + 0 ≡ i
    shift = omega arith

-- Bytes that fit are written at the position, and nothing else changes.
pub put_all-fits :
    (bs : List ℕ) (c : Cursor)
    → c.pos + length bs ≤ length c.buffer
    → put_all bs c ≡ ok (record { buffer = splice c.buffer c.pos bs; pos = c.pos + length bs })
unfolding put_all put
put_all-fits [] c h = ground (arith, splice-nil c.buffer c.pos)
put_all-fits (b ∷ bs) c h = ground (
  arith,
  put_all-fits bs (record { buffer = set c.buffer c.pos b; pos = c.pos + 1 }),
  length-set c.buffer c.pos b,
  splice-set c.buffer c.pos b bs,
  add-one c.pos,
)

-- Bytes that do not fit are a write past the end of the array.
pub put_all-overflows :
    (bs : List ℕ) (c : Cursor)
    → c.pos ≤ length c.buffer
    → length c.buffer < c.pos + length bs
    → put_all bs c ≡ fault
unfolding put_all put
put_all-overflows [] c h k = absurd (omega arith)
put_all-overflows (b ∷ bs) c h k = ground (
  arith,
  put_all-overflows bs (record { buffer = set c.buffer c.pos b; pos = c.pos + 1 }),
  length-set c.buffer c.pos b,
)
