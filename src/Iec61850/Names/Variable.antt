-- ===== src/Iec61850/Names/Variable.antt =====
-- MmsMapping_createMmsVariableNameFromObjectReference of iec61850/common/iec61850_common.cc and the
-- name that it is to make.
use grid_goose_sv.Prelude.{
  ℕ, zero, suc, ◌+◌, ◌≤◌, ◌≡◌, refl, sym, ap, ◌∙◌, inl, inr, arith, List, [], ◌∷◌, ◌++◌, length,
  drop, replicate, length-replicate, length-append, append-nil, ltb, ◌==◌, if◌then◌else◌, true,
  false, none, some, Outcome, ok, failed, fault, ◌>>=◌, >>=_ext, >>=_assoc, Bool-cases,
}
use grid_goose_sv.Memory.{
  Cursor, put, put_all, put_all-append, put_all-fits, put_all-overflows, put-Writes,
}
use grid_goose_sv.Iec61850.Names.{name_loop, finish_name, create_named, target}

-- '.' becomes '$'.
unfoldable pub dollars : List ℕ → List ℕ
dollars [] = []
dollars (x ∷ xs) = (if x == b'.' then b'$' else x) ∷ dollars xs

-- The constraint stands behind the first part of the name, between two '$', or at the end behind one.
unfoldable pub mms_name : ℕ → ℕ → List ℕ → List ℕ
mms_name a b [] = b'$' ∷ a ∷ b ∷ []
mms_name a b (x ∷ xs) =
    let rest = mms_name a b xs in if x == b'.' then b'$' ∷ a ∷ b ∷ b'$' ∷ dollars xs else x ∷ rest

length-dollars : (xs : List ℕ) → length (dollars xs) ≡ length xs
unfolding dollars
length-dollars [] = refl
length-dollars (x ∷ xs) = ap suc (length-dollars xs)

-- Whether the name has parts or not, it is three characters longer than the reference.
pub length-mms_name : (a b : ℕ) (xs : List ℕ) → length (mms_name a b xs) ≡ length xs + 3
unfolding mms_name
length-mms_name a b [] = refl
length-mms_name a b (x ∷ xs) = ground (arith, length-mms_name a b xs, length-dollars xs)

-- Behind the constraint the loop only copies.
added_loop :
    (a b : ℕ) (xs : List ℕ) (c : Cursor)
    → name_loop a b xs true c ≡ (put_all (dollars xs) c >>= λ d. ok (d, true))
unfolding name_loop dollars put_all
added_loop a b [] c = refl
added_loop a b (x ∷ xs) c = elim (Bool-cases (x == b'.')) [
  | inl e ↦ rw e (
      >>=_ext (put b'$' c) _ _ (added_loop a b xs)
      ∙ sym (>>=_assoc (put b'$' c) (put_all (dollars xs)) (λ d. ok (d, true))))
  | inr e ↦ rw e (
      >>=_ext (put x c) _ _ (added_loop a b xs)
      ∙ sym (>>=_assoc (put x c) (put_all (dollars xs)) (λ d. ok (d, true))))
]

-- The buffer after a run of writes.
abbrev pub stored : List ℕ → Cursor → Outcome (List ℕ)
stored bs c = put_all bs c >>= λ d. ok d.buffer

stored-append : (xs ys : List ℕ) (c : Cursor) → stored (xs ++ ys) c ≡ (put_all xs c >>= stored ys)
stored-append xs ys c =
    ap (λ o. o >>= λ d. ok d.buffer) (put_all-append xs ys c)
    ∙ >>=_assoc (put_all xs c) (put_all ys) (λ d. ok d.buffer)

finish_added : (a b : ℕ) (c : Cursor) → finish_name a b (c, true) ≡ stored (0 ∷ []) c
unfolding finish_name
finish_added a b c = ap (λ o. o >>= λ d. ok d.buffer) (put-Writes 0 c)

-- Behind the constraint.
added_written :
    (a b : ℕ) (xs : List ℕ) (c : Cursor)
    → (name_loop a b xs true c >>= finish_name a b) ≡ stored (dollars xs ++ (0 ∷ [])) c
added_written a b xs c =
    ap (λ o. o >>= finish_name a b) (added_loop a b xs c)
    ∙ >>=_assoc (put_all (dollars xs) c) (λ d. ok (d, true)) (finish_name a b)
    ∙ >>=_ext (put_all (dollars xs) c) _ _ (finish_added a b)
    ∙ sym (stored-append (dollars xs) (0 ∷ []) c)

-- The loop and what stands behind it write the name and its terminator.
name_written :
    (a b : ℕ) (xs : List ℕ) (c : Cursor)
    → (name_loop a b xs false c >>= finish_name a b) ≡ stored (mms_name a b xs ++ (0 ∷ [])) c
unfolding name_loop mms_name
name_written a b [] c =
    unfold finish_name in
    >>=_ext (put_all (b'$' ∷ a ∷ b ∷ []) c) _ _
      (λ d. ap (λ o. o >>= λ e. ok e.buffer) (put-Writes 0 d))
    ∙ sym (stored-append (b'$' ∷ a ∷ b ∷ []) (0 ∷ []) c)
name_written a b (x ∷ xs) c = elim (Bool-cases (x == b'.')) [
  | inl e ↦
      let front : List ℕ = b'$' ∷ a ∷ b ∷ b'$' ∷ [] in
      rw e (
        >>=_assoc (put_all front c) (name_loop a b xs true) (finish_name a b)
        ∙ >>=_ext (put_all front c) _ _ (added_written a b xs)
        ∙ sym (stored-append front (dollars xs ++ (0 ∷ [])) c))
  | inr e ↦ rw e (
      >>=_assoc (put x c) (name_loop a b xs false) (finish_name a b)
      ∙ >>=_ext (put x c) _ _ (name_written a b xs)
      ∙ ap (λ o. o >>= stored (mms_name a b xs ++ (0 ∷ []))) (put-Writes x c)
      ∙ sym (stored-append (x ∷ []) (mms_name a b xs ++ (0 ∷ [])) c))
]

-- Writes at the front of an array.
pub stored_at_front :
    (bs buffer : List ℕ)
    → stored bs (record { buffer = buffer; pos = 0 })
      ≡ (if ltb (length buffer) (length bs) then fault else ok (bs ++ drop (length bs) buffer))
stored_at_front bs buffer = elim (Bool-cases (ltb (length buffer) (length bs))) [
  | inl e ↦
      rw
        (e, put_all-overflows bs (record { buffer = buffer; pos = 0 }) (omega arith) (ground arith))
        refl
  | inr e ↦
      let start : 0 + length bs ≡ length bs = omega arith in
      rw (e, put_all-fits bs (record { buffer = buffer; pos = 0 }) (ground arith), start) refl
]

drop_all : (n : ℕ) (xs : List ℕ) → length xs ≤ n → drop n xs ≡ []
drop_all zero [] h = refl
drop_all zero (x ∷ xs) h = absurd (omega arith)
drop_all (suc n) [] h = refl
drop_all (suc n) (x ∷ xs) h = drop_all n xs (omega arith)

-- New memory of the size of what is written.
pub stored_new :
    (bs : List ℕ) (n : ℕ)
    → length bs ≡ n
    → stored bs (record { buffer = replicate n 0; pos = 0 }) ≡ ok bs
stored_new bs n e =
    let size = length-replicate {A = ℕ} n 0 in
    let fits : ltb (length (replicate {A = ℕ} n 0)) (length bs) ≡ false = ground arith in
    stored_at_front bs (replicate n 0)
    ∙ rw (fits, e, drop_all n (replicate n 0) (omega arith), append-nil) refl

-- A name of more than 62 characters is refused. The name of any other, with its terminator, fills the
-- new memory exactly, whatever stands in it; in a buffer of the caller it is written at the front, and
-- outside the buffer exactly where the buffer is shorter than the name and its terminator.
pub create_named-mms_name :
    (a b : ℕ) (name buffer : List ℕ)
    → let made = mms_name a b name ++ (0 ∷ []) in
      (create_named a b name none ≡ (if ltb 62 (length name) then failed else ok made))
      × (create_named a b name (some buffer) ≡ (
          if ltb 62 (length name)
          then failed
          else if ltb (length buffer) (length name + 4)
          then fault
          else ok (made ++ drop (length name + 4) buffer)))
unfolding create_named target
create_named-mms_name a b name buffer =
    let made = mms_name a b name ++ (0 ∷ []) in
    let long : length made ≡ length name + 4 =
      omega (arith, length-append (mms_name a b name) (0 ∷ []), length-mms_name a b name) in
    elim (Bool-cases (ltb 62 (length name))) [
      | inl e ↦ (rw e, rw e)
      | inr e ↦ (
        rw e (
            name_written a b name (record { buffer = replicate (length name + 4) 0; pos = 0 })
            ∙ stored_new made (length name + 4) long),
        rw e (
            name_written a b name (record { buffer = buffer; pos = 0 })
            ∙ rw long at (stored_at_front made buffer)),
      )
    ]
