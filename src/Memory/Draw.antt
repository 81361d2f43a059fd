-- ===== src/Memory/Draw.antt =====
-- Writes that leave some positions of the buffer as they are.
use grid_goose_sv.Prelude.{
  ℕ, suc, ◌+◌, ◌≡◌, refl, arith, List, [], ◌∷◌, ◌++◌, length, Option, none, some, Outcome, ok,
  ◌>>=◌, ◌∙◌, ap, sym, ltb, zero, replicate, >>=_assoc, >>=_ext, Bool-cases, length-set, lt→ltb,
  ◌≤◌, inl, inr, set,
}
use grid_goose_sv.Memory.Defs.{Cursor, put, put_all}
use grid_goose_sv.Memory.Laws.{Writes}

-- `bufPos += n`
abbrev pub skip : ℕ → Cursor → Outcome Cursor
skip n c = ok (record c { pos = c.pos + n })

-- Every octet in turn is written at the cursor; `none` moves on by one position.
unfoldable pub draw : List (Option ℕ) → Cursor → Outcome Cursor
draw [] c = ok c
draw (none ∷ p) c = draw p (record c { pos = c.pos + 1 })
draw (some b ∷ p) c = put b c >>= draw p

-- An encoder draws exactly the pattern.
abbrev pub Draws : (Cursor → Outcome Cursor) → List (Option ℕ) → Type 0
Draws w p = (c : Cursor) → w c ≡ draw p c

-- A pattern without gaps.
abbrev pub solid : List ℕ → List (Option ℕ)
solid [] = []
solid (b ∷ bs) = some b ∷ solid bs

pub length-solid : (bs : List ℕ) → length (solid bs) ≡ length bs
length-solid [] = refl
length-solid (b ∷ bs) = ap suc (length-solid bs)

pub draw-append : (p q : List (Option ℕ)) (c : Cursor) → draw (p ++ q) c ≡ (draw p c >>= draw q)
unfolding draw
draw-append [] q c = refl
draw-append (none ∷ p) q c = draw-append p q (record c { pos = c.pos + 1 })
draw-append (some b ∷ p) q c =
    >>=_ext (put b c) (draw (p ++ q)) (λ d. draw p d >>= draw q) (draw-append p q)
    ∙ sym (>>=_assoc (put b c) (draw p) (draw q))

draw-solid : (bs : List ℕ) (c : Cursor) → put_all bs c ≡ draw (solid bs) c
unfolding draw put_all
draw-solid [] c = refl
draw-solid (b ∷ bs) c = >>=_ext (put b c) (put_all bs) (draw (solid bs)) (draw-solid bs)

pub Writes→Draws : (w : Cursor → Outcome Cursor) (bs : List ℕ) → Writes w bs → Draws w (solid bs)
Writes→Draws w bs h c = h c ∙ draw-solid bs c

plus_zero : (n : ℕ) → n + 0 ≡ n
plus_zero n = omega arith

pub skip-Draws : (n : ℕ) → Draws (skip n) (replicate n none)
unfolding draw
skip-Draws zero c = rw (plus_zero c.pos)
skip-Draws (suc n) c = rw (shift) (skip-Draws n (record c { pos = c.pos + 1 }))
  where
    shift : c.pos + suc n ≡ c.pos + 1 + n
    shift = omega arith

-- Where the drawing is defined, the cursor has moved by the length of the pattern.
pub draw-moves :
    {X : Type 0} (p : List (Option ℕ)) (c : Cursor) (k : ℕ → Cursor → Outcome X)
    → (draw p c >>= λ d. k d.pos d) ≡ (draw p c >>= k (c.pos + length p))
unfolding draw put
draw-moves [] c k = rw (plus_zero c.pos)
draw-moves (none ∷ p) c k = rw (shift) (draw-moves p (record c { pos = c.pos + 1 }) k)
  where
    shift : c.pos + length (none ∷ p) ≡ c.pos + 1 + length p
    shift = omega arith
draw-moves (some b ∷ p) c k = elim (Bool-cases (ltb c.pos (length c.buffer))) [
  | inl e ↦
      rw (e, shift) (draw-moves p (record { buffer = set c.buffer c.pos b; pos = c.pos + 1 }) k)
  | inr e ↦ rw e
]
  where
    shift : c.pos + length (some b ∷ p) ≡ c.pos + 1 + length p
    shift = omega arith

-- A pattern that fits is drawn, and the cursor stands behind it.
pub draw-fits :
    (p : List (Option ℕ)) (c : Cursor)
    → c.pos + length p ≤ length c.buffer
    → (d : Cursor) × (draw p c ≡ ok d) × (d.pos ≡ c.pos + length p)
unfolding draw put
draw-fits [] c h = (c, refl, omega arith)
draw-fits (none ∷ p) c h =
    let (d, e, n) = draw-fits p (record c { pos = c.pos + 1 }) (omega arith) in (d, e, omega arith)
draw-fits (some b ∷ p) c h =
    let (d, e, n) =
      draw-fits p (record { buffer = set c.buffer c.pos b; pos = c.pos + 1 })
        (omega (arith, length-set c.buffer c.pos b)) in
    (d, rw (lt→ltb c.pos (length c.buffer) (omega arith)) e, omega arith)
