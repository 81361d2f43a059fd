-- ===== src/Memory/Defs.antt =====
-- A buffer with the next position to write, the pair that the encoders thread as
-- `(uint8_t* buffer, int bufPos)`.
use grid_goose_sv.Prelude.{ℕ, ◌+◌, List, [], ◌∷◌, ltb, if◌then◌else◌, length, set, get_elem?}
use grid_goose_sv.Prelude.{Outcome, ok, fault, ◌>>=◌, or_fault}

pub record Cursor : Type 0 where
  pub buffer : List ℕ
  pub pos : ℕ

-- `buffer[bufPos++] = b`
unfoldable pub put : ℕ → Cursor → Outcome Cursor
put b c =
    if ltb c.pos (length c.buffer)
    then ok (record { buffer = set c.buffer c.pos b; pos = c.pos + 1 })
    else fault

-- A loop that writes the bytes of an array, one after the other.
unfoldable pub put_all : List ℕ → Cursor → Outcome Cursor
put_all [] c = ok c
put_all (b ∷ bs) c = put b c >>= put_all bs

-- `buffer[i]`
abbrev pub read : List ℕ → ℕ → Outcome ℕ
read buffer i = or_fault (get_elem? buffer i)
