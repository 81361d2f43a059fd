-- ===== src/Sv/Application/Start/Frame.antt =====
-- sampled_values/sv_publisher.cc: the publisher that the sampling application of
-- model/sv-publisher-app.cc creates, up to the size of its buffer.
use grid_goose_sv.Prelude.{
  ℕ, ◌+◌, ◌-◌, ◌%◌, ◌/◌, ◌≤◌, ◌<◌, ◌≡◌, refl, ◌∙◌, arith, List, [], ◌∷◌, length, length-set,
  length-take, set, take, Option, none, some, Outcome, ok, ◌>>=◌, lt→ltb, true, subst,
}
use grid_goose_sv.Memory.{Cursor, put, put_all, draw}
use grid_goose_sv.Ber.Bytes.{store}
use grid_goose_sv.Sv.Publisher.{
  SvAsdu, SvPublisher, packet_header, create_sv, sv_parameters, finish_setup,
}

-- The size of the buffer that SVPublisher_createEx allocates.
abbrev pub sv_max_message_size : ℕ
sv_max_message_size = 1518

-- Inside the buffer the function returns, moves on by `n`, and keeps the length of the buffer.
abbrev pub Moves : ℕ → (Cursor → Outcome Cursor) → Type 0
Moves n w =
    (c : Cursor)
    → c.pos + n ≤ length c.buffer
    → (e : Cursor) × (w c ≡ ok e) × (e.pos ≡ c.pos + n) × (length e.buffer ≡ length c.buffer)

Moves-then :
    (a b : ℕ) (v w : Cursor → Outcome Cursor)
    → Moves a v
    → Moves b w
    → Moves (a + b) (λ c. v c >>= w)
Moves-then a b v w hv hw c h =
    let (d, first, moved, kept) = hv c (omega arith) in
    let (e, second, moved', kept') = hw d (omega arith) in
    (e, rw (first, second), omega arith, kept' ∙ kept)

put_all-Moves : (bs : List ℕ) → Moves (length bs) (put_all bs)
unfolding put_all put
put_all-Moves [] c h = (c, refl, omega arith, refl)
put_all-Moves (b ∷ bs) c h =
    let same = length-set c.buffer c.pos b in
    let (e, run, moved, kept) =
      put_all-Moves bs (record { buffer = set c.buffer c.pos b; pos = c.pos + 1 })
        (omega (arith, same)) in
    (e, rw (lt→ltb c.pos (length c.buffer) (omega arith)) run, omega (arith, moved), kept ∙ same)

pub draw-Moves : (p : List (Option ℕ)) → Moves (length p) (draw p)
unfolding draw put
draw-Moves [] c h = (c, refl, omega arith, refl)
draw-Moves (none ∷ p) c h =
    let (e, run, moved, kept) = draw-Moves p (record c { pos = c.pos + 1 }) (omega arith) in
    (e, run, omega (arith, moved), kept)
draw-Moves (some b ∷ p) c h =
    let same = length-set c.buffer c.pos b in
    let (e, run, moved, kept) =
      draw-Moves p (record { buffer = set c.buffer c.pos b; pos = c.pos + 1 })
        (omega (arith, same)) in
    (e, rw (lt→ltb c.pos (length c.buffer) (omega arith)) run, omega (arith, moved), kept ∙ same)

-- A new publisher, before its ASDUs are added.
pub record IsNew (p : SvPublisher) : Type 0 where
  pub allocated : length p.buffer ≡ sv_max_message_size
  pub field : p.length_field ≡ 20
  pub start : p.payload_start ≡ 26
  pub empty : p.asdu_list ≡ []

packet_header-Moves :
    (src_addr : List ℕ)
    → length src_addr ≡ 6
    → Moves 26 (packet_header (sv_parameters none) src_addr true)
unfolding packet_header
packet_header-Moves src_addr hs =
    let six : length (take 6 src_addr) ≡ 6 = omega (arith, length-take 6 src_addr) in
    Moves-then 6 20 _ _ (put_all-Moves (0x01 ∷ 0x0c ∷ 0xcd ∷ 0x01 ∷ 0x00 ∷ 0x01 ∷ [])) (
      Moves-then 6 14 _ _ (subst (λ n. Moves n (put_all (take 6 src_addr))) six (put_all-Moves _)) (
        Moves-then 4 10 _ _ (put_all-Moves (0x81 ∷ 0x00 ∷ 128 ∷ 0 ∷ [])) (
          Moves-then 4 6 _ _ (put_all-Moves (0x88 ∷ 0xBa ∷ 64 ∷ 0 ∷ []))
            (put_all-Moves (0x00 ∷ 0x08 ∷ 0x00 ∷ 0x00 ∷ 0x00 ∷ 0x00 ∷ [])))))

pub create_sv-IsNew :
    (src_addr junk : List ℕ)
    → length src_addr ≡ 6
    → length junk ≡ sv_max_message_size
    → (p : SvPublisher) × (create_sv none src_addr junk true ≡ ok p) × IsNew p
unfolding create_sv
create_sv-IsNew src_addr junk hs hj =
    let (c, run, moved, kept) =
      packet_header-Moves src_addr hs (record { buffer = junk; pos = 0 }) (omega arith) in
    (
      record {
        buffer = c.buffer;
        length_field = c.pos - 6;
        payload_start = c.pos;
        payload_length = 0;
        asdu_list = [];
      },
      rw run,
      record { allocated = kept ∙ hj; field = omega (arith, moved); start = moved; empty = refl },
    )

-- The end of the setup, where the length field stands inside the buffer.
pub finish_setup-returns :
    (p : SvPublisher) (asdus : List SvAsdu) (c : Cursor)
    → p.length_field + 1 < length c.buffer
    → (b : List ℕ) × (finish_setup p (asdus, c)
        ≡ ok (record p { buffer = b; payload_length = c.pos - p.payload_start; asdu_list = asdus }))
      × (length b ≡ length c.buffer)
unfolding finish_setup store
finish_setup-returns p asdus c h =
    let msg_length = c.pos - p.payload_start + 8 in
    let i = p.length_field in
    let b1 = set c.buffer i (msg_length / 256 % 256) in
    let s1 = length-set c.buffer i (msg_length / 256 % 256) in
    (
      set b1 (i + 1) (msg_length % 256),
      rw (lt→ltb i (length c.buffer) (omega arith), lt→ltb (i + 1) (length b1) (omega (arith, s1))),
      length-set b1 (i + 1) (msg_length % 256) ∙ s1,
    )
