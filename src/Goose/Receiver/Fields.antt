-- ===== src/Goose/Receiver/Fields.antt =====
-- The loop of parseGoosePayload of goose/goose_receiver.cc over the fields of the PDU, on any input.
use grid_goose_sv.Prelude.{
  ℕ, zero, suc, ◌+◌, ◌-◌, ◌^◌, ◌≤◌, ◌<◌, ◌≡◌, refl, arith, List, length, ltb, ◌==◌, Bool, Option,
  none, some, Outcome, ok, ◌>>=◌, All, Ensures, Ensures-bind, Ensures-if, Ensures-on_failure,
}
use grid_goose_sv.Ber.Decoder.{decode_boolean, decode_uint32, decode_uint32_loop}
use grid_goose_sv.Ber.Decoder.Safety.{IsByte, InBounds, decode_length-InBounds, read-Ensures}
use grid_goose_sv.Goose.Subscriber.{GooseSubscriber}
use grid_goose_sv.Goose.Receiver.{
  Payload, FieldResult, fields, returned, update_at, update_matching, parse_field, parse_fields,
}
use grid_goose_sv.Goose.Receiver.Arrays.{
  Any, IsReady, Ready, IndexIn, Matched, copy_name-Long, match_subscriber-Matched, update_at-All,
}

abbrev pub StampFits : List ℕ → Option ℕ → Type 0
StampFits buffer none = Unit
StampFits buffer (some pos) = pos + 8 ≤ length buffer

abbrev pub DataFits : List ℕ → Option ℕ → ℕ → Type 0
DataFits buffer none n = n ≡ 0
DataFits buffer (some pos) n = (pos + n < length buffer) × (n < 2 ^ 15)

-- What holds of the locals of the function in every round of its loop.
pub record IsConsistent (buffer : List ℕ) (count : ℕ) (p : Payload) : Type 0 where
  pub ready : Ready buffer p.subscribers
  pub same_count : length p.subscribers ≡ count
  pub matched : IndexIn count p.matching
  pub stamp : StampFits buffer p.timestamp_buf_pos
  pub data_set : DataFits buffer p.data_set_buffer_pos p.data_set_buffer_length

abbrev pub Consistent : List ℕ → ℕ → FieldResult → Type 0
Consistent buffer count (fields p) = IsConsistent buffer count p
Consistent buffer count (returned subscribers) =
    Ready buffer subscribers × (length subscribers ≡ count)

decode_uint32_loop-Ends :
    (n i value : ℕ) (buffer : List ℕ) (buf_pos : ℕ)
    → All IsByte buffer
    → buf_pos + i + n ≤ length buffer
    → Ensures (λ (v : ℕ). Unit {0}) (decode_uint32_loop n i value buffer buf_pos)
unfolding decode_uint32_loop
decode_uint32_loop-Ends zero i value buffer buf_pos bytes h = tt
decode_uint32_loop-Ends (suc n) i value buffer buf_pos bytes h =
    Ensures-bind IsByte Any _ _ (read-Ensures buffer (buf_pos + i) bytes (omega arith))
      (λ b hb. decode_uint32_loop-Ends n (i + 1) _ buffer buf_pos bytes (omega arith))

module _ (buffer : List ℕ) (bytes : All IsByte buffer) (count : ℕ) where
  new_fields :
      (p q : Payload)
      → q.subscribers ≡ p.subscribers
      → q.matching ≡ p.matching
      → q.timestamp_buf_pos ≡ p.timestamp_buf_pos
      → q.data_set_buffer_pos ≡ p.data_set_buffer_pos
      → q.data_set_buffer_length ≡ p.data_set_buffer_length
      → IsConsistent buffer count p
      → IsConsistent buffer count q
  new_fields p q e1 e2 e3 e4 e5 h = record {
    ready = rw e1 h.ready;
    same_count = rw e1 h.same_count;
    matched = rw e2 h.matched;
    stamp = rw e3 h.stamp;
    data_set = rw (e4, e5) h.data_set;
  }

  module _ (buf_pos n : ℕ) (fits : buf_pos + n + 8 ≤ length buffer) (small : n < 2 ^ 15) where
    number-Consistent :
        (p : Payload) (f : ℕ → Payload)
        → ((v : ℕ) → IsConsistent buffer count (f v))
        → Ensures
            (Consistent buffer count)
            (decode_uint32 buffer n buf_pos >>= λ v. ok (fields (f v)))
    unfolding decode_uint32
    number-Consistent p f h =
        Ensures-bind Any (Consistent buffer count) _ _
          (decode_uint32_loop-Ends n 0 0 buffer buf_pos bytes (omega arith)) (λ v hv. h v)

    flag-Consistent :
        (f : Bool → Payload)
        → ((b : Bool) → IsConsistent buffer count (f b))
        → Ensures
            (Consistent buffer count)
            (decode_boolean buffer buf_pos >>= λ b. ok (fields (f b)))
    unfolding decode_boolean
    flag-Consistent f h =
        Ensures-bind Any (Consistent buffer count) _ _
          (Ensures-bind IsByte Any _ _ (read-Ensures buffer buf_pos bytes (omega arith))
            (λ b hb. tt))
          (λ b hb. h b)

    name-Consistent :
        (p : Payload) (f : GooseSubscriber → Outcome GooseSubscriber)
        → IsConsistent buffer count p
        → ((s : GooseSubscriber) → IsReady buffer s → Ensures (IsReady buffer) (f s))
        → Ensures (Consistent buffer count) (update_matching p f >>= λ q. ok (fields q))
    unfolding update_matching
    name-Consistent p f h hf =
        Ensures-bind (IsConsistent buffer count) (Consistent buffer count) _ _
          (by_index p.matching h.matched) (λ q hq. hq)
      where
        by_index :
            (m : Option ℕ)
            → IndexIn count m
            → Ensures (IsConsistent buffer count) (elim m [
              | none ↦ ok p
              | some i ↦
                  (update_at p.subscribers i f >>= λ subscribers.
                  ok (record p { subscribers = subscribers }))
            ])
        by_index none hm = h
        by_index (some i) hm =
            Ensures-bind (λ r. Ready buffer r × (length r ≡ length p.subscribers))
              (IsConsistent buffer count) _ _
              (update_at-All (IsReady buffer) (IsReady buffer) f p.subscribers i (λ s hs. hs) hf
                h.ready (omega (arith, h.same_count)))
              (λ r hr. record {
                ready = hr.0;
                same_count = omega (arith, hr.1, h.same_count);
                matched = h.matched;
                stamp = h.stamp;
                data_set = h.data_set;
              })

    reference-Consistent :
        (p : Payload)
        → IsConsistent buffer count p
        → Ensures (Consistent buffer count) (parse_field 0x80 buffer buf_pos n p)
    unfolding parse_field
    reference-Consistent p h =
        Ensures-bind (Matched buffer (length p.subscribers)) (Consistent buffer count) _ _
          (match_subscriber-Matched p.subscribers buffer buf_pos n (omega arith) h.ready)
          (λ r hr.
            found r.0 r.1 p.matching hr.0 (omega (arith, hr.1, h.same_count))
              (rw h.same_count at hr.2) h.matched)
      where
        found :
            (subscribers : List GooseSubscriber) (o m : Option ℕ)
            → Ready buffer subscribers
            → length subscribers ≡ count
            → IndexIn count o
            → IndexIn count m
            → Ensures
                (Consistent buffer count)
                (elim (elim o as (λ _. Option ℕ) [ none ↦ m | some i ↦ some i ]) [
                  | none ↦ ok (returned subscribers)
                  | some i ↦ ok (fields (record p { subscribers = subscribers; matching = some i }))
                ])
        found subscribers none none hs hc ho hm = (hs, hc)
        found subscribers none (some i) hs hc ho hm = record {
          ready = hs;
          same_count = hc;
          matched = hm;
          stamp = h.stamp;
          data_set = h.data_set;
        }
        found subscribers (some i) m hs hc ho hm = record {
          ready = hs;
          same_count = hc;
          matched = ho;
          stamp = h.stamp;
          data_set = h.data_set;
        }

    parse_field-Consistent :
        (tag : ℕ) (p : Payload)
        → IsConsistent buffer count p
        → Ensures (Consistent buffer count) (parse_field tag buffer buf_pos n p)
    unfolding parse_field
    parse_field-Consistent tag p h =
        let same : (q : Payload)
            → q.subscribers ≡ p.subscribers
            → q.matching ≡ p.matching
            → q.timestamp_buf_pos ≡ p.timestamp_buf_pos
            → q.data_set_buffer_pos ≡ p.data_set_buffer_pos
            → q.data_set_buffer_length ≡ p.data_set_buffer_length
            → IsConsistent buffer count q =
          λ q e1 e2 e3 e4 e5. new_fields p q e1 e2 e3 e4 e5 h in
        Ensures-if (Consistent buffer count) (tag == 0x80) _ _ (λ e. reference-Consistent p h)
          λ e.
            Ensures-if (Consistent buffer count) (tag == 0x81) _ _
              (λ e. number-Consistent p _ (λ v. same _ refl refl refl refl refl))
              λ e.
                Ensures-if (Consistent buffer count) (tag == 0x82) _ _
                  (λ e. name-Consistent p _ h (λ s hs.
                    Ensures-bind (λ out. length out ≡ 130) (IsReady buffer) _ _
                      (copy_name-Long s.dat_set buffer buf_pos n hs.0.dat_set (omega arith))
                      (λ name hn. (
                        record {
                          go_cb_ref = hs.0.go_cb_ref;
                          dat_set = hn;
                          go_id = hs.0.go_id;
                          go_cb_ref_len = hs.0.go_cb_ref_len;
                          timestamp = hs.0.timestamp;
                        },
                        hs.1,
                      ))))
                  λ e.
                    Ensures-if (Consistent buffer count) (tag == 0x83) _ _
                      (λ e. name-Consistent p _ h (λ s hs.
                        Ensures-bind (λ out. length out ≡ 130) (IsReady buffer) _ _
                          (copy_name-Long s.go_id buffer buf_pos n hs.0.go_id (omega arith))
                          (λ name hn. (
                            record {
                              go_cb_ref = hs.0.go_cb_ref;
                              dat_set = hs.0.dat_set;
                              go_id = hn;
                              go_cb_ref_len = hs.0.go_cb_ref_len;
                              timestamp = hs.0.timestamp;
                            },
                            hs.1,
                          ))))
                      λ e.
                        Ensures-if (Consistent buffer count) (tag == 0x84) _ _
                          (λ e. record {
                            ready = h.ready;
                            same_count = h.same_count;
                            matched = h.matched;
                            stamp = omega arith;
                            data_set = h.data_set;
                          })
                          λ e.
                            Ensures-if (Consistent buffer count) (tag == 0x85) _ _
                              (λ e. number-Consistent p _ (λ v. same _ refl refl refl refl refl))
                              λ e.
                                Ensures-if (Consistent buffer count) (tag == 0x86) _ _
                                  (λ e.
                                    number-Consistent p _ (λ v. same _ refl refl refl refl refl))
                                  λ e.
                                    Ensures-if (Consistent buffer count) (tag == 0x87) _ _
                                      (λ e.
                                        flag-Consistent _ (λ b. same _ refl refl refl refl refl))
                                      λ e.
                                        Ensures-if (Consistent buffer count) (tag == 0x88) _ _
                                          (λ e.
                                            number-Consistent p _
                                              (λ v. same _ refl refl refl refl refl))
                                          λ e.
                                            Ensures-if (Consistent buffer count) (tag == 0x89) _ _
                                              (λ e.
                                                flag-Consistent _
                                                  (λ b. same _ refl refl refl refl refl))
                                              λ e.
                                                Ensures-if (Consistent buffer count) (tag == 0x8a) _
                                                  _
                                                  (λ e.
                                                    number-Consistent p _
                                                      (λ v. same _ refl refl refl refl refl))
                                                  λ e.
                                                    Ensures-if (Consistent buffer count)
                                                      (tag == 0xab) _ _
                                                      (λ e. record {
                                                        ready = h.ready;
                                                        same_count = h.same_count;
                                                        matched = h.matched;
                                                        stamp = h.stamp;
                                                        data_set = (omega arith, small);
                                                      })
                                                      (λ e. h)

  continue-Consistent :
      (k : Payload → Outcome FieldResult) (q : FieldResult)
      → Consistent buffer count q
      → ((p : Payload) → IsConsistent buffer count p → Ensures (Consistent buffer count) (k p))
      → Ensures
          (Consistent buffer count)
          (elim q [ fields p ↦ k p | returned subscribers ↦ ok (returned subscribers) ])
  continue-Consistent k (fields p) h hk = hk p h
  continue-Consistent k (returned subscribers) h hk = h

  pub parse_fields-Consistent :
      (fuel buf_pos goose_end apdu_length : ℕ) (p : Payload)
      → apdu_length + 8 ≤ length buffer
      → apdu_length < 2 ^ 15
      → goose_end - buf_pos < fuel
      → goose_end ≤ apdu_length
      → IsConsistent buffer count p
      → Ensures (Consistent buffer count) (parse_fields fuel buffer buf_pos goose_end apdu_length p)
  unfolding parse_fields
  parse_fields-Consistent zero buf_pos goose_end apdu_length p fits small h he hp =
      absurd (omega arith)
  parse_fields-Consistent (suc fuel) buf_pos goose_end apdu_length p fits small h he hp =
      Ensures-if (Consistent buffer count) (ltb buf_pos goose_end) _ _
        (λ e.
          Ensures-bind IsByte (Consistent buffer count) _ _
            (read-Ensures buffer buf_pos bytes (ground arith))
            λ tag ht.
              Ensures-on_failure (InBounds (buf_pos + 1) apdu_length) (Consistent buffer count) _ _
                _
                (decode_length-InBounds buffer (buf_pos + 1) apdu_length bytes (omega arith)
                  (omega arith))
                (hp.ready, hp.same_count)
                λ r hr.
                  Ensures-bind (Consistent buffer count) (Consistent buffer count) _ _
                    (parse_field-Consistent r.0 r.1 (omega arith) (omega arith) tag p hp)
                    (λ q hq. continue-Consistent _ q hq (λ p' hp'.
                      parse_fields-Consistent fuel (r.0 + r.1) goose_end apdu_length p' fits small
                        (ground arith) he hp')))
        (λ e. hp)
