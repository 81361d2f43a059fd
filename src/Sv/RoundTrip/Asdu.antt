-- ===== src/Sv/RoundTrip/Asdu.antt =====
-- parseASDU of sampled_values/sv_subscriber.cc on the fields of an ASDU of
-- sampled_values/sv_publisher.cc.
use grid_goose_sv.Prelude.{
  ℕ, ◌+◌, ◌^◌, ◌≤◌, ◌<◌, ◌≡◌, refl, ap, ◌∙◌, sym, arith, List, [], ◌∷◌, ◌++◌, length, drop, drop-lt,
  set, true, Option, none, some, Outcome, ok, ◌>>=◌, >>=_assoc, length-drop, length-set, drop-drop,
  lt→ltb,
}
use grid_goose_sv.Ber.Bytes.{store}
use grid_goose_sv.Ber.Decoder.RoundTrip.{Holds, Holds-read}
use grid_goose_sv.Ber.Decoder.Fields.{
  Field, field_octets, contents_at, behind, next_field, read_bytes-held, All-IsShort,
}
use grid_goose_sv.Sv.Publisher.{SvAsdu}
use grid_goose_sv.Sv.Publisher.Layout.{uint16_octets, uint32_fixed_octets}
use grid_goose_sv.Sv.Subscriber.{
  AsduLocals, no_asdu, note_field, terminate, Delivery, Deliveries, parse_asdu,
}
use grid_goose_sv.Sv.Subscriber.Getters.{
  big_endian, read_number, get_smp_cnt, get_conf_rev, get_smp_synch,
}
use grid_goose_sv.Sv.RoundTrip.Places.{
  note_all, note_fields-note_all, note_all-last_value, Found, none_later, at_80, at_80_length,
  at_81, at_81_length, at_82, at_83, at_85, at_87, at_87_length, Holds-kept,
}
use grid_goose_sv.Sv.RoundTrip.PublishedFields.{
  datset_field, sample_fields, published_fields, sample_counter-Found, conf_rev-Found,
  smp_synch-Found, samples-Found, sample_fields-HasOther,
}

-- A name ends at or before a position.
abbrev EndsBy : Option ℕ → ℕ → ℕ → Type 0
EndsBy none n bound = Unit
EndsBy (some p) n bound = p + n ≤ bound

-- Behind that position its terminator changes nothing.
terminate-Holds :
    (p : Option ℕ) (n bound : ℕ) (buffer : List ℕ)
    → EndsBy p n bound
    → bound < length buffer
    → (next : List ℕ) × (terminate p n buffer ≡ ok next)
      × (length next ≡ length buffer)
      × ((q : ℕ) (c : List ℕ) → bound < q → Holds buffer q c → Holds next q c)
unfolding terminate store
terminate-Holds none n bound buffer h fits = (buffer, refl, refl, λ q c before held. held)
terminate-Holds (some p) n bound buffer h fits = (
  set buffer (p + n) 0,
  rw (lt→ltb (p + n) (length buffer) (omega arith)),
  length-set buffer (p + n) 0,
  λ q c before held. Holds-kept buffer q (p + n) c held (omega arith),
)

-- What a delivery lets the listener read.
pub record IsSample (a : SvAsdu) (samples : List ℕ) (d : Delivery) : Type 0 where
  pub smp_cnt : get_smp_cnt d.asdu d.buffer ≡ ok a.smp_cnt
  pub conf_rev : get_conf_rev d.asdu d.buffer ≡ ok a.conf_rev
  pub smp_synch : get_smp_synch d.asdu d.buffer ≡ ok a.smp_synch
  pub data_buffer_length : d.asdu.data_buffer_length ≡ length samples
  pub sample_octets : (p : ℕ) × (d.asdu.data_buffer ≡ some p) × Holds d.buffer p samples

number_held :
    (p : ℕ) (pointer : Option ℕ) (bs buffer : List ℕ)
    → pointer ≡ some p
    → Holds buffer p bs
    → read_number (length bs) pointer 0 buffer ≡ ok (big_endian 0 bs)
unfolding read_number
number_held p pointer bs buffer e h =
    let same : p + 0 ≡ p = omega arith in rw (e, same, read_bytes-held buffer p bs h)

count_value : (v : ℕ) → v < 2 ^ 16 → big_endian 0 (uint16_octets v) ≡ v
unfolding big_endian
count_value v h = omega arith

rev_value : (v : ℕ) → v < 2 ^ 32 → big_endian 0 (uint32_fixed_octets v) ≡ v
unfolding big_endian
rev_value v h = omega arith

-- The fields behind the names, from where the names have been noted.
samples_noted :
    (a : SvAsdu) (time samples buffer next : List ℕ) (start buf_pos : ℕ) (l : AsduLocals)
    → a.smp_cnt < 2 ^ 16
    → a.conf_rev < 2 ^ 32
    → Holds (drop start buffer) buf_pos (field_octets (sample_fields a time samples))
    → ((q : ℕ) (c : List ℕ) → start + buf_pos < q → Holds buffer q c → Holds next q c)
    → IsSample a samples (record {
      asdu = (note_all start buf_pos (sample_fields a time samples) l).asdu;
      buffer = next;
    })
unfolding Found get_smp_cnt get_conf_rev get_smp_synch
samples_noted a time samples buffer next start buf_pos l small small' held kept =
    let fs = sample_fields a time samples in
    let at_next : (q : ℕ) (c : List ℕ)
        → buf_pos < q
        → Holds (drop start buffer) q c
        → Holds next (start + q) c =
      λ q c before h.
        kept (start + q) c (omega arith) (h.0, sym (drop-drop q start buffer) ∙ h.1) in
    let (q1, b1, h1, v1) = sample_counter-Found a time samples (drop start buffer) buf_pos held in
    let (q2, b2, h2, v2) = conf_rev-Found a time samples (drop start buffer) buf_pos held in
    let (q3, b3, h3, v3) = smp_synch-Found a time samples (drop start buffer) buf_pos held in
    let (q4, b4, h4, v4) = samples-Found a time samples (drop start buffer) buf_pos held in
    let l' = note_all start buf_pos fs l in
    let pointer : ℕ → ℕ → Option ℕ = λ p n. some p in
    let e1 : l'.asdu.smp_cnt ≡ some (start + q1) =
      note_all-last_value 0x82 pointer (λ m. m.asdu.smp_cnt) at_82 fs start buf_pos l
      ∙ v1 (Option ℕ) pointer start l.asdu.smp_cnt in
    let e2 : l'.asdu.conf_rev ≡ some (start + q2) =
      note_all-last_value 0x83 pointer (λ m. m.asdu.conf_rev) at_83 fs start buf_pos l
      ∙ v2 (Option ℕ) pointer start l.asdu.conf_rev in
    let e3 : l'.asdu.smp_synch ≡ some (start + q3) =
      note_all-last_value 0x85 pointer (λ m. m.asdu.smp_synch) at_85 fs start buf_pos l
      ∙ v3 (Option ℕ) pointer start l.asdu.smp_synch in
    let e4 : l'.asdu.data_buffer ≡ some (start + q4) =
      note_all-last_value 0x87 pointer (λ m. m.asdu.data_buffer) at_87 fs start buf_pos l
      ∙ v4 (Option ℕ) pointer start l.asdu.data_buffer in
    record {
      smp_cnt =
          number_held (start + q1) l'.asdu.smp_cnt (uint16_octets a.smp_cnt) next e1
            (at_next q1 (uint16_octets a.smp_cnt) b1 h1)
          ∙ ap ok (count_value a.smp_cnt small);
      conf_rev =
          number_held (start + q2) l'.asdu.conf_rev (uint32_fixed_octets a.conf_rev) next e2
            (at_next q2 (uint32_fixed_octets a.conf_rev) b2 h2)
          ∙ ap ok (rev_value a.conf_rev small');
      smp_synch =
          rw e3 (Holds-read next (start + q3) a.smp_synch [] (at_next q3 (a.smp_synch ∷ []) b3 h3));
      data_buffer_length =
          note_all-last_value 0x87 (λ p n. n) (λ m. m.asdu.data_buffer_length) at_87_length fs start
            buf_pos l
          ∙ v4 ℕ (λ p n. n) start l.asdu.data_buffer_length;
      sample_octets = (start + q4, e4, at_next q4 samples b4 h4);
    }

-- An array that holds the fields goes on at their start.
sample_start :
    (a : SvAsdu) (time samples buffer : List ℕ) (buf_pos : ℕ)
    → Holds buffer buf_pos (field_octets (sample_fields a time samples))
    → buf_pos < length buffer
unfolding sample_fields field_octets
sample_start a time samples buffer buf_pos held = drop-lt buffer buf_pos held.1

-- After the names: what the fields behind them and the two terminators leave.
delivered :
    (a : SvAsdu) (time samples buffer : List ℕ) (start buf_pos : ℕ) (l : AsduLocals)
    → a.smp_cnt < 2 ^ 16
    → a.conf_rev < 2 ^ 32
    → Holds (drop start buffer) buf_pos (field_octets (sample_fields a time samples))
    → EndsBy l.asdu.sv_id l.sv_id_length (start + buf_pos)
    → EndsBy l.asdu.dat_set l.dat_set_length (start + buf_pos)
    → let l' = note_all start buf_pos (sample_fields a time samples) l in
      (d : Delivery) × IsSample a samples d
      × (d.asdu ≡ l'.asdu)
      × ((terminate l'.asdu.sv_id l'.sv_id_length buffer >>= λ named.
            terminate l'.asdu.dat_set l'.dat_set_length named)
          ≡ ok d.buffer)
delivered a time samples buffer start buf_pos l small small' held sv set =
    let fs = sample_fields a time samples in
    let l' = note_all start buf_pos fs l in
    let pointer : ℕ → ℕ → Option ℕ = λ p n. some p in
    let size : ℕ → ℕ → ℕ = λ p n. n in
    let no80 = sample_fields-HasOther a time samples 0x80 refl refl refl refl refl refl refl in
    let no81 = sample_fields-HasOther a time samples 0x81 refl refl refl refl refl refl refl in
    let e1 : l'.asdu.sv_id ≡ l.asdu.sv_id =
      note_all-last_value 0x80 pointer (λ m. m.asdu.sv_id) at_80 fs start buf_pos l
      ∙ none_later 0x80 pointer start buf_pos fs l.asdu.sv_id no80 in
    let e2 : l'.sv_id_length ≡ l.sv_id_length =
      note_all-last_value 0x80 size (λ m. m.sv_id_length) at_80_length fs start buf_pos l
      ∙ none_later 0x80 size start buf_pos fs l.sv_id_length no80 in
    let e3 : l'.asdu.dat_set ≡ l.asdu.dat_set =
      note_all-last_value 0x81 pointer (λ m. m.asdu.dat_set) at_81 fs start buf_pos l
      ∙ none_later 0x81 pointer start buf_pos fs l.asdu.dat_set no81 in
    let e4 : l'.dat_set_length ≡ l.dat_set_length =
      note_all-last_value 0x81 size (λ m. m.dat_set_length) at_81_length fs start buf_pos l
      ∙ none_later 0x81 size start buf_pos fs l.dat_set_length no81 in
    let inside : start + buf_pos < length buffer = omega (
      arith,
      length-drop start buffer,
      sample_start a time samples (drop start buffer) buf_pos held,
    ) in
    let (named, t1, long1, kept1) =
      terminate-Holds l.asdu.sv_id l.sv_id_length (start + buf_pos) buffer sv inside in
    let (both, t2, long2, kept2) =
      terminate-Holds l.asdu.dat_set l.dat_set_length (start + buf_pos) named set (omega arith) in
    (
      record { asdu = l'.asdu; buffer = both },
      samples_noted a time samples buffer both start buf_pos l small small' held
          (λ q c before h. kept2 q c before (kept1 q c before h)),
      refl,
      rw (e1, e2, t1, e3, e4, t2),
    )

-- The names are noted, and end where the fields behind them begin.
names_noted :
    (id : List ℕ) (set_name : Option (List ℕ)) (fs : List Field) (buffer : List ℕ) (start : ℕ)
    → Holds buffer 0 (field_octets ((0x80, id) ∷ (datset_field set_name ++ fs)))
    → (buf_pos : ℕ) × (l : AsduLocals) × (note_all start 0
          ((0x80, id) ∷ (datset_field set_name ++ fs))
          no_asdu
        ≡ note_all start buf_pos fs l)
      × Holds buffer buf_pos (field_octets fs)
      × EndsBy l.asdu.sv_id l.sv_id_length (start + buf_pos)
      × EndsBy l.asdu.dat_set l.dat_set_length (start + buf_pos)
unfolding note_all note_field
names_noted id none fs buffer start h = (
  behind 0 (length id),
  note_field 0x80 (start + contents_at 0 (length id)) (length id) no_asdu,
  refl,
  (h.0, next_field buffer h.0 (0x80, id) fs 0 h.1),
  omega arith,
  tt,
)
names_noted id (some s) fs buffer start h =
    let first = behind 0 (length id) in
    let h1 = next_field buffer h.0 (0x80, id) ((0x81, s) ∷ fs) 0 h.1 in
    (
      behind first (length s),
      note_field 0x81 (start + contents_at first (length s)) (length s)
          (note_field 0x80 (start + contents_at 0 (length id)) (length id) no_asdu),
      refl,
      (h.0, next_field buffer h.0 (0x81, s) fs first h1),
      omega arith,
      omega arith,
    )

-- Where the buffer holds, from `start` on, the fields of a publisher's ASDU with any time and samples,
-- with a counter of 16 bits, a revision of 32 bits and at most 2 ^ 24 - 1 octets, the listener is
-- called once, after what it was called with before, with an ASDU whose getters give the counter, the
-- revision and the synchronisation flag of the publisher, and whose data are the samples, which the
-- terminators of the names do not touch.
pub parse_asdu-IsSample :
    (a : SvAsdu) (time samples buffer : List ℕ) (start : ℕ) (seen : List Delivery)
    → a.smp_cnt < 2 ^ 16
    → a.conf_rev < 2 ^ 32
    → Holds (drop start buffer) 0 (field_octets (published_fields a time samples))
    → length (field_octets (published_fields a time samples)) < 2 ^ 24
    → (d : Delivery) × IsSample a samples d
      × (parse_asdu true buffer start (length (field_octets (published_fields a time samples))) seen
          ≡ ok (d.buffer, seen ++ (d ∷ [])))
unfolding parse_asdu published_fields
parse_asdu-IsSample a time samples buffer start seen small small' held short =
    let fs = published_fields a time samples in
    let n = length (field_octets fs) in
    let (all_short, count) = All-IsShort fs short in
    let (buf_pos, l, noted, behind_names, sv, set_name) =
      names_noted a.sv_id a.datset (sample_fields a time samples) (drop start buffer) start held in
    let (d, sample, same, done) =
      delivered a time samples buffer start buf_pos l small small' behind_names sv set_name in
    let l' = note_all start buf_pos (sample_fields a time samples) l in
    let deliver : List ℕ → Outcome Deliveries =
      λ both. ok (both, seen ++ (record { asdu = l'.asdu; buffer = both } ∷ [])) in
    (
      d,
      sample,
      rw
          (
            note_fields-note_all fs (n + 1) buffer start 0 n no_asdu held (omega arith) all_short
                (omega arith),
            noted,
          )
          (sym (
              >>=_assoc (terminate l'.asdu.sv_id l'.sv_id_length buffer)
                (λ named. terminate l'.asdu.dat_set l'.dat_set_length named) deliver)
            ∙ ap (λ o. o >>= deliver) done
            ∙ ap (λ asdu. ok (d.buffer, seen ++ (record { asdu = asdu; buffer = d.buffer } ∷ [])))
                (sym same)),
    )
