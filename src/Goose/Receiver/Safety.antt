-- ===== src/Goose/Receiver/Safety.antt =====
-- parseGoosePayload of goose/goose_receiver.cc on any input, well formed or not.
use grid_goose_sv.Prelude.{
  ℕ, ◌+◌, ◌^◌, ◌≤◌, ◌<◌, ◌≡◌, refl, arith, List, [], ◌∷◌, length, drop, ◌==◌, ◌&&◌, Bool, true,
  false, not, Option, none, some, ok, ◌>>=◌, All, Ensures, Ensures-bind, Ensures-if,
  Ensures-on_failure, Ensures-weaken, length-drop, length-append, reverse, if◌then◌else◌,
}
use grid_goose_sv.Ber.Bytes.{le_bytes}
use grid_goose_sv.Ber.Decoder.Safety.{
  IsByte, InBounds, decode_length-InBounds, read-Ensures, All-drop, read_bytes-Ensures,
}
use grid_goose_sv.Mms.Value.{MmsValue, Components}
use grid_goose_sv.Goose.Subscriber.{GooseSubscriber, GooseParseError}
use grid_goose_sv.Goose.Receiver.{Payload, FieldResult, fields, returned, update_at}
use grid_goose_sv.Goose.Receiver.{
  new_payload, data_at, parse_data_set, take_message, kept_values, finish_payload,
  parse_goose_payload, DataSetResult, PayloadResult,
}
use grid_goose_sv.Goose.Receiver.Unknown.{
  parse_all_data_unknown_value, fill_elements, count_elements,
}
use grid_goose_sv.Goose.Receiver.DataSet.{FloatConversions, parse_all_data}
use grid_goose_sv.Mms.UtcTime.{set_utc_time, set_utc_time_by_buffer}
use grid_goose_sv.Goose.Receiver.DataSet.Elements.{HasSizes}
use grid_goose_sv.Goose.Receiver.DataSet.Safety.{SafeData, parse_all_data-SafeData}
use grid_goose_sv.Goose.Receiver.Unknown.Safety.{parse_all_data_unknown_value-Ends}
use grid_goose_sv.Goose.Receiver.Arrays.{
  Any, DataSetReady, HasArrays, HasDataSet, IsReady, Ready, IndexIn, update_at-All,
}
use grid_goose_sv.Goose.Receiver.Fields.{
  StampFits, DataFits, IsConsistent, Consistent, parse_fields-Consistent,
}

length-le_bytes : (timeval : ℕ) → length (reverse (le_bytes 4 timeval)) ≡ 4
unfolding le_bytes
length-le_bytes timeval = refl

set_utc_time-Long :
    (t : List ℕ) (timeval : ℕ)
    → length t ≡ 8
    → Ensures (λ (out : List ℕ). length out ≡ 8) (set_utc_time t timeval)
unfolding set_utc_time
set_utc_time-Long [] timeval h = absurd (omega arith)
set_utc_time-Long (a ∷ []) timeval h = absurd (omega arith)
set_utc_time-Long (a ∷ b ∷ []) timeval h = absurd (omega arith)
set_utc_time-Long (a ∷ b ∷ c ∷ []) timeval h = absurd (omega arith)
set_utc_time-Long (a ∷ b ∷ c ∷ d ∷ rest) timeval h =
    omega (arith, length-le_bytes timeval, length-append (reverse (le_bytes 4 timeval)) rest)

abbrev TakenBy : ℕ → PayloadResult → Type 0
TakenBy count (PayloadResult.accepted i) = i < count
TakenBy count PayloadResult.ignored = Unit
TakenBy count PayloadResult.invalid = Unit

-- The list after a message: as long as before, every subscriber with its arrays, and the one that
-- took the message in it.
abbrev pub Handled : ℕ → List GooseSubscriber × PayloadResult → Type 0
Handled count r = All HasArrays r.0 × (length r.0 ≡ count) × TakenBy count r.1

arrays_of :
    (buffer : List ℕ) (subscribers : List GooseSubscriber)
    → Ready buffer subscribers
    → All HasArrays subscribers
arrays_of buffer [] h = tt
arrays_of buffer (s ∷ subscribers) h = (h.0.0, arrays_of buffer subscribers h.1)

no_data :
    (fc : FloatConversions) (cs : Components)
    → Ensures (λ (r : Components × GooseParseError). Unit {0}) (parse_all_data fc cs [] 0 0)
unfolding parse_all_data
no_data fc Components.nil = tt
no_data fc (Components.cons v cs) = tt
no_data fc (Components.null_cons cs) = tt

no_data_unknown : Ensures (λ (v : MmsValue). Unit {0}) (parse_all_data_unknown_value 2 [] 0 false)
unfolding parse_all_data_unknown_value count_elements fill_elements
no_data_unknown = tt

module _ (fc : FloatConversions) (sizes : HasSizes fc) (buffer : List ℕ)
    (bytes : All IsByte buffer) where
  parse_all_data-Ends :
      (cs : Components) (pos : Option ℕ) (n : ℕ)
      → DataFits buffer pos n
      → DataSetReady buffer cs
      → Ensures
          (λ (r : Components × GooseParseError). Unit {0})
          (parse_all_data fc cs (data_at buffer pos) 0 n)
  parse_all_data-Ends cs none n fits h = rw fits (no_data fc cs)
  parse_all_data-Ends cs (some pos) n fits h =
      Ensures-weaken SafeData Any _
        (parse_all_data-SafeData fc cs (drop pos buffer) 0 n sizes (All-drop pos buffer bytes)
          (omega (arith, length-drop pos buffer)) fits.1 h.0 (h.1 pos n))
        (λ r hr. tt)

  unknown-Ends :
      (pos : Option ℕ) (n : ℕ)
      → DataFits buffer pos n
      → Ensures
          (λ (v : MmsValue). Unit {0})
          (parse_all_data_unknown_value (n + 2) (data_at buffer pos) n false)
  unknown-Ends none n fits = rw fits no_data_unknown
  unknown-Ends (some pos) n fits =
      parse_all_data_unknown_value-Ends (drop pos buffer) n false (All-drop pos buffer bytes)
        (omega (arith, length-drop pos buffer)) (omega (arith, fits.1))

  parse_data_set-Ends :
      (flag : Bool) (values : Option MmsValue) (pos : Option ℕ) (n : ℕ)
      → HasDataSet buffer values
      → DataFits buffer pos n
      → Ensures
          (λ (r : DataSetResult). Unit {0})
          (parse_data_set fc flag values (data_at buffer pos) n)
  unfolding parse_data_set HasDataSet
  parse_data_set-Ends flag none pos n h fits =
      Ensures-on_failure Any Any _ _ _ (unknown-Ends pos n fits) tt (λ v hv. tt)
  parse_data_set-Ends flag (some (MmsValue.array cs)) pos n h fits =
      Ensures-bind Any Any _ _ (parse_all_data-Ends cs pos n fits h) (λ r hr. tt)
  parse_data_set-Ends flag (some (MmsValue.structure cs)) pos n h fits =
      Ensures-bind Any Any _ _ (parse_all_data-Ends cs pos n fits h) (λ r hr. tt)
  parse_data_set-Ends flag (some (MmsValue.boolean b)) pos n h fits = absurd h
  parse_data_set-Ends flag (some (MmsValue.bit_string m bits)) pos n h fits = absurd h
  parse_data_set-Ends flag (some (MmsValue.integer v)) pos n h fits = absurd h
  parse_data_set-Ends flag (some (MmsValue.unsigned v)) pos n h fits = absurd h
  parse_data_set-Ends flag (some (MmsValue.float a b octets)) pos n h fits = absurd h
  parse_data_set-Ends flag (some (MmsValue.octet_string m k octets)) pos n h fits = absurd h
  parse_data_set-Ends flag (some (MmsValue.visible_string t m)) pos n h fits = absurd h
  parse_data_set-Ends flag (some (MmsValue.mms_string t m)) pos n h fits = absurd h
  parse_data_set-Ends flag (some (MmsValue.binary_time m octets)) pos n h fits = absurd h
  parse_data_set-Ends flag (some (MmsValue.utc_time octets)) pos n h fits = absurd h
  parse_data_set-Ends flag (some (MmsValue.data_access_error e)) pos n h fits = absurd h
  parse_data_set-Ends flag (some MmsValue.generalized_time) pos n h fits = absurd h
  parse_data_set-Ends flag (some MmsValue.bcd) pos n h fits = absurd h
  parse_data_set-Ends flag (some MmsValue.obj_id) pos n h fits = absurd h

  kept_values-HasDataSet :
      (s : GooseSubscriber) (conf_rev : ℕ)
      → HasDataSet buffer s.data_set_values
      → HasDataSet buffer (kept_values s conf_rev)
  unfolding kept_values HasDataSet
  kept_values-HasDataSet s conf_rev h =
      by_flags (s.data_set_values_self_allocated && not (s.conf_rev == conf_rev)) s.is_observer
    where
      by_flags :
          (a b : Bool)
          → HasDataSet buffer (if a then none else if b then none else s.data_set_values)
      by_flags true b = tt
      by_flags false true = tt
      by_flags false false = h

  timestamp-Long :
      (s : GooseSubscriber) (stamp : Option ℕ)
      → HasArrays s
      → StampFits buffer stamp
      → Ensures
          (λ (out : List ℕ). length out ≡ 8)
          (elim stamp [
            | none ↦ set_utc_time s.timestamp 0
            | some pos ↦ set_utc_time_by_buffer buffer pos
          ])
  unfolding set_utc_time_by_buffer
  timestamp-Long s none h fits = set_utc_time-Long s.timestamp 0 h.timestamp
  timestamp-Long s (some pos) h fits =
      Ensures-weaken (λ out. All IsByte out × (length out ≡ 8)) (λ out. length out ≡ 8) _
        (read_bytes-Ensures 8 buffer pos bytes fits) (λ out ho. ho.1)

  take_message-HasArrays :
      (s : GooseSubscriber) (p : Payload) (now count : ℕ)
      → IsReady buffer s
      → IsConsistent buffer count p
      → Ensures HasArrays (take_message fc s p buffer now)
  unfolding take_message
  take_message-HasArrays s p now count h hp =
      Ensures-bind (λ out. length out ≡ 8) HasArrays _ _
        (timestamp-Long s p.timestamp_buf_pos h.0 hp.stamp)
        λ t ht.
          Ensures-bind Any HasArrays _ _
            (parse_data_set-Ends s.data_set_values_self_allocated (kept_values s p.conf_rev)
              p.data_set_buffer_pos p.data_set_buffer_length
              (kept_values-HasDataSet s p.conf_rev h.1) hp.data_set)
            λ d hd. record {
              go_cb_ref = h.0.go_cb_ref;
              dat_set = h.0.dat_set;
              go_id = h.0.go_id;
              go_cb_ref_len = h.0.go_cb_ref_len;
              timestamp = ht;
            }

  finish_payload-Handled :
      (q : FieldResult) (now count : ℕ)
      → Consistent buffer count q
      → Ensures (Handled count) (finish_payload fc q buffer now)
  unfolding finish_payload
  finish_payload-Handled (returned subscribers) now count h =
      (arrays_of buffer subscribers h.0, h.1, tt)
  finish_payload-Handled (fields p) now count h = by_index p.matching h.matched
    where
      by_index :
          (m : Option ℕ)
          → IndexIn count m
          → Ensures (Handled count) (elim m [
            | none ↦ ok (p.subscribers, PayloadResult.ignored)
            | some i ↦
                (update_at p.subscribers i (λ s. take_message fc s p buffer now) >>= λ subscribers.
                ok (subscribers, PayloadResult.accepted i))
          ])
      by_index none hm = (arrays_of buffer p.subscribers h.ready, h.same_count, tt)
      by_index (some i) hm =
          Ensures-bind (λ r. All HasArrays r × (length r ≡ length p.subscribers)) (Handled count) _
            _
            (update_at-All (IsReady buffer) HasArrays (λ s. take_message fc s p buffer now)
              p.subscribers i (λ s hs. hs.0) (λ s hs. take_message-HasArrays s p now count hs h)
              h.ready (omega (arith, h.same_count)))
            (λ r hr. (hr.0, omega (arith, hr.1, h.same_count), hm))

-- On a buffer of bytes with at least eight octets behind the APDU, which is shorter than 2 ^ 15
-- octets, and with subscribers whose arrays and data sets have the room that `IsReady` asks for and
-- for whose bit strings no octets of the buffer give 8 or more unused bits, handling any message ends
-- and reads and writes nothing outside the arrays; the list stays as long as it was, every subscriber
-- keeps its arrays, and the index of the one that took the message is one of the list.
pub parse_goose_payload-Handled :
    (fc : FloatConversions) (subscribers : List GooseSubscriber) (buffer : List ℕ)
    (apdu_length now : ℕ)
    → HasSizes fc
    → All IsByte buffer
    → apdu_length + 8 ≤ length buffer
    → apdu_length < 2 ^ 15
    → Ready buffer subscribers
    → Ensures
        (Handled (length subscribers))
        (parse_goose_payload fc subscribers buffer apdu_length now)
unfolding parse_goose_payload
parse_goose_payload-Handled fc subscribers buffer apdu_length now sizes bytes fits small h =
    Ensures-bind IsByte (Handled (length subscribers)) _ _
      (read-Ensures buffer 0 bytes (omega arith))
      λ tag ht.
        Ensures-if (Handled (length subscribers)) (tag == 0x61) _ _
          (λ e.
            Ensures-on_failure (InBounds 1 apdu_length) (Handled (length subscribers)) _ _ _
              (decode_length-InBounds buffer 1 apdu_length bytes (omega arith) (omega arith))
              (arrays_of buffer subscribers h, refl, tt)
              λ r hr.
                Ensures-bind (Consistent buffer (length subscribers)) (Handled (length subscribers))
                  _ _
                  (parse_fields-Consistent buffer bytes (length subscribers) (r.1 + 1) r.0
                    (r.0 + r.1) apdu_length (new_payload subscribers) fits small (omega arith)
                    (omega arith)
                    (record {
                      ready = h;
                      same_count = refl;
                      matched = tt;
                      stamp = tt;
                      data_set = refl;
                    }))
                  (λ q hq.
                    finish_payload-Handled fc sizes buffer bytes q now (length subscribers) hq))
          (λ e. (arrays_of buffer subscribers h, refl, tt))
