-- ===== src/Goose/Application/Run.antt =====
-- Whole runs of the publishing application in model/goose-publisher-app.cc.
use grid_goose_sv.Prelude.{
  ℕ, suc, ◌-◌, ◌^◌, ◌≤◌, ◌<◌, ◌≡◌, refl, sym, ◌∙◌, ◌⊎◌, inl, inr, arith, List, [], ◌∷◌, length,
  true, not, Option, some, ok, ok-subst, ◌==◌, if◌then◌else◌, Bool-cases,
}
use Prim.Native.Nat.{min}
use native.Mathlib.Decide.{dec_lt}
use grid_goose_sv.Simulator.{Scheduler, Doubles}
use grid_goose_sv.Ber.Bytes.{
  le_bytes, revert_byte_order, revert_loop, store, compress_integer, bytes_to_delete, is_redundant,
  move_down,
}
use grid_goose_sv.Ber.Primitive.{create, memcpy}
use grid_goose_sv.Ber.Length.{length_octets}
use grid_goose_sv.Ber.Integer.{create_from_int32, set_int32_value, set_integer_value}
use grid_goose_sv.Mms.Value.{MmsValue, new_binary_time}
use grid_goose_sv.Mms.Numbers.{new_integer_from_int32}
use grid_goose_sv.Mms.UtcTime.{new_utc_time_by_ms_time, set_utc_time_ms}
use grid_goose_sv.Mms.Encode.Octets.{mms_octets, WellSized}
use grid_goose_sv.Goose.Publisher.{
  GoosePublisher, goose_max_message_size, set_go_cb_ref, set_conf_rev, set_data_set_ref,
  set_time_allowed_to_live,
}
use grid_goose_sv.Goose.Publisher.Payload.{EntriesWellSized, data_set_octets}
use grid_goose_sv.Goose.Publisher.Create.{create_ex-HasFrame, create_ex-fields}
use grid_goose_sv.Goose.Application.{
  Handler, send, Attributes, World, fire, start, schedule_events, analog_values,
  configured_publisher, comm_parameters, go_cb_ref_text, data_set_ref_text,
}
use grid_goose_sv.Goose.Application.Messages.{IsConfigured}
use grid_goose_sv.Goose.Application.Pending.{Runs, begin, next}
use grid_goose_sv.Goose.Application.Progress.{
  Numbered, IsRunning, HasEvent, fire-Advances, fire_exhausted, schedule-HasEvent,
}

abbrev number_value : List ℕ → MmsValue
number_value octets = MmsValue.integer (record { size = 2; max_size = 5; octets = octets })

-- 1234, a time and 5678.
abbrev pub values : List (Option MmsValue)
values =
    some (number_value (0x04 ∷ 0xd2 ∷ 0 ∷ 0 ∷ 0 ∷ []))
    ∷ some (MmsValue.binary_time 6 (0 ∷ 0 ∷ 0 ∷ 0 ∷ 0 ∷ 0 ∷ []))
    ∷ some (number_value (0x16 ∷ 0x2e ∷ 0 ∷ 0 ∷ 0 ∷ []))
    ∷ []

pub analog_values-values : analog_values ≡ ok values
unfolding analog_values new_integer_from_int32 create_from_int32 set_int32_value set_integer_value
    le_bytes revert_byte_order revert_loop store compress_integer bytes_to_delete is_redundant
    move_down create memcpy new_binary_time
analog_values-values = refl

configured_publisher-IsConfigured :
    (a : Attributes) (src_addr junk : List ℕ) (now : ℕ)
    → length src_addr ≡ 6
    → length junk ≡ goose_max_message_size
    → (p : GoosePublisher) × (configured_publisher a src_addr junk now ≡ ok p)
      × IsConfigured p values
      × (p.st_num ≡ 1)
unfolding configured_publisher comm_parameters set_go_cb_ref set_conf_rev set_data_set_ref
    set_time_allowed_to_live EntriesWellSized WellSized data_set_octets mms_octets length_octets
    new_utc_time_by_ms_time set_utc_time_ms le_bytes
configured_publisher-IsConfigured a src_addr junk now hs hj =
    let parameters = comm_parameters a in
    let (p, run, frame, head, st, sq) =
      create_ex-HasFrame (some parameters) src_addr junk now true refl hs hj in
    let (id, timestamp) = create_ex-fields (some parameters) src_addr junk now true p run in
    let eight : 8 ≤ length (new_utc_time_by_ms_time now) = omega arith in
    (
      set_time_allowed_to_live
          (set_data_set_ref (set_conf_rev (set_go_cb_ref p go_cb_ref_text) 1) data_set_ref_text)
          500,
      rw run,
      record {
        frame = record {
          allocated = frame.allocated;
          field_at = frame.field_at;
          header_long = frame.header_long;
          header_short = frame.header_short;
        };
        cb_ref = refl;
        set_ref = refl;
        id = id;
        time = rw timestamp eight;
        entries = (omega arith, (omega arith, (omega arith, tt)));
        small = omega arith;
      },
      st,
    )

-- The packets to send: 0 stands for no limit, which is a count of 2 ^ 64 - 1.
abbrev pub packets : Attributes → ℕ
packets a = if a.max_packets == 0 then 2 ^ 64 - 1 else a.max_packets

pub packets-lt : (a : Attributes) → a.max_packets < 2 ^ 64 → packets a < 2 ^ 64
packets-lt a h = ground arith

module _ (s : Scheduler Handler) (d : Doubles) where
  open s use {Queue, schedule, cancel, pending}

  -- The application after its start.
  pub record IsStarted (a : Attributes) (w : World s d) : Type 0 where
    pub running : IsRunning s d a w
    pub count : w.app.count ≡ packets a
    pub sent : w.app.sent ≡ 0
    pub frames : w.frames ≡ []
    pub event : HasEvent s d w.queue

  -- Starting returns.
  pub start-IsStarted :
      (a : Attributes) (src_addr junk : List ℕ) (now : ℕ) (q : Queue)
      → length src_addr ≡ 6
      → length junk ≡ goose_max_message_size
      → (w : World s d) × (start s d a src_addr junk now q ≡ ok w) × IsStarted a w
  unfolding start Numbered
  start-IsStarted a src_addr junk now q hs hj =
      let (p, created, c, st) = configured_publisher-IsConfigured a src_addr junk now hs hj in
      let events = schedule_events s d a q in
      let all_events = schedule events.0 0 send in
      (
        record {
          app = record {
            attributes = a;
            data_set_values = values;
            publisher = p;
            count = if a.max_packets == 0 then 2 ^ 64 - 1 else a.max_packets;
            event_count = 1;
            send_events = not (a.event_interval == 0);
            event_id = all_events.1;
            goose_event_id = events.1;
            sent = 0;
          };
          queue = all_events.0;
          frames = [];
        },
        rw (analog_values-values, created),
        record {
          running = record { configured = c; attributes = refl; numbered = st };
          count = refl;
          sent = refl;
          frames = refl;
          event = schedule-HasEvent s d events.0 0 send;
        },
      )

  -- What `n` packets and `k` events that have been run make of the application.
  pub record HasSent (a : Attributes) (n k : ℕ) (w : World s d) : Type 0 where
    pub running : IsRunning s d a w
    pub count : w.app.count ≡ n - k
    pub sent : w.app.sent ≡ min k n
    pub frames : length w.frames ≡ min k n
    pub event : k < n → HasEvent s d w.queue

  fire-HasSent :
      (a : Attributes) (n k : ℕ) (w w' : World s d) (i : ℕ) (h : Handler) (now : ℕ)
      → 0 < a.t1
      → n < 2 ^ 64
      → HasSent a n k w
      → fire s d w i h now ≡ ok w'
      → HasSent a n (suc k) w'
  fire-HasSent a n k w w' i h now time small r e = elim (Bool-cases (w.app.count == 0)) [
    | inl done ↦
        let empty : w.app.count ≡ 0 = ground arith in
        ok-subst (HasSent a n (suc k)) (record w { queue = cancel w.queue i }) w'
          (sym (fire_exhausted s d w i h now empty) ∙ e)
          (record {
            running = record {
              configured = r.running.configured;
              attributes = r.running.attributes;
              numbered = r.running.numbered;
            };
            count = omega (arith, r.count);
            sent = omega (arith, r.count, r.sent);
            frames = omega (arith, r.count, r.frames);
            event = λ more. absurd (omega (arith, r.count));
          })
    | inr more ↦
        let left : 0 < w.app.count = ground arith in
        let (w1, run, r1, one, event) = fire-Advances s d a w i h now time r.running left in
        ok-subst (HasSent a n (suc k)) w1 w' (sym run ∙ e) (record {
          running = r1;
          count = omega (arith, r.count, one.count);
          sent = omega (arith, r.count, r.sent, one.sent);
          frames = omega (arith, r.count, r.frames, one.frames);
          event = λ h. event;
        })
  ]

  fire_returns :
      (a : Attributes) (w : World s d) (i : ℕ) (h : Handler) (now : ℕ)
      → 0 < a.t1
      → IsRunning s d a w
      → (w' : World s d) × (fire s d w i h now ≡ ok w')
  fire_returns a w i h now time r = elim (Bool-cases (w.app.count == 0)) [
    | inl done ↦ (_, fire_exhausted s d w i h now (ground arith))
    | inr more ↦
        let (w1, run, r1, one, event) = fire-Advances s d a w i h now time r (ground arith) in
        (w1, run)
  ]

  pub Runs-HasSent :
      {first : World s d} {k : ℕ} {w : World s d} (a : Attributes) (n : ℕ)
      → 0 < a.t1
      → n < 2 ^ 64
      → IsStarted a first
      → first.app.count ≡ n
      → Runs s d first k w
      → HasSent a n k w
  Runs-HasSent {first} a n time small st e begin = record {
    running = st.running;
    count = omega (arith, e);
    sent = omega (arith, st.sent);
    frames = rw st.frames (omega arith);
    event = λ more. st.event;
  }
  Runs-HasSent a n time small st e (next {k} {w} {w'} i h now r fired run) =
      fire-HasSent a n k w w' i h now time small (Runs-HasSent a n time small st e r) run

  -- What the start of the application leads to.
  pub started :
      (a : Attributes) (src_addr junk : List ℕ) (now : ℕ) (q : Queue) (first : World s d)
      → length src_addr ≡ 6
      → length junk ≡ goose_max_message_size
      → start s d a src_addr junk now q ≡ ok first
      → IsStarted a first
  started a src_addr junk now q first hs hj e =
      let (w, run, st) = start-IsStarted a src_addr junk now q hs hj in
      ok-subst (IsStarted a) w first (sym run ∙ e) st

  still_waiting : (n k : ℕ) (q : Queue) → (k < n → HasEvent s d q) → (n ≤ k) ⊎ HasEvent s d q
  still_waiting n k q h = elim (dec_lt k n) [
    | yes left ↦ inr (h left)
    | no over ↦ inl (omega arith)
  ]

  -- An application with T1 not zero that has been started has sent exactly the smaller of `k` and its
  -- number of packets after `k` of its events, in whatever order and whenever they are run. Their
  -- frames carry the data set with sequence number 0 and consecutive state numbers from 2 on. All
  -- packets have been sent or an event is in the queue, and the call of any handler returns.
  pub Runs-sends :
      (a : Attributes) (src_addr junk : List ℕ) (now : ℕ) (q : Queue) (first w : World s d)
      (k i : ℕ) (h : Handler) (later : ℕ)
      → length src_addr ≡ 6
      → length junk ≡ goose_max_message_size
      → 0 < a.t1
      → a.max_packets < 2 ^ 64
      → start s d a src_addr junk now q ≡ ok first
      → Runs s d first k w
      → (w.app.sent ≡ min k (packets a))
        × (length w.frames ≡ min k (packets a))
        × Numbered w.app.data_set_values w.app.publisher.st_num w.frames
        × ((packets a ≤ k) ⊎ HasEvent s d w.queue)
        × (w' : World s d) × (fire s d w i h later ≡ ok w')
  Runs-sends a src_addr junk now q first w k i h later hs hj time small e r =
      let st = started a src_addr junk now q first hs hj e in
      let sent = Runs-HasSent a (packets a) time (packets-lt a small) st st.count r in
      let (w', run) = fire_returns a w i h later time sent.running in
      (
        sent.sent,
        sent.frames,
        sent.running.numbered,
        still_waiting (packets a) k w.queue sent.event,
        w',
        run,
      )
