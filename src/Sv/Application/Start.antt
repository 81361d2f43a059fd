-- ===== src/Sv/Application/Start.antt =====
-- model/sv-publisher-app.cc: the start of the sampling application, and what follows from it.
pub mod Slots
pub mod Places
pub mod Frame
use grid_goose_sv.Prelude.{
  ℕ, zero, suc, ◌+◌, ◌-◌, ◌*◌, ◌%◌, ◌^◌, ◌/◌, ◌≤◌, ◌<◌, ◌≡◌, ◌≢◌, refl, sym, ap, ◌∙◌, arith, List,
  [], ◌∷◌, ◌++◌, length, length-set, length-append, length-take, set, take, replicate,
  length-replicate, Option, none, some, Outcome, ok, ◌>>=◌, lt→ltb, ltb, ◌==◌, if◌then◌else◌, true,
  false, Bool-cases, inl, inr, ok-subst, subst,
}
use Prim.Native.Nat.{min}
use grid_goose_sv.Simulator.{Scheduler, Doubles, Floats}
use grid_goose_sv.Memory.{Cursor, put, put_all, draw, draw-fits}
use grid_goose_sv.Ber.Bytes.{store}
use grid_goose_sv.Iec61850.Timestamp.{Timestamp}
use grid_goose_sv.Sv.Publisher.{
  SvAsdu, SvPublisher, packet_header, create_sv, setup_complete, finish_setup,
}
use grid_goose_sv.Sv.Publisher.Setup.{
  asdus_pattern, placed_all, apdu_head, sv_apdu, setup_complete-apdu,
}
use grid_goose_sv.Sv.Application.{
  SvHandler, measure, SvAttributes, Slot, SvWorld, configured_sv, sample_interval, start_sv,
  fire_measure,
}
use grid_goose_sv.Sv.Application.Fill.{AllFillable, AllCounted}
use grid_goose_sv.Sv.Application.Calls.{HasPacket, schedule-sole}
use grid_goose_sv.Sv.Application.Run.{
  HasMeasured, SvRuns, SvRuns-HasMeasured, SvRuns-le, fire-HasMeasured,
}
use grid_goose_sv.Sv.Application.Start.Slots.{slot_layout, asdus_of, add_slots_lem}
use grid_goose_sv.Sv.Application.Start.Places.{
  asdus_pattern_bound, asdus_of-IsEncodable, apdu_head_bound, placed_all-AllFillable,
  placed_all-AllCounted,
}
use grid_goose_sv.Sv.Application.Start.Frame.{
  sv_max_message_size, draw-Moves, IsNew, create_sv-IsNew, finish_setup-returns,
}

-- The APDU of the ASDUs that the application adds.
sv_apdu_bound :
    (m : ℕ) (ids : ℕ → List ℕ)
    → m ≤ 8
    → ((i : ℕ) → length (ids i) ≤ 64)
    → length (sv_apdu (asdus_of m 0 ids)) ≤ 1097
unfolding sv_apdu
sv_apdu_bound m ids small h =
    let asdus = asdus_of m 0 ids in
    omega (
      arith,
      length-append (apdu_head asdus) (asdus_pattern asdus),
      apdu_head_bound asdus,
      asdus_pattern_bound m 0 ids h,
    )

-- The publisher with its ASDUs, encoded into the buffer.
record IsConfiguredSv (m : ℕ) (p : SvPublisher) : Type 0 where
  fillable : AllFillable (length p.buffer) (replicate m slot_layout) p.asdu_list
  packet : HasPacket p
  counted : AllCounted 0 0 p.asdu_list

setup_complete-returns :
    (m : ℕ) (ids : ℕ → List ℕ) (p : SvPublisher)
    → m ≤ 8
    → ((i : ℕ) → length (ids i) ≤ 64)
    → IsNew p
    → (ready : SvPublisher) × (setup_complete (record p { asdu_list = asdus_of m 0 ids })
        ≡ ok ready)
      × IsConfiguredSv m ready
unfolding sv_apdu
setup_complete-returns m ids p small h new =
    let asdus = asdus_of m 0 ids in
    let larger : SvPublisher = record p { asdu_list = asdus } in
    let n = p.payload_start + length (apdu_head asdus) in
    let total = sv_apdu_bound m ids small h in
    let both = length-append (apdu_head asdus) (asdus_pattern asdus) in
    let (c, drawn, moved, kept) =
      draw-Moves (sv_apdu asdus) (record { buffer = p.buffer; pos = p.payload_start })
        (omega (arith, total, new.allocated, new.start)) in
    let (b, finished, same) =
      finish_setup-returns larger (placed_all asdus n) c
        (omega (arith, kept, new.field, new.allocated)) in
    (
      record larger {
        buffer = b;
        payload_length = c.pos - p.payload_start;
        asdu_list = placed_all asdus n;
      },
      setup_complete-apdu larger (asdus_of-IsEncodable m 0 ids h)
            (omega (arith, asdus_pattern_bound m 0 ids h))
          ∙ rw drawn finished,
      record {
        fillable =
            placed_all-AllFillable m 0 n (length b) ids h
              (omega (arith, both, total, same, kept, new.allocated, new.start));
        packet = record {
          header = omega (arith, new.start, moved);
          fits = omega (arith, moved, total, same, kept, new.allocated, new.start);
        };
        counted = placed_all-AllCounted m 0 n ids;
      },
    )

configured_sv-returns :
    (a : SvAttributes) (ids : ℕ → List ℕ) (src_addr junk : List ℕ)
    → length src_addr ≡ 6
    → length junk ≡ sv_max_message_size
    → ((i : ℕ) → length (ids i) ≤ 64)
    → a.samples_per_message ≤ 8
    → (p : SvPublisher) × (configured_sv a ids src_addr junk
        ≡ ok (p, replicate a.samples_per_message slot_layout))
      × IsConfiguredSv a.samples_per_message p
unfolding configured_sv
configured_sv-returns a ids src_addr junk hs hj h small =
    let m = a.samples_per_message in
    let (p, created, new) = create_sv-IsNew src_addr junk hs hj in
    let added =
      rw new.empty at
        (add_slots_lem m 0 ids p (omega (arith, ap length new.empty)) (omega arith)) in
    let (ready, set_up, configured) = setup_complete-returns m ids p small h new in
    (ready, rw (created, added, set_up), configured)

-- The messages to send: 0 stands for no limit, which is a count of 2 ^ 64 - 1.
abbrev pub messages : SvAttributes → ℕ
messages a = if a.max_packets == 0 then 2 ^ 64 - 1 else a.max_packets

-- The attributes that the application can be started with.
pub record IsUsable (a : SvAttributes) : Type 0 where
  pub rate : 0 < a.frequency * a.samples_per_cycle % 2 ^ 64
  pub some_samples : 0 < a.samples_per_message
  pub few_samples : a.samples_per_message ≤ 8
  pub count : a.max_packets < 2 ^ 64

module _ (s : Scheduler SvHandler) (d : Doubles) (fl : Floats d) where
  open s use {Queue, schedule, cancel, pending}
  open d use {of_int, divide, to_int}

  sample_interval-returns :
      (a : SvAttributes)
      → 0 < a.frequency * a.samples_per_cycle % 2 ^ 64
      → (t : ℕ) × (sample_interval s d fl a ≡ ok t)
  unfolding sample_interval
  sample_interval-returns a h =
      let some_rate : (a.frequency * a.samples_per_cycle % 2 ^ 64 == 0) ≡ false = ground arith in
      (
        to_int (divide (of_int 1000000) (of_int (a.frequency * a.samples_per_cycle % 2 ^ 64)))
            * 1000,
        rw some_rate,
      )

  -- With attributes that `IsUsable` allows, an address of six octets, a buffer of the maximal message
  -- size and identifiers of at most 64 octets, on a queue without events of its own, the application
  -- starts, and its invariant holds with nothing measured yet: each ASDU can be filled inside the
  -- buffer, the packet is inside it, and the only event in the queue is its own.
  pub start_sv-HasMeasured :
      (a : SvAttributes) (ids : ℕ → List ℕ) (src_addr junk : List ℕ) (q : Queue)
      → IsUsable a
      → length src_addr ≡ 6
      → length junk ≡ sv_max_message_size
      → ((i : ℕ) → length (ids i) ≤ 64)
      → ((i : ℕ) → pending q i ≡ none)
      → (first : SvWorld s d fl) × (start_sv s d fl a ids src_addr junk q ≡ ok first)
        × HasMeasured s d fl a.samples_per_message (messages a) 0 first
  unfolding start_sv
  start_sv-HasMeasured a ids src_addr junk q usable hs hj h empty =
      let m = a.samples_per_message in
      let (interval, timed) = sample_interval-returns a usable.rate in
      let (p, set_up, configured) =
        configured_sv-returns a ids src_addr junk hs hj h usable.few_samples in
      let (event, only) = schedule-sole s d fl q 0 empty in
      (
        record {
          app = record {
            attributes = a;
            publisher = p;
            slots = replicate m slot_layout;
            count = messages a;
            sample_index = 0;
            event_id = (schedule q 0 measure).1;
            sent = 0;
            interval = interval;
          };
          queue = (schedule q 0 measure).0;
          frames = [];
        },
        rw (timed, set_up),
        record {
          ready = record {
            fillable = configured.fillable;
            slots = length-replicate m slot_layout;
            per_message = refl;
            packet = configured.packet;
          };
          index = usable.some_samples;
          count = omega arith;
          frames = refl;
          measured = omega arith;
          counted = configured.counted;
          event = λ more. event;
          only = only;
          ended = λ over. absurd (omega arith);
        },
      )
