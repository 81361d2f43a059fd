-- ===== src/Sv/Application.antt =====
-- model/sv-publisher-app.cc: the application that measures at fixed intervals and publishes a message
-- when each of its ASDUs holds a new measurement.
pub mod Fill
pub mod Calls
pub mod Run
pub mod Start
pub mod Samples
use grid_goose_sv.Prelude.{
  ℕ, zero, suc, ◌+◌, ◌-◌, ◌*◌, ◌%◌, ◌^◌, List, [], ◌∷◌, ◌++◌, get_elem?, ltb, ◌==◌, if◌then◌else◌,
  true, Option, none, some, Outcome, ok, fault, ◌>>=◌, or_fault,
}
use grid_goose_sv.Simulator.{Scheduler, Doubles, Floats}
use grid_goose_sv.Iec61850.Timestamp.{Timestamp, val, clear_flags, set_time_in_nanoseconds}
use grid_goose_sv.Goose.Publisher.{CommParameters}
use grid_goose_sv.Sv.Publisher.{
  SvAsdu, SvPublisher, create_sv, add_asdu, setup_complete, publish_sv,
}
use grid_goose_sv.Sv.Publisher.Values.{
  add_float, add_timestamp, set_float, set_timestamp, increase_smp_cnt,
}

-- The member function that is scheduled.
pub data SvHandler : Type 0 where
  measure : SvHandler

-- The attributes of the application but for the device.
pub record SvAttributes : Type 0 where
  pub max_packets : ℕ
  pub frequency : ℕ
  pub samples_per_cycle : ℕ
  pub samples_per_message : ℕ

-- A row of `offsets`, with the element of `tss`.
pub record Slot : Type 0 where
  pub offsets : List ℕ
  pub time : ℕ

-- ns3::SVPublisher. The ASDUs are those of the publisher, `asdus[j]` the one at place `j` of its list.
-- A row of `vals` is always written before it is read, and is not kept. `interval` is in nanoseconds.
pub record SvApplication : Type 0 where
  pub attributes : SvAttributes
  pub publisher : SvPublisher
  pub slots : List Slot
  pub count : ℕ
  pub sample_index : ℕ
  pub event_id : ℕ
  pub sent : ℕ
  pub interval : ℕ

-- A call on the ASDU `asdus[j]`. A pointer that has not been set must not be used.
unfoldable pub at_asdu {ℓ} :
    {A : Type ℓ} → ℕ → (SvAsdu → Outcome (SvAsdu × A)) → List SvAsdu → Outcome (List SvAsdu × A)
at_asdu j f [] = fault
at_asdu zero f (a ∷ asdus) = do (b, r) ← f a; ok (b ∷ asdus, r)
at_asdu (suc j) f (a ∷ asdus) = do (rest, r) ← at_asdu j f asdus; ok (a ∷ rest, r)

-- The loop that adds floating-point numbers to an ASDU.
unfoldable pub add_floats : ℕ → SvAsdu → SvAsdu × List ℕ
add_floats zero a = (a, [])
add_floats (suc n) a =
    let (one, offset) = add_float a in
    let (all_added, offsets) = add_floats n one in (all_added, offset ∷ offsets)

unfoldable pub add_fields : SvAsdu → Outcome (SvAsdu × Slot)
add_fields a =
    let (b, offsets) = add_floats 8 a in
    let (c, time) = add_timestamp b in ok (c, record { offsets = offsets; time = time })

-- The body of the loop over the ASDUs in StartApplication.
unfoldable pub add_slot : ℕ → List ℕ → SvPublisher → Outcome (SvPublisher × Slot)
add_slot j sv_id publisher = do
  let larger = add_asdu publisher sv_id none 1
  (asdus, slot) ← at_asdu j add_fields larger.asdu_list
  ok (record larger { asdu_list = asdus }, slot)

-- The loop, with the number of rounds that are left; `asdus`, `offsets` and `tss` have eight elements.
-- The strings whose addresses the ASDUs keep are gone when they are encoded, and `ids` is what then
-- stands there.
unfoldable pub add_slots : ℕ → ℕ → (ℕ → List ℕ) → SvPublisher → Outcome (SvPublisher × List Slot)
add_slots zero j ids publisher = ok (publisher, [])
add_slots (suc left) j ids publisher =
    if ltb j 8
    then (do
      (larger, slot) ← add_slot j (ids j) publisher
      (last, slots) ← add_slots left (suc j) ids larger
      ok (last, slot ∷ slots))
    else fault

-- The publisher that StartApplication sets up.
unfoldable pub configured_sv :
    SvAttributes → (ℕ → List ℕ) → List ℕ → List ℕ → Outcome (SvPublisher × List Slot)
configured_sv a ids src_addr junk = do
  created ← create_sv none src_addr junk true
  (publisher, slots) ← add_slots a.samples_per_message 0 ids created
  ready ← setup_complete publisher
  ok (ready, slots)

-- One call of SVPublisher_ASDU_setFLOAT for each value.
unfoldable pub set_floats : SvAsdu → List ℕ → List (List ℕ) → List ℕ → Outcome (List ℕ)
set_floats a (offset ∷ offsets) (value ∷ values) buffer = do
  b ← set_float a offset value buffer
  set_floats a offsets values b
set_floats a offsets values buffer = ok buffer

-- What Measure does to `asdus[j]` and to the buffer of the publisher.
unfoldable pub fill_asdu :
    Slot → List (List ℕ) → Timestamp → List ℕ → SvAsdu → Outcome (SvAsdu × List ℕ)
fill_asdu slot values ts buffer a = do
  b ← set_floats a slot.offsets values buffer
  (counted, c) ← increase_smp_cnt a b
  e ← set_timestamp counted slot.time (val ts) c
  ok (counted, e)

module _ (s : Scheduler SvHandler) (d : Doubles) (fl : Floats d) where
  open s use {Queue, schedule, cancel, pending}
  open d use {of_int, divide, to_int}
  open fl use {Float, of_number, of_double, two_pi, plus, product, quotient, sine_times, octets}

  -- The application, the events still to run, and the packets sent, newest first.
  pub record SvWorld : Type 0 where
    pub app : SvApplication
    pub queue : Queue
    pub frames : List (List ℕ)

  -- The first statement of StartApplication: microseconds as a whole number. The conversion of an
  -- infinite quotient is undefined.
  unfoldable pub sample_interval : SvAttributes → Outcome ℕ
  sample_interval a =
      let rate = a.frequency * a.samples_per_cycle % 2 ^ 64 in
      if rate == 0 then fault else ok (to_int (divide (of_int 1000000) (of_int rate)) * 1000)

  -- SVPublisher::StartApplication
  unfoldable pub start_sv : SvAttributes → (ℕ → List ℕ) → List ℕ → List ℕ → Queue → Outcome SvWorld
  start_sv a ids src_addr junk queue = do
    interval ← sample_interval a
    (publisher, slots) ← configured_sv a ids src_addr junk
    let (events, event_id) = schedule queue 0 measure
    ok (record {
      app = record {
        attributes = a;
        publisher = publisher;
        slots = slots;
        count = if a.max_packets == 0 then 2 ^ 64 - 1 else a.max_packets;
        sample_index = 0;
        event_id = event_id;
        sent = 0;
        interval = interval;
      };
      queue = events;
      frames = [];
    })

  -- The current in the phase `i`, as SVPublisher::UpdateValues computes it.
  unfoldable pub current : SvAttributes → ℕ → ℕ → Float
  current a now i =
      let period = of_double (divide (of_int 1000000000) (of_int a.frequency)) in
      let phase_angle = quotient (product (of_number i) two_pi) (of_number 3) in
      let angle = plus phase_angle (quotient (product two_pi (of_number now)) period) in
      sine_times angle (of_number 18000)

  -- SVPublisher::UpdateValues, the row of `vals` that it writes.
  unfoldable pub update_values : SvAttributes → ℕ → List Float
  update_values a now =
      let none_read = of_number 0 in
      current a now 0
      ∷ current a now 1
      ∷ current a now 2
      ∷ none_read
      ∷ none_read
      ∷ none_read
      ∷ none_read
      ∷ none_read
      ∷ []

  abbrev pub value_octets : List Float → List (List ℕ)
  value_octets [] = []
  value_octets (v ∷ values) = octets v ∷ value_octets values

  -- SVPublisher::Send
  unfoldable pub send_sv : SvWorld → Outcome SvWorld
  send_sv w = do
    frame ← publish_sv w.app.publisher
    ok (record w {
      app = record w.app { count = w.app.count - 1; sent = (w.app.sent + 1) % 2 ^ 64 };
      frames = frame ∷ w.frames;
    })

  -- The part of Measure that fills the ASDU of the sample; `uninit` is what stands in the local `ts`.
  unfoldable pub take_sample : SvWorld → ℕ → Timestamp → Outcome SvWorld
  take_sample w now uninit = do
    let j = w.app.sample_index
    slot ← or_fault (get_elem? w.app.slots j)
    let ts = set_time_in_nanoseconds (clear_flags uninit) now
    let values = value_octets (update_values w.app.attributes now)
    let publisher = w.app.publisher
    (asdus, buffer) ← at_asdu j (fill_asdu slot values ts publisher.buffer) publisher.asdu_list
    ok (record w {
      app = record w.app {
        publisher = record publisher { buffer = buffer; asdu_list = asdus };
        sample_index = (j + 1) % 256;
      };
    })

  -- The test behind it: the message goes out with the last sample.
  unfoldable pub send_full : SvWorld → Outcome SvWorld
  send_full w =
      if w.app.sample_index == w.app.attributes.samples_per_message
      then send_sv (record w { app = record w.app { sample_index = 0 } })
      else ok w

  -- SVPublisher::Measure; `now` is the time in nanoseconds.
  unfoldable pub run_measure : SvWorld → ℕ → Timestamp → Outcome SvWorld
  run_measure w now uninit = if w.app.count == 0 then ok w else (do
    filled ← take_sample w now uninit
    sampled ← send_full filled
    let (queue, event_id) = schedule sampled.queue sampled.app.interval measure
    ok (record sampled { app = record sampled.app { event_id = event_id }; queue = queue }))

  -- The simulator runs the event `i` of the application.
  unfoldable pub fire_measure : SvWorld → ℕ → ℕ → Timestamp → Outcome SvWorld
  fire_measure w i now uninit = run_measure (record w { queue = cancel w.queue i }) now uninit

  -- What SVPublisher::StopApplication leaves in the queue.
  unfoldable pub stop_sv : SvWorld → Queue
  stop_sv w = cancel w.queue w.app.event_id
