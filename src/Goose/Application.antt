-- ===== src/Goose/Application.antt =====
-- model/goose-publisher-app.cc: the application that publishes one data set, with heartbeats at
-- distance T0 and bursts of messages when an event occurs. A handler that ns-3 calls is a function
-- from the world before to the world after.
pub mod Pending
pub mod Messages
pub mod Progress
pub mod Run
pub mod Ends
use grid_goose_sv.Prelude.{
  ℕ, ◌+◌, ◌-◌, ◌/◌, ◌%◌, ◌^◌, List, [], ◌∷◌, ltb, ◌==◌, if◌then◌else◌, Bool, true, false, not,
  Option, none, some, Outcome, ok, fault, ◌>>=◌,
}
use Prim.Native.Char.{code}
use Prim.Native.String.{String}
use grid_goose_sv.Simulator.{Scheduler, Doubles}
use grid_goose_sv.Mms.Value.{MmsValue, new_binary_time}
use grid_goose_sv.Mms.Numbers.{new_integer_from_int32}
use grid_goose_sv.Goose.Publisher.{
  GoosePublisher, CommParameters, create_ex, set_go_cb_ref, set_conf_rev, set_data_set_ref,
  set_time_allowed_to_live, increase_st_num, publish,
}

-- The member functions that are scheduled.
pub data Handler : Type 0 where
  send send_event : Handler

-- The attributes of the application, times in nanoseconds.
pub record Attributes : Type 0 where
  pub max_packets : ℕ
  pub app_id : ℕ
  pub t0 : ℕ
  pub t1 : ℕ
  pub event_interval : ℕ
  pub event_messages : ℕ

-- ns3::GOOSEPublisher. `count` and `sent` have 64 bits, `event_count` has 8.
pub record GooseApplication : Type 0 where
  pub attributes : Attributes
  pub data_set_values : List (Option MmsValue)
  pub publisher : GoosePublisher
  pub count : ℕ
  pub event_count : ℕ
  pub send_events : Bool
  pub event_id : ℕ
  pub goose_event_id : ℕ
  pub sent : ℕ

-- The characters of a literal.
abbrev pub codes : String → List ℕ
codes String.[] = []
codes (String.◌∷◌ c s) = code c ∷ codes s

abbrev pub go_cb_ref_text : List ℕ
go_cb_ref_text = codes "simpleIOGenericIO/LLN0$GO$gcbAnalogValues"

abbrev pub data_set_ref_text : List ℕ
data_set_ref_text = codes "simpleIOGenericIO/LLN0$AnalogValues"

-- The values that StartApplication adds to the list.
unfoldable pub analog_values : Outcome (List (Option MmsValue))
analog_values = do
  first ← new_integer_from_int32 1234
  third ← new_integer_from_int32 5678
  ok (some first ∷ some (new_binary_time false) ∷ some third ∷ [])

unfoldable pub comm_parameters : Attributes → CommParameters
comm_parameters a = record {
  vlan_priority = 4;
  vlan_id = 0;
  app_id = a.app_id;
  dst_address = 0x01 ∷ 0x0c ∷ 0xcd ∷ 0x01 ∷ 0x00 ∷ 0x01 ∷ [];
}

-- The publisher that StartApplication sets up.
unfoldable pub configured_publisher : Attributes → List ℕ → List ℕ → ℕ → Outcome GoosePublisher
configured_publisher a src_addr junk now = do
  created ← create_ex (some (comm_parameters a)) src_addr junk now true
  ok (
      set_time_allowed_to_live
        (set_data_set_ref (set_conf_rev (set_go_cb_ref created go_cb_ref_text) 1) data_set_ref_text)
        500)

module _ (s : Scheduler Handler) (d : Doubles) where
  open s use {Queue, schedule, cancel}
  open d use {of_int, divide, power, times, to_int}

  -- The application, the events still to run, and what GoosePublisher_publish sent each time, newest
  -- first.
  pub record World : Type 0 where
    pub app : GooseApplication
    pub queue : Queue
    pub frames : List (Option (List ℕ))

  -- The start of the first burst, if there are bursts; the id of no event is 0.
  unfoldable pub schedule_events : Attributes → Queue → Queue × ℕ
  schedule_events a queue =
      if a.event_interval == 0 then (queue, 0) else schedule queue a.event_interval send_event

  -- GOOSEPublisher::StartApplication; `now` is the time in milliseconds.
  unfoldable pub start : Attributes → List ℕ → List ℕ → ℕ → Queue → Outcome World
  start a src_addr junk now queue = do
    data_set_values ← analog_values
    publisher ← configured_publisher a src_addr junk now
    let (events, goose_event_id) = schedule_events a queue
    let (all_events, event_id) = schedule events 0 send
    ok (record {
      app = record {
        attributes = a;
        data_set_values = data_set_values;
        publisher = publisher;
        count = if a.max_packets == 0 then 2 ^ 64 - 1 else a.max_packets;
        event_count = 1;
        send_events = not (a.event_interval == 0);
        event_id = event_id;
        goose_event_id = goose_event_id;
        sent = 0;
      };
      queue = all_events;
      frames = [];
    })

  -- The part that Send and SendEvent share: a message with a new state number.
  unfoldable pub send_message : World → ℕ → Outcome World
  send_message w now = do
    (publisher, frame) ← publish (increase_st_num w.app.publisher now) w.app.data_set_values
    ok (record w {
      app = record w.app {
        publisher = publisher;
        sent = (w.app.sent + 1) % 2 ^ 64;
        count = w.app.count - 1;
      };
      frames = frame ∷ w.frames;
    })

  -- GOOSEPublisher::Send
  unfoldable pub run_send : World → ℕ → Outcome World
  run_send w now = if w.app.count == 0 then ok w else (do
    sent ← send_message w now
    let (queue, event_id) = schedule sent.queue sent.app.attributes.t0 send
    ok (record sent { app = record sent.app { event_id = event_id }; queue = queue }))

  -- GOOSEPublisher::T, behind its integer division.
  unfoldable pub backoff : Attributes → ℕ → ℕ
  backoff a n =
      let rate = power (of_int (a.t0 / a.t1)) (divide (of_int 1) (of_int a.event_messages)) in
      if n == 0
      then a.t0
      else if n == 1
      then a.t1
      else to_int (times (of_int a.t1) (power rate (of_int (n - 1))))

  -- GOOSEPublisher::T: a division by zero is undefined.
  unfoldable pub interval : Attributes → ℕ → Outcome ℕ
  interval a n = if a.t1 == 0 then fault else ok (backoff a n)

  -- The part of SendEvent at the end of a burst.
  unfoldable pub end_burst : World → ℕ → Outcome World
  end_burst w now =
      let (queue, goose_event_id) = schedule w.queue w.app.attributes.event_interval send_event in
      run_send
        (record w {
          app = record w.app { event_count = 1; goose_event_id = goose_event_id };
          queue = queue;
        })
        now

  -- GOOSEPublisher::SendEvent
  unfoldable pub run_send_event : World → ℕ → Outcome World
  run_send_event w now =
      if w.app.count == 0
      then ok w
      else (let cancelled : World = record w { queue = cancel w.queue w.app.event_id } in
          if ltb w.app.attributes.event_messages w.app.event_count
          then end_burst cancelled now
          else (do
            sent ← send_message cancelled now
            delay ← interval sent.app.attributes sent.app.event_count
            let (queue, event_id) = schedule sent.queue delay send_event
            ok (record sent {
              app = record sent.app {
                event_id = event_id;
                event_count = (sent.app.event_count + 1) % 256;
              };
              queue = queue;
            })))

  -- The simulator runs the event `i`: it is no longer in the queue, and its handler is called.
  unfoldable pub fire : World → ℕ → Handler → ℕ → Outcome World
  fire w i send now = run_send (record w { queue = cancel w.queue i }) now
  fire w i send_event now = run_send_event (record w { queue = cancel w.queue i }) now

  -- The events that GOOSEPublisher::StopApplication leaves in the queue when it destroys the publisher.
  unfoldable pub stop : World → Queue
  stop w =
      let queue = cancel w.queue w.app.event_id in
      if w.app.send_events then cancel queue w.app.goose_event_id else queue
