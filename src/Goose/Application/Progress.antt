-- ===== src/Goose/Application/Progress.antt =====
-- One handler of the publishing application in model/goose-publisher-app.cc at a time: each sends one
-- message while there are messages left.
use grid_goose_sv.Prelude.{
  ℕ, ◌+◌, ◌-◌, ◌%◌, ◌^◌, ◌<◌, ◌≡◌, refl, ◌∙◌, inl, inr, arith, List, [], ◌∷◌, length, true, false,
  Option, some, Outcome, ok, ◌==◌, ltb, if◌then◌else◌, Bool-cases,
}
use grid_goose_sv.Simulator.{Scheduler, Doubles}
use grid_goose_sv.Mms.Value.{MmsValue}
use grid_goose_sv.Goose.Publisher.{GoosePublisher, u32, increase_st_num}
use grid_goose_sv.Goose.Publisher.Payload.{goose_pdu}
use grid_goose_sv.Goose.Publisher.Publish.{published}
use grid_goose_sv.Goose.Application.{
  Handler, send, send_event, Attributes, World, send_message, run_send, run_send_event, end_burst,
  interval, backoff, fire,
}
use grid_goose_sv.Goose.Application.Messages.{
  IsConfigured, packet_of, increase_st_num-IsConfigured, publish-packet_of,
}

-- The state number behind another, in 32 bits without 0.
abbrev pub following : ℕ → ℕ
following n = if u32 (n + 1) == 0 then 1 else u32 (n + 1)

-- Frames, newest first, that carry the data set with consecutive state numbers up to the one given,
-- the first behind 1, and with sequence number 0.
unfoldable pub Numbered : List (Option MmsValue) → ℕ → List (Option (List ℕ)) → Type 0
Numbered ds st [] = st ≡ 1
Numbered ds st (f ∷ fs) =
    (p : GoosePublisher) × (before : ℕ) × (f ≡ some (packet_of p ds))
    × IsConfigured p ds
    × (p.st_num ≡ st)
    × (p.sq_num ≡ 0)
    × (st ≡ following before)
    × Numbered ds before fs

module _ (s : Scheduler Handler) (d : Doubles) where
  open s use {Queue, schedule, cancel, pending, pending-schedule, pending-cancel}

  -- What holds between two handlers.
  pub record IsRunning (a : Attributes) (w : World s d) : Type 0 where
    pub configured : IsConfigured w.app.publisher w.app.data_set_values
    pub attributes : w.app.attributes ≡ a
    pub numbered : Numbered w.app.data_set_values w.app.publisher.st_num w.frames

  -- One message more.
  pub record OneMore (w w' : World s d) : Type 0 where
    pub count : w'.app.count ≡ w.app.count - 1
    pub sent : w'.app.sent ≡ (w.app.sent + 1) % 2 ^ 64
    pub frames : length w'.frames ≡ length w.frames + 1

  send_message-OneMore :
      (a : Attributes) (w : World s d) (now : ℕ)
      → IsRunning a w
      → (w' : World s d) × (send_message s d w now ≡ ok w') × IsRunning a w' × OneMore w w'
  unfolding send_message
  send_message-OneMore a w now r =
      let ds = w.app.data_set_values in
      let p = increase_st_num w.app.publisher now in
      let c = increase_st_num-IsConfigured w.app.publisher ds now r.configured in
      let (run, c') = publish-packet_of p ds c in
      (
        record w {
          app = record w.app {
            publisher = published p (goose_pdu p ds);
            sent = (w.app.sent + 1) % 2 ^ 64;
            count = w.app.count - 1;
          };
          frames = some (packet_of p ds) ∷ w.frames;
        },
        rw run,
        record {
          configured = c';
          attributes = r.attributes;
          numbered =
              unfold Numbered increase_st_num published in
              (p, w.app.publisher.st_num, refl, c, refl, refl, refl, r.numbered);
        },
        record { count = refl; sent = refl; frames = omega arith },
      )

  -- Some event is in the queue.
  abbrev pub HasEvent : Queue → Type 0
  HasEvent q = (i : ℕ) × (h : Handler) × (pending q i ≡ some h)

  pub schedule-HasEvent : (q : Queue) (delay : ℕ) (h : Handler) → HasEvent (schedule q delay h).0
  schedule-HasEvent q delay h =
      let id = (schedule q delay h).1 in
      let here : (id == id) ≡ true = ground arith in
      (id, h, pending-schedule q delay h id ∙ rw here)

  -- The call returns, has sent one message, and an event is in the queue.
  abbrev pub Advances : Attributes → World s d → Outcome (World s d) → Type 0
  Advances a w o =
      (w' : World s d) × (o ≡ ok w') × IsRunning a w' × OneMore w w' × HasEvent w'.queue

  run_send-Advances :
      (a : Attributes) (w : World s d) (now : ℕ)
      → IsRunning a w
      → 0 < w.app.count
      → Advances a w (run_send s d w now)
  unfolding run_send
  run_send-Advances a w now r left =
      let more : (w.app.count == 0) ≡ false = ground arith in
      let (w1, run, r1, one) = send_message-OneMore a w now r in
      let q = schedule w1.queue w1.app.attributes.t0 send in
      (
        record w1 { app = record w1.app { event_id = q.1 }; queue = q.0 },
        rw (more, run),
        record { configured = r1.configured; attributes = r1.attributes; numbered = r1.numbered },
        record { count = one.count; sent = one.sent; frames = one.frames },
        schedule-HasEvent w1.queue w1.app.attributes.t0 send,
      )

  interval-ok : (a : Attributes) (n : ℕ) → 0 < a.t1 → (delay : ℕ) × (interval s d a n ≡ ok delay)
  unfolding interval
  interval-ok a n h =
      let some_time : (a.t1 == 0) ≡ false = ground arith in (backoff s d a n, rw some_time)

  run_send_event-Advances :
      (a : Attributes) (w : World s d) (now : ℕ)
      → 0 < a.t1
      → IsRunning a w
      → 0 < w.app.count
      → Advances a w (run_send_event s d w now)
  unfolding run_send_event end_burst
  run_send_event-Advances a w now time r left =
      let more : (w.app.count == 0) ≡ false = ground arith in
      let start_again : IsRunning a (record w {
        app = record w.app {
          event_count = 1;
          goose_event_id =
              (schedule (cancel w.queue w.app.event_id) w.app.attributes.event_interval
                send_event).1;
        };
        queue =
            (schedule (cancel w.queue w.app.event_id) w.app.attributes.event_interval send_event).0;
      }) =
        record { configured = r.configured; attributes = r.attributes; numbered = r.numbered } in
      let cancelled : IsRunning a (record w { queue = cancel w.queue w.app.event_id }) = record {
        configured = r.configured;
        attributes = r.attributes;
        numbered = r.numbered;
      } in
      elim (Bool-cases (ltb w.app.attributes.event_messages w.app.event_count)) [
        | inl last ↦
            let (w1, run, r1, one, event) = run_send-Advances a _ now start_again left in
            (
              w1,
              rw (more, last) run,
              r1,
              record { count = one.count; sent = one.sent; frames = one.frames },
              event,
            )
        | inr next ↦
            let (w1, run, r1, one) = send_message-OneMore a _ now cancelled in
            let (delay, wait) =
              interval-ok w1.app.attributes w1.app.event_count (rw r1.attributes time) in
            let q = schedule w1.queue delay send_event in
            (
              record w1 {
                app = record w1.app {
                  event_id = q.1;
                  event_count = (w1.app.event_count + 1) % 256;
                };
                queue = q.0;
              },
              rw (more, next, run, wait),
              record {
                configured = r1.configured;
                attributes = r1.attributes;
                numbered = r1.numbered;
              },
              record { count = one.count; sent = one.sent; frames = one.frames },
              schedule-HasEvent w1.queue delay send_event,
            )
      ]

  -- Whichever event is run while messages are left.
  pub fire-Advances :
      (a : Attributes) (w : World s d) (i : ℕ) (h : Handler) (now : ℕ)
      → 0 < a.t1
      → IsRunning a w
      → 0 < w.app.count
      → Advances a w (fire s d w i h now)
  unfolding fire
  fire-Advances a w i send now time r left =
      let (w1, run, r1, one, event) =
        run_send-Advances a (record w { queue = cancel w.queue i }) now
          (record { configured = r.configured; attributes = r.attributes; numbered = r.numbered })
          left in
      (w1, run, r1, record { count = one.count; sent = one.sent; frames = one.frames }, event)
  fire-Advances a w i send_event now time r left =
      let (w1, run, r1, one, event) =
        run_send_event-Advances a (record w { queue = cancel w.queue i }) now time
          (record { configured = r.configured; attributes = r.attributes; numbered = r.numbered })
          left in
      (w1, run, r1, record { count = one.count; sent = one.sent; frames = one.frames }, event)

  -- Without messages left an event is only taken out of the queue.
  pub fire_exhausted :
      (w : World s d) (i : ℕ) (h : Handler) (now : ℕ)
      → w.app.count ≡ 0
      → fire s d w i h now ≡ ok (record w { queue = cancel w.queue i })
  unfolding fire run_send run_send_event
  fire_exhausted w i send now e = rw e
  fire_exhausted w i send_event now e = rw e
