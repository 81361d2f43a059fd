-- ===== src/Goose/Application/Pending.antt =====
-- The events of the publishing application in model/goose-publisher-app.cc that are in the queue.
use grid_goose_sv.Prelude.{
  ℕ, suc, not, List, ◌≡◌, refl, sym, ◌∙◌, ◌⊎◌, inl, inr, arith, Bool, true, false, Option, none,
  some, ok, >>=-outcome, ok-subst, ◌==◌, ltb, if◌then◌else◌, Bool-cases, Option-cases,
}
use grid_goose_sv.Simulator.{Scheduler, Doubles}
use grid_goose_sv.Goose.Publisher.{increase_st_num, publish}
use grid_goose_sv.Goose.Application.{
  Handler, send, send_event, World, send_message, run_send, run_send_event, end_burst, interval,
  fire, stop, start, schedule_events, analog_values, configured_publisher, Attributes,
}

module _ (s : Scheduler Handler) (d : Doubles) where
  open s use {Queue, schedule, cancel, pending, pending-schedule, pending-cancel}

  -- The event of an idle application that starts a burst.
  abbrev Starts : World s d → ℕ → Handler → Type 0
  Starts w i h = (w.app.send_events ≡ true) × (i ≡ w.app.goose_event_id) × (h ≡ send_event)

  -- Between bursts a heartbeat and the start of the next burst are in the queue, in a burst its next
  -- message, and no other event of this application.
  pub data Phase (w : World s d) : Type 0 where
    idle :
        ((i : ℕ) (h : Handler)
          → pending w.queue i ≡ some h
          → ((i ≡ w.app.event_id) × (h ≡ send)) ⊎ Starts w i h)
        → Phase w
    burst :
        w.app.send_events ≡ true
        → ((i : ℕ) (h : Handler)
            → pending w.queue i ≡ some h
            → (i ≡ w.app.event_id) × (h ≡ send_event))
        → Phase w

  abbrev pub IsEmpty : Queue → Type 0
  IsEmpty q = (i : ℕ) → pending q i ≡ none

  cancel-pending :
      (q : Queue) (i j : ℕ) (h : Handler)
      → pending (cancel q i) j ≡ some h
      → (pending q j ≡ some h) × ((j == i) ≡ false)
  cancel-pending q i j h e = by_test (j == i) (pending q j) (sym (pending-cancel q i j) ∙ e)
    where
      by_test :
          (b : Bool) (o : Option Handler)
          → (if b then none else o) ≡ some h
          → (o ≡ some h) × (b ≡ false)
      by_test true o e = cc
      by_test false o e = (e, refl)

  schedule-pending :
      (q : Queue) (delay : ℕ) (g : Handler) (i : ℕ) (h : Handler)
      → pending (schedule q delay g).0 i ≡ some h
      → ((i ≡ (schedule q delay g).1) × (h ≡ g)) ⊎ (pending q i ≡ some h)
  schedule-pending q delay g i h e = ground (arith, pending-schedule q delay g i)

  -- What a message leaves alone.
  pub record Kept (w w' : World s d) : Type 0 where
    pub queue : w'.queue ≡ w.queue
    pub event_id : w'.app.event_id ≡ w.app.event_id
    pub goose_event_id : w'.app.goose_event_id ≡ w.app.goose_event_id
    pub send_events : w'.app.send_events ≡ w.app.send_events
    pub event_count : w'.app.event_count ≡ w.app.event_count
    pub attributes : w'.app.attributes ≡ w.app.attributes

  pub send_message-Kept : (w w' : World s d) (now : ℕ) → send_message s d w now ≡ ok w' → Kept w w'
  unfolding send_message
  send_message-Kept w w' now e =
      let (r, run, e') =
        >>=-outcome (publish (increase_st_num w.app.publisher now) w.app.data_set_values) _ e in
      ok-subst (Kept w) _ w' e' (record {
        queue = refl;
        event_id = refl;
        goose_event_id = refl;
        send_events = refl;
        event_count = refl;
        attributes = refl;
      })

  -- Send with nothing else in the queue than the start of the next burst.
  run_send-Phase :
      (w w' : World s d) (now : ℕ)
      → ((i : ℕ) (h : Handler) → pending w.queue i ≡ some h → Starts w i h)
      → run_send s d w now ≡ ok w'
      → Phase w'
  unfolding run_send
  run_send-Phase w w' now only e = elim (Bool-cases (w.app.count == 0)) [
    | inl done ↦ ok-subst Phase w w' (rw done at e) (idle (λ i h p. inr (only i h p)))
    | inr more ↦
        let (sent, run, e') = >>=-outcome (send_message s d w now) _ (rw more at e) in
        let k = send_message-Kept w sent now run in
        ok-subst Phase _ w' e' (
          idle (λ i h p. elim (schedule-pending sent.queue sent.app.attributes.t0 send i h p) [
            | inl new ↦ inl new
            | inr old ↦
                let (on, which, handler) = only i h (rw k.queue at old) in
                inr (k.send_events ∙ on, which ∙ sym k.goose_event_id, handler)
          ]))
  ]

  -- What SendEvent leaves in the queue when it is run.
  IsEmpty-before_event :
      (w : World s d) (i : ℕ)
      → Phase w
      → pending w.queue i ≡ some send_event
      → (w.app.send_events ≡ true) × IsEmpty (cancel (cancel w.queue i) w.app.event_id)
  IsEmpty-before_event w i (idle only) fired = (
    by_event (only i send_event fired),
    λ j. elim (Option-cases (pending (cancel (cancel w.queue i) w.app.event_id) j)) [
      | inl gone ↦ gone
      | inr left ↦
          let (h, p) = left in
          let (p1, other1) = cancel-pending (cancel w.queue i) w.app.event_id j h p in
          let (p2, other2) = cancel-pending w.queue i j h p1 in
          absurd (ground (arith, only j h p2, only i send_event fired))
    ],
  )
    where
      by_event :
          ((i ≡ w.app.event_id) × (send_event ≡ send)) ⊎ Starts w i send_event
          → w.app.send_events ≡ true
      by_event (inl e) = cc
      by_event (inr e) = e.0
  IsEmpty-before_event w i (burst on only) fired = (
    on,
    λ j. elim (Option-cases (pending (cancel (cancel w.queue i) w.app.event_id) j)) [
      | inl gone ↦ gone
      | inr left ↦
          let (h, p) = left in
          let (p1, other1) = cancel-pending (cancel w.queue i) w.app.event_id j h p in
          let (p2, other2) = cancel-pending w.queue i j h p1 in absurd (ground (arith, only j h p2))
    ],
  )

  cancel-Phase : (w : World s d) (i : ℕ) → Phase w → Phase (record w { queue = cancel w.queue i })
  cancel-Phase w i (idle only) = idle (λ j h p. only j h (cancel-pending w.queue i j h p).0)
  cancel-Phase w i (burst on only) = burst on (λ j h p. only j h (cancel-pending w.queue i j h p).0)

  -- The start of the next burst is put into a queue that is empty, and then a message is sent.
  end_burst-Phase :
      (w w' : World s d) (now : ℕ)
      → w.app.send_events ≡ true
      → IsEmpty w.queue
      → end_burst s d w now ≡ ok w'
      → Phase w'
  unfolding end_burst
  end_burst-Phase w w' now on nothing e =
      run_send-Phase _ w' now
        (λ i h p. elim (schedule-pending w.queue w.app.attributes.event_interval send_event i h p) [
          | inl new ↦ (on, new.0, new.1)
          | inr old ↦ absurd (cc (nothing i))
        ])
        e

  run_send_event-Phase :
      (w w' : World s d) (now : ℕ)
      → Phase w
      → w.app.send_events ≡ true
      → IsEmpty (cancel w.queue w.app.event_id)
      → run_send_event s d w now ≡ ok w'
      → Phase w'
  unfolding run_send_event
  run_send_event-Phase w w' now phase on nothing e = elim (Bool-cases (w.app.count == 0)) [
    | inl done ↦ ok-subst Phase w w' (rw done at e) phase
    | inr more ↦ elim (Bool-cases (ltb w.app.attributes.event_messages w.app.event_count)) [
      | inl last ↦
          end_burst-Phase (record w { queue = cancel w.queue w.app.event_id }) w' now on nothing
            (rw (more, last) at e)
      | inr next ↦
          let cancelled : World s d = record w { queue = cancel w.queue w.app.event_id } in
          let (sent, run, e1) =
            >>=-outcome (send_message s d cancelled now) _ (rw (more, next) at e) in
          let (delay, wait, e2) =
            >>=-outcome (interval s d sent.app.attributes sent.app.event_count) _ e1 in
          let k = send_message-Kept cancelled sent now run in
          ok-subst Phase _ w' e2 (
            burst (k.send_events ∙ on) (λ i h p.
              elim (schedule-pending sent.queue delay send_event i h p) [
                | inl new ↦ new
                | inr old ↦ absurd (cc (nothing i, k.queue))
              ]))
    ]
  ]

  -- After an event that was in the queue has been run, the queue is again as `Phase` says.
  pub fire-Phase :
      (w w' : World s d) (i : ℕ) (h : Handler) (now : ℕ)
      → Phase w
      → pending w.queue i ≡ some h
      → fire s d w i h now ≡ ok w'
      → Phase w'
  unfolding fire
  fire-Phase w w' i send now (burst on only) fired e = absurd (cc (only i send fired).1)
  fire-Phase w w' i send now (idle only) fired e =
      run_send-Phase (record w { queue = cancel w.queue i }) w' now
        (λ j h p.
          let (p', other) = cancel-pending w.queue i j h p in
          by_id j h other (only j h p') (only i send fired))
        e
    where
      by_id :
          (j : ℕ) (h : Handler)
          → (j == i) ≡ false
          → ((j ≡ w.app.event_id) × (h ≡ send)) ⊎ Starts w j h
          → ((i ≡ w.app.event_id) × (send ≡ send)) ⊎ Starts w i send
          → Starts w j h
      by_id j h other (inr starts) which = starts
      by_id j h other (inl same) (inl this) = absurd (ground arith)
      by_id j h other (inl same) (inr this) = absurd (cc this.2)
  fire-Phase w w' i send_event now phase fired e =
      let (on, nothing) = IsEmpty-before_event w i phase fired in
      run_send_event-Phase (record w { queue = cancel w.queue i }) w' now (cancel-Phase w i phase)
        on nothing e

  -- A run of the application: `k` events that were in the queue, one after the other, in any order and
  -- at any times.
  pub data Runs (first : World s d) : ℕ → World s d → Type 0 where
    begin : Runs first 0 first
    next :
        {k : ℕ} {w w' : World s d} (i : ℕ) (h : Handler) (now : ℕ)
        → Runs first k w
        → pending w.queue i ≡ some h
        → fire s d w i h now ≡ ok w'
        → Runs first (suc k) w'

  pub Runs-Phase : {first w : World s d} {k : ℕ} → Phase first → Runs first k w → Phase w
  Runs-Phase p begin = p
  Runs-Phase p (next {w} {w'} i h now r fired e) = fire-Phase w w' i h now (Runs-Phase p r) fired e

  schedule_events-pending :
      (a : Attributes) (q : Queue) (i : ℕ) (h : Handler)
      → IsEmpty q
      → pending (schedule_events s d a q).0 i ≡ some h
      → (not (a.event_interval == 0) ≡ true) × (i ≡ (schedule_events s d a q).1) × (h ≡ send_event)
  unfolding schedule_events
  schedule_events-pending a q i h nothing p = elim (Bool-cases (a.event_interval == 0)) [
    | inl off ↦ absurd (cc (nothing i, rw off at p))
    | inr on ↦ rw on (elim (schedule-pending q a.event_interval send_event i h (rw on at p)) [
      | inl new ↦ (refl, new.0, new.1)
      | inr old ↦ absurd (cc (nothing i))
    ])
  ]

  pub start-Phase :
      (a : Attributes) (src_addr junk : List ℕ) (now : ℕ) (q : Queue) (w : World s d)
      → IsEmpty q
      → start s d a src_addr junk now q ≡ ok w
      → Phase w
  unfolding start
  start-Phase a src_addr junk now q w nothing e =
      let (values, made, e1) = >>=-outcome analog_values _ e in
      let (publisher, created, e2) = >>=-outcome (configured_publisher a src_addr junk now) _ e1 in
      ok-subst Phase _ w e2 (
        idle (λ i h p. elim (schedule-pending (schedule_events s d a q).0 0 send i h p) [
          | inl new ↦ inl new
          | inr old ↦ inr (schedule_events-pending a q i h nothing old)
        ]))

  stop_left :
      (w : World s d) (i : ℕ) (h : Handler)
      → pending (stop s d w) i ≡ some h
      → (pending w.queue i ≡ some h)
        × ((i == w.app.event_id) ≡ false)
        × (w.app.send_events ≡ true → (i == w.app.goose_event_id) ≡ false)
  unfolding stop
  stop_left w i h p = elim (Bool-cases w.app.send_events) [
    | inl on ↦
        let first = cancel w.queue w.app.event_id in
        let (p1, other) = cancel-pending first w.app.goose_event_id i h (rw on at p) in
        let (p2, another) = cancel-pending w.queue w.app.event_id i h p1 in
        (p2, another, λ e. other)
    | inr off ↦
        let (p1, other) = cancel-pending w.queue w.app.event_id i h (rw off at p) in
        (p1, other, λ e. cc)
  ]

  stop-pending : (w : World s d) (i : ℕ) → Phase w → pending (stop s d w) i ≡ none
  stop-pending w i phase = elim (Option-cases (pending (stop s d w) i)) [
    | inl gone ↦ gone
    | inr left ↦
        let (h, p) = left in
        let (p', other, another) = stop_left w i h p in absurd (known h phase p' other another)
  ]
    where
      known :
          (h : Handler)
          → Phase w
          → pending w.queue i ≡ some h
          → (i == w.app.event_id) ≡ false
          → (w.app.send_events ≡ true → (i == w.app.goose_event_id) ≡ false)
          → ⊥
      known h (burst on only) p other another = ground (arith, only i h p)
      known h (idle only) p other another = elim (only i h p) [
        | inl heartbeat ↦ ground arith
        | inr starts ↦ ground (arith, another starts.0)
      ]

  -- The application is started on a queue without events of its own. Whenever it is stopped, after any
  -- number of its events have been run in any order, none of its events is left in the queue, so none
  -- of its handlers runs after the publisher is destroyed.
  pub stop-Runs :
      (a : Attributes) (src_addr junk : List ℕ) (now : ℕ) (q : Queue) (first w : World s d)
      (k i : ℕ)
      → IsEmpty q
      → start s d a src_addr junk now q ≡ ok first
      → Runs first k w
      → pending (stop s d w) i ≡ none
  stop-Runs a src_addr junk now q first w k i nothing e r =
      stop-pending w i (Runs-Phase (start-Phase a src_addr junk now q first nothing e) r)
