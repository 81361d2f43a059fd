-- ===== src/Examples/Application.antt =====
-- The theorems on the publishing application on a queue that is a list of events.
use grid_goose_sv.Prelude.{
  ℕ, ◌+◌, ◌*◌, ◌/◌, ◌^◌, ◌≤◌, ◌≡◌, ◌⊎◌, refl, arith, List, [], ◌∷◌, length, length-replicate,
  replicate, ◌==◌, if◌then◌else◌, Option, none, some, ok,
}
use grid_goose_sv.Simulator.{Scheduler, Doubles}
use grid_goose_sv.Goose.Application.{Handler, send_event, Attributes, World, start, stop, fire}
use grid_goose_sv.Goose.Application.Pending.{Runs, begin, next, IsEmpty, stop-Runs}
use grid_goose_sv.Goose.Application.Progress.{Numbered, HasEvent, Advances, fire-Advances}
use grid_goose_sv.Goose.Application.Run.{IsStarted, start-IsStarted, Runs-sends}
use grid_goose_sv.Goose.Application.Ends.{Runs-le-packets}

-- The events with their ids, and the next id.
abbrev pub EventList : Type 0 → Type 0
EventList Handler = List (ℕ × Handler) × ℕ

module _ {Handler : Type 0} where
  unfoldable pub find_event : List (ℕ × Handler) → ℕ → Option Handler
  find_event [] i = none
  find_event ((j, h) ∷ q) i = let rest = find_event q i in if i == j then some h else rest

  pub remove_event : List (ℕ × Handler) → ℕ → List (ℕ × Handler)
  remove_event [] i = []
  remove_event ((j, h) ∷ q) i =
      let rest = remove_event q i in if j == i then rest else (j, h) ∷ rest

  pub find-remove :
      (q : List (ℕ × Handler)) (i j : ℕ)
      → find_event (remove_event q i) j ≡ (if j == i then none else find_event q j)
  unfolding find_event remove_event
  find-remove [] i j = ground arith
  find-remove ((l, h) ∷ q) i j = ground (arith, find-remove q i j)

  pub find-add :
      (q : EventList Handler) (h : Handler) (i : ℕ)
      → find_event ((q.1, h) ∷ q.0) i ≡ (if i == q.1 then some h else find_event q.0 i)
  unfolding find_event
  find-add q h i = refl

-- The delay is not looked at: any order of events is allowed.
abbrev pub event_list : (Handler : Type 0) → Scheduler Handler
event_list Handler = record {
  Queue = EventList Handler;
  schedule = λ q delay h. (((q.1, h) ∷ q.0, q.1 + 1), q.1);
  cancel = λ q i. (remove_event q.0 i, q.1);
  pending = λ q i. find_event q.0 i;
  pending-schedule = λ q delay h i. find-add q h i;
  pending-cancel = λ q i j. find-remove q.0 i j;
}

-- Whole numbers in place of `double`.
abbrev pub whole_numbers : Doubles
whole_numbers = record {
  Double = ℕ;
  of_int = λ n. n;
  divide = λ a b. a / b;
  power = λ a b. a ^ b;
  times = λ a b. a * b;
  to_int = λ n. n;
}

-- Two packets, and an event after a second.
abbrev sample_attributes : Attributes
sample_attributes = record {
  max_packets = 2;
  app_id = 1000;
  t0 = 20000000;
  t1 = 3000000;
  event_interval = 1000000000;
  event_messages = 5;
}

abbrev own_address : List ℕ
own_address = 0 ∷ 0 ∷ 0 ∷ 0 ∷ 0 ∷ 1 ∷ []

abbrev events : Scheduler Handler
events = event_list Handler

abbrev no_events : EventList Handler
no_events = ([], 1)

no_events-IsEmpty : IsEmpty events whole_numbers no_events
unfolding find_event
no_events-IsEmpty i = refl

sample_start :
    (w : World events whole_numbers) × (start events whole_numbers sample_attributes own_address
        (replicate 1518 0)
        1000
        no_events
      ≡ ok w)
    × IsStarted events whole_numbers sample_attributes w
sample_start =
    start-IsStarted events whole_numbers sample_attributes own_address (replicate 1518 0) 1000
      no_events refl (length-replicate {A = ℕ} 1518 0)

abbrev first_world : World events whole_numbers
first_world = sample_start.0

first_event : HasEvent events whole_numbers first_world.queue
first_event = sample_start.2.event

sample_advance :
    Advances events whole_numbers sample_attributes first_world
      (fire events whole_numbers first_world first_event.0 first_event.1 1020)
unfolding first_event
sample_advance =
    fire-Advances events whole_numbers sample_attributes first_world first_event.0 first_event.1
      1020 (omega arith) sample_start.2.running (omega (arith, sample_start.2.count))

abbrev second_world : World events whole_numbers
second_world = sample_advance.0

sample_run : Runs events whole_numbers first_world 1 second_world
sample_run = next first_event.0 first_event.1 1020 begin first_event.2 sample_advance.1

stop-Runs_example :
    events.pending (stop events whole_numbers second_world) second_world.app.event_id ≡ none
stop-Runs_example =
    stop-Runs events whole_numbers sample_attributes own_address (replicate 1518 0) 1000 no_events
      first_world second_world 1 second_world.app.event_id no_events-IsEmpty sample_start.1
      sample_run

Runs-sends_example :
    (second_world.app.sent ≡ 1)
    × (length second_world.frames ≡ 1)
    × Numbered second_world.app.data_set_values second_world.app.publisher.st_num
        second_world.frames
    × ((2 ≤ 1) ⊎ HasEvent events whole_numbers second_world.queue)
    × (w : World events whole_numbers) × (fire events whole_numbers second_world 5 send_event 2000
        ≡ ok w)
Runs-sends_example =
    Runs-sends events whole_numbers sample_attributes own_address (replicate 1518 0) 1000 no_events
      first_world second_world 1 5 send_event 2000 refl (length-replicate {A = ℕ} 1518 0)
      (omega arith) (omega arith) sample_start.1 sample_run

Runs-le-packets_example : 1 ≤ 4
Runs-le-packets_example =
    Runs-le-packets events whole_numbers sample_attributes own_address (replicate 1518 0) 1000
      no_events first_world second_world 1 refl (length-replicate {A = ℕ} 1518 0) (omega arith)
      (omega arith) no_events-IsEmpty sample_start.1 sample_run
