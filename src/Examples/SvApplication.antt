-- ===== src/Examples/SvApplication.antt =====
-- The theorems on the sampling application on a queue that is a list of events.
use grid_goose_sv.Prelude.{
  ℕ, ◌+◌, ◌*◌, ◌/◌, ◌≤◌, ◌≡◌, refl, arith, List, [], ◌∷◌, length, length-replicate, replicate, none,
  some, ok,
}
use grid_goose_sv.Simulator.{Scheduler, Floats}
use grid_goose_sv.Iec61850.Timestamp.{create_timestamp}
use grid_goose_sv.Sv.Application.{SvHandler, measure, SvAttributes, SvWorld, start_sv, fire_measure}
use grid_goose_sv.Sv.Application.Run.{HasMeasured, fire-HasMeasured}
use grid_goose_sv.Sv.Application.Start.{IsUsable, start_sv-HasMeasured}
use grid_goose_sv.Examples.Application.{EventList, event_list, find_event, whole_numbers}

-- Whole numbers below 256 in place of `float`.
abbrev whole_floats : Floats whole_numbers
whole_floats = record {
  Float = ℕ;
  of_number = λ n. n;
  of_double = λ n. n;
  two_pi = 6;
  plus = λ a b. a + b;
  product = λ a b. a * b;
  quotient = λ a b. a / b;
  sine_times = λ a b. a * b;
  octets = λ n. n ∷ 0 ∷ 0 ∷ 0 ∷ [];
  length-octets = λ n. refl;
}

-- Three messages of two samples.
abbrev sample_attributes : SvAttributes
sample_attributes = record {
  max_packets = 3;
  frequency = 60;
  samples_per_cycle = 80;
  samples_per_message = 2;
}

sample_attributes-IsUsable : IsUsable sample_attributes
sample_attributes-IsUsable = record {
  rate = omega arith;
  some_samples = omega arith;
  few_samples = omega arith;
  count = omega arith;
}

abbrev own_address : List ℕ
own_address = 0 ∷ 0 ∷ 0 ∷ 0 ∷ 0 ∷ 1 ∷ []

-- "sv0" for each ASDU.
abbrev identifiers : ℕ → List ℕ
identifiers j = 115 ∷ 118 ∷ 48 ∷ []

identifiers_short : (j : ℕ) → length (identifiers j) ≤ 64
identifiers_short j = omega arith

abbrev sv_events : Scheduler SvHandler
sv_events = event_list SvHandler

abbrev no_events : EventList SvHandler
no_events = ([], 1)

no_events-empty : (i : ℕ) → sv_events.pending no_events i ≡ none
unfolding find_event
no_events-empty i = refl

start_sv-HasMeasured_example :
    (first : SvWorld sv_events whole_numbers whole_floats) × (start_sv sv_events whole_numbers
        whole_floats sample_attributes identifiers own_address
        (replicate 1518 0)
        no_events
      ≡ ok first)
    × HasMeasured sv_events whole_numbers whole_floats 2 3 0 first
start_sv-HasMeasured_example =
    start_sv-HasMeasured sv_events whole_numbers whole_floats sample_attributes identifiers
      own_address (replicate 1518 0) no_events sample_attributes-IsUsable refl
      (length-replicate {A = ℕ} 1518 0) identifiers_short no_events-empty

sample_start :
    (first : SvWorld sv_events whole_numbers whole_floats) × (start_sv sv_events whole_numbers
        whole_floats sample_attributes identifiers own_address
        (replicate 1518 0)
        no_events
      ≡ ok first)
    × HasMeasured sv_events whole_numbers whole_floats 2 3 0 first
sample_start =
    start_sv-HasMeasured sv_events whole_numbers whole_floats sample_attributes identifiers
      own_address (replicate 1518 0) no_events sample_attributes-IsUsable refl
      (length-replicate {A = ℕ} 1518 0) identifiers_short no_events-empty

abbrev first_world : SvWorld sv_events whole_numbers whole_floats
first_world = sample_start.0

first_event : sv_events.pending first_world.queue first_world.app.event_id ≡ some measure
first_event = sample_start.2.event (omega arith)

sample_measure :
    (w : SvWorld sv_events whole_numbers whole_floats) × (fire_measure sv_events whole_numbers
        whole_floats first_world first_world.app.event_id 1000 create_timestamp
      ≡ ok w)
    × HasMeasured sv_events whole_numbers whole_floats 2 3 1 w
sample_measure =
    fire-HasMeasured sv_events whole_numbers whole_floats 2 3 0 first_world.app.event_id first_world
      1000 create_timestamp (omega arith) (omega arith) sample_start.2 first_event

abbrev second_world : SvWorld sv_events whole_numbers whole_floats
second_world = sample_measure.0
