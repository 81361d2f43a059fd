-- ===== src/Goose/RoundTrip/Sequence.antt =====
-- Two messages in a row: the sequence number that GoosePublisher_publish of goose/goose_publisher.cc
-- moves on, and the test for repetitions in goose/goose_receiver.cc.
use grid_goose_sv.Prelude.{
  ℕ, ◌+◌, ◌-◌, ◌%◌, ◌/◌, ◌++◌, take, ◌^◌, ◌<◌, ◌≡◌, refl, ap, ◌∙◌, arith, List, leb, ◌==◌, ◌&&◌,
  not, Option, some, Outcome, ok, failed, fault, stuck, ◌>>=◌, subst, if◌then◌else◌,
}
use grid_goose_sv.Memory.{Cursor}
use grid_goose_sv.Ber.Bytes.{store}
use grid_goose_sv.Mms.Value.{MmsValue}
use grid_goose_sv.Goose.Publisher.{
  GoosePublisher, u32, finish_publish, publish_with, publish, send_packet,
}
use grid_goose_sv.Goose.Subscriber.{GooseSubscriber, is_valid}
use grid_goose_sv.Goose.Receiver.{Payload, take_message, kept_values}
use grid_goose_sv.Goose.Receiver.DataSet.{FloatConversions}
use grid_goose_sv.Goose.Receiver.Validity.{
  is_repeated, is_parsed, take_message-numbers, take_message-validity,
}

-- The sequence number behind another, in 32 bits without 0.
abbrev following : ℕ → ℕ
following n = if u32 (n + 1) == 0 then 1 else u32 (n + 1)

abbrev Counted : GoosePublisher → GoosePublisher → Type 0
Counted self next = (next.st_num ≡ self.st_num) × (next.sq_num ≡ following self.sq_num)

ok_of : {A : Type 0} {a b : A} → ok a ≡ ok b → a ≡ b
ok_of e = cc

-- What holds of every result that three steps can lead to.
three_done :
    {B : Type 0} (o : Outcome (List ℕ)) (f g : List ℕ → Outcome (List ℕ))
    (make : List ℕ → List ℕ → B) (P : B → Type 0) (r : B)
    → (o >>= λ a. f a >>= λ b. g b >>= λ c. ok (make b c)) ≡ ok r
    → ((b c : List ℕ) → P (make b c))
    → P r
three_done failed f g make P r e h = cc
three_done fault f g make P r e h = cc
three_done stuck f g make P r e h = cc
three_done (ok a) f g make P r e h = second (f a) e
  where
    third : (b : List ℕ) (o : Outcome (List ℕ)) → (o >>= λ c. ok (make b c)) ≡ ok r → P r
    third b (ok c) e = subst P (ok_of e) (h b c)
    third b failed e = cc
    third b fault e = cc
    third b stuck e = cc

    second : (o : Outcome (List ℕ)) → (o >>= λ b. g b >>= λ c. ok (make b c)) ≡ ok r → P r
    second (ok b) e = third b (g b) e
    second failed e = cc
    second fault e = cc
    second stuck e = cc

finish_publish-Counted :
    (self next : GoosePublisher) (buffer packet : List ℕ) (n : ℕ)
    → finish_publish self buffer n ≡ ok (next, some packet)
    → Counted self next
unfolding finish_publish
finish_publish-Counted self next buffer packet n e =
    three_done (store buffer self.length_field ((n + 8) / 256 % 256))
      (λ b. store b (self.length_field + 1) ((n + 8) % 256))
      (λ b. send_packet b (self.payload_start + n))
      (λ b c. (
        record self { buffer = b; payload_length = some n; sq_num = following self.sq_num },
        some c,
      ))
      (λ r. Counted self r.0) (next, some packet) e (λ b c. (refl, refl))

publish_with-Counted :
    (self next : GoosePublisher) (o : Outcome Cursor) (packet : List ℕ)
    → publish_with self o ≡ ok (next, some packet)
    → Counted self next
unfolding publish_with
publish_with-Counted self next (ok c) packet e =
    finish_publish-Counted self next (take self.payload_start self.buffer ++ c.buffer) packet c.pos
      e
publish_with-Counted self next failed packet e = cc
publish_with-Counted self next fault packet e = cc
publish_with-Counted self next stuck packet e = cc

-- A message with the numbers of a publisher.
pub record Carries (self : GoosePublisher) (p : Payload) : Type 0 where
  pub st_num : p.st_num ≡ self.st_num
  pub sq_num : p.sq_num ≡ self.sq_num

repeated_at : (st n : ℕ) → n < 2 ^ 32 → ((st == st) && leb (following n) n) ≡ (n == 2 ^ 32 - 1)
unfolding u32
repeated_at st n h = ground arith

-- After a message with the numbers of a publisher, whose sequence number fits 32 bits, a message with
-- the numbers that publishing leaves makes the subscriber valid up to the end of the time allowed to
-- live, if its data set, where there were values before, was parsed without an error, except where the
-- sequence number was the last of 32 bits: then it counts as a repetition.
pub publish-take_message :
    (fc : FloatConversions) (sender next : GoosePublisher) (data_set : List (Option MmsValue))
    (packet : List ℕ) (s s' s'' : GooseSubscriber) (p p' : Payload) (buffer buffer' : List ℕ)
    (now now' later : ℕ)
    → sender.sq_num < 2 ^ 32
    → publish sender data_set ≡ ok (next, some packet)
    → Carries sender p
    → Carries next p'
    → take_message fc s p buffer now ≡ ok s'
    → take_message fc s' p' buffer' now' ≡ ok s''
    → is_valid s'' later ≡ (
        not (sender.sq_num == 2 ^ 32 - 1)
        && is_parsed (kept_values s' p'.conf_rev) s''.parse_error
        && leb later (now' + p'.time_allowed_to_live))
unfolding publish
publish-take_message fc sender next data_set packet s s' s'' p p' buffer buffer' now now' later
      small sent c c' taken taken' =
    let (st, sq) = publish_with-Counted sender next _ packet sent in
    let (st_noted, sq_noted) = take_message-numbers fc s s' p buffer now taken in
    let repeated : is_repeated s' p' ≡ (sender.sq_num == 2 ^ 32 - 1) =
      rw (st_noted, sq_noted, c.st_num, c.sq_num, c'.st_num, c'.sq_num, st, sq)
        (repeated_at sender.st_num sender.sq_num small) in
    take_message-validity fc s' s'' p' buffer' now' later taken'
    ∙ ap
        (λ b.
          not b
          && is_parsed (kept_values s' p'.conf_rev) s''.parse_error
          && leb later (now' + p'.time_allowed_to_live))
        repeated
