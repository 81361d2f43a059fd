-- ===== src/Goose/Receiver/Validity.antt =====
-- `stateValid` and `invalidityTime` in goose/goose_receiver.cc, and GooseSubscriber_isValid.
use grid_goose_sv.Prelude.{
  ℕ, ◌+◌, ◌≡◌, refl, ◌∙◌, arith, List, ltb, leb, ◌==◌, ◌&&◌, not, Bool, true, false, Option, none,
  some, Outcome, ok, failed, fault, stuck, ◌>>=◌, on_failure, subst, if◌then◌else◌,
}
use grid_goose_sv.Mms.Value.{MmsValue, Components}
use grid_goose_sv.Goose.Subscriber.{GooseSubscriber, GooseParseError, is_valid, is_null}
use grid_goose_sv.Goose.Receiver.{
  Payload, DataSetResult, data_at, parse_data_set, parsed_well, stored_error, kept_values,
  take_message,
}
use grid_goose_sv.Goose.Receiver.DataSet.{FloatConversions, is_no_error}

-- The same state number with a sequence number that is not higher.
abbrev pub is_repeated : GooseSubscriber → Payload → Bool
is_repeated s p = (s.st_num == p.st_num) && leb p.sq_num s.sq_num

-- Whether the parse error of a subscriber tells that its data set was parsed, which is so only where
-- it had values before.
abbrev pub is_parsed : Option MmsValue → GooseParseError → Bool
is_parsed kept pe = if is_null kept then true else is_no_error pe

ok_injective : {A : Type 0} {a b : A} → ok a ≡ ok b → a ≡ b
ok_injective h = cc

abbrev Agrees : Option MmsValue → GooseParseError → DataSetResult → Type 0
Agrees kept old d = parsed_well d.error ≡ is_parsed kept (stored_error d.error old)

-- The result of a parser into the values that are there.
stored_result :
    (m : Outcome (Components × GooseParseError)) (f : Components → MmsValue) (flag : Bool)
    (v : MmsValue) (d : DataSetResult) (old : GooseParseError)
    → (m >>= λ r. ok (record { values = some (f r.0); self_allocated = flag; error = some r.1 }))
      ≡ ok d
    → Agrees (some v) old d
stored_result (ok r) f flag v d old h = subst (Agrees (some v) old) (ok_injective h) refl
stored_result failed f flag v d old h = cc
stored_result fault f flag v d old h = cc
stored_result stuck f flag v d old h = cc

-- The result of the parser that makes the values.
new_result :
    (m : Outcome MmsValue) (flag : Bool) (d : DataSetResult) (old : GooseParseError)
    → on_failure m
        (ok (record { values = none; self_allocated = flag; error = none }))
        (λ v. ok (record { values = some v; self_allocated = true; error = none }))
      ≡ ok d
    → Agrees none old d
new_result (ok v) flag d old h = subst (Agrees none old) (ok_injective h) refl
new_result failed flag d old h = subst (Agrees none old) (ok_injective h) refl
new_result fault flag d old h = cc
new_result stuck flag d old h = cc

kept_error :
    (fc : FloatConversions) (flag : Bool) (kept : Option MmsValue) (buffer : List ℕ) (n : ℕ)
    (d : DataSetResult) (old : GooseParseError)
    → parse_data_set fc flag kept buffer n ≡ ok d
    → Agrees kept old d
unfolding parse_data_set
kept_error fc flag none buffer n d old h = new_result _ flag d old h
kept_error fc flag (some (MmsValue.array cs)) buffer n d old h =
    stored_result _ _ flag (MmsValue.array cs) d old h
kept_error fc flag (some (MmsValue.structure cs)) buffer n d old h =
    stored_result _ _ flag (MmsValue.structure cs) d old h
kept_error fc flag (some (MmsValue.boolean b)) buffer n d old h = cc
kept_error fc flag (some (MmsValue.bit_string m bits)) buffer n d old h = cc
kept_error fc flag (some (MmsValue.integer v)) buffer n d old h = cc
kept_error fc flag (some (MmsValue.unsigned v)) buffer n d old h = cc
kept_error fc flag (some (MmsValue.float a b octets)) buffer n d old h = cc
kept_error fc flag (some (MmsValue.octet_string m k octets)) buffer n d old h = cc
kept_error fc flag (some (MmsValue.visible_string t m)) buffer n d old h = cc
kept_error fc flag (some (MmsValue.mms_string t m)) buffer n d old h = cc
kept_error fc flag (some (MmsValue.binary_time m octets)) buffer n d old h = cc
kept_error fc flag (some (MmsValue.utc_time octets)) buffer n d old h = cc
kept_error fc flag (some (MmsValue.data_access_error e)) buffer n d old h = cc
kept_error fc flag (some MmsValue.generalized_time) buffer n d old h = cc
kept_error fc flag (some MmsValue.bcd) buffer n d old h = cc
kept_error fc flag (some MmsValue.obj_id) buffer n d old h = cc

-- What holds of every record that two steps can lead to.
both_done :
    (o : Outcome (List ℕ)) (o' : Outcome DataSetResult)
    (make : List ℕ → DataSetResult → GooseSubscriber) (P : GooseSubscriber → Type 0)
    (s : GooseSubscriber)
    → (o >>= λ t. o' >>= λ d. ok (make t d)) ≡ ok s
    → ((t : List ℕ) (d : DataSetResult) → o' ≡ ok d → P (make t d))
    → P s
both_done (ok t) (ok d) make P s e h = subst P (ok_injective e) (h t d refl)
both_done (ok t) failed make P s e h = cc
both_done (ok t) fault make P s e h = cc
both_done (ok t) stuck make P s e h = cc
both_done failed o' make P s e h = cc
both_done fault o' make P s e h = cc
both_done stuck o' make P s e h = cc

-- A message that has been taken leaves its two numbers.
pub take_message-numbers :
    (fc : FloatConversions) (s s' : GooseSubscriber) (p : Payload) (buffer : List ℕ) (now : ℕ)
    → take_message fc s p buffer now ≡ ok s'
    → (s'.st_num ≡ p.st_num) × (s'.sq_num ≡ p.sq_num)
unfolding take_message
take_message-numbers fc s s' p buffer now h =
    both_done _ _ _ (λ s'. (s'.st_num ≡ p.st_num) × (s'.sq_num ≡ p.sq_num)) s' h
      (λ t d hd. (refl, refl))

valid_at :
    (self : GooseSubscriber) (later : ℕ)
    → is_valid self later ≡ (self.state_valid && leb later self.invalidity_time)
unfolding is_valid
valid_at self later = by_flag self.state_valid
  where
    by_flag :
        (b : Bool)
        → (if not b then false else if ltb self.invalidity_time later then false else true)
          ≡ (b && leb later self.invalidity_time)
    by_flag true = ground arith
    by_flag false = refl

-- After a message that has been taken, the subscriber is valid up to the end of the time allowed to
-- live, if the message was no repetition and its data set, where there were values before, was parsed
-- without an error; and not valid otherwise.
pub take_message-validity :
    (fc : FloatConversions) (s s' : GooseSubscriber) (p : Payload) (buffer : List ℕ) (now later : ℕ)
    → take_message fc s p buffer now ≡ ok s'
    → is_valid s' later ≡ (
        not (is_repeated s p)
        && is_parsed (kept_values s p.conf_rev) s'.parse_error
        && leb later (now + p.time_allowed_to_live))
unfolding take_message
take_message-validity fc s s' p buffer now later h =
    both_done _ _ _
      (λ s'. is_valid s' later ≡ (
        not (is_repeated s p)
        && is_parsed (kept_values s p.conf_rev) s'.parse_error
        && leb later (now + p.time_allowed_to_live)))
      s' h
      (λ t d hd.
        valid_at _ later
        ∙ rw
            (kept_error fc s.data_set_values_self_allocated (kept_values s p.conf_rev)
              (data_at buffer p.data_set_buffer_pos) p.data_set_buffer_length d s.parse_error hd)
            (by_repetition (is_repeated s p) _ _))
  where
    by_repetition : (a b c : Bool) → ((if a then false else b) && c) ≡ (not a && b && c)
    by_repetition true b c = refl
    by_repetition false b c = refl
