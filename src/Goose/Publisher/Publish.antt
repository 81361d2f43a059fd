-- ===== src/Goose/Publisher/Publish.antt =====
-- `GoosePublisher_publish` of goose/goose_publisher.cc: the layout of its buffer, and its state
-- after a message has been sent.
use grid_goose_sv.Prelude.{
  ℕ, zero, suc, ◌+◌, ◌-◌, ◌/◌, ◌%◌, ◌≤◌, ◌<◌, ◌≡◌, refl, ap, ◌∙◌, arith, List, [], ◌∷◌, ◌++◌,
  length, take, drop, set, ltb, ◌==◌, if◌then◌else◌, Option, none, some, ok, Ensures, Ensures-if,
  length-append, length-take, length-drop, length-set, append_assoc, lt→ltb, take-append,
  get_elem?-drop, Bool-cases, inl, inr,
}
use grid_goose_sv.Memory.{put_all-fits}
use grid_goose_sv.Ber.Bytes.{store}
use grid_goose_sv.Ber.Bytes.Compress.{drop-cons}
use grid_goose_sv.Ber.Decoder.{read_bytes}
use grid_goose_sv.Mms.Value.{MmsValue}
use grid_goose_sv.Goose.Publisher.{
  GoosePublisher, u32, goose_max_message_size, send_packet, finish_publish, publish_with, publish,
}
use grid_goose_sv.Goose.Publisher.Payload.{goose_pdu, IsPublishable, create_goose_payload-pdu}
use Prim.Native.Nat.add
use native.Mathlib.Numerals.{add-one}

-- The layout of the frame buffer.
pub record HasFrame (self : GoosePublisher) : Type 0 where
  pub allocated : length self.buffer ≡ goose_max_message_size
  pub field_at : self.length_field + 6 ≡ self.payload_start
  pub header_long : 22 ≤ self.payload_start
  pub header_short : self.payload_start ≤ 26

-- The header with the length of the APDU, payload and eight octets, at the length field.
unfoldable pub header_with_length : GoosePublisher → ℕ → List ℕ
header_with_length self n =
    set (set (take self.payload_start self.buffer) self.length_field ((n + 8) / 256 % 256))
      (self.length_field + 1) ((n + 8) % 256)

set-append : (xs ys : List ℕ) (i v : ℕ) → i < length xs → set (xs ++ ys) i v ≡ set xs i v ++ ys
set-append [] ys i v h = absurd (omega arith)
set-append (x ∷ xs) ys zero v h = refl
set-append (x ∷ xs) ys (suc i) v h = ap (λ t. x ∷ t) (set-append xs ys i v (omega arith))

-- A write into the first of two parts.
store-append :
    (xs ys : List ℕ) (i v : ℕ) → i < length xs → store (xs ++ ys) i v ≡ ok (set xs i v ++ ys)
unfolding store
store-append xs ys i v h =
    rw (lt→ltb i (length (xs ++ ys)) (omega (arith, length-append xs ys)), set-append xs ys i v h)

read_bytes-take :
    (n : ℕ) (buffer : List ℕ) (i : ℕ)
    → i + n ≤ length buffer
    → read_bytes n buffer i ≡ ok (take n (drop i buffer))
unfolding read_bytes
read_bytes-take zero buffer i h = refl
read_bytes-take (suc n) buffer i h =
    let (b, e) = drop-cons buffer i (omega arith) in
    rw (get_elem?-drop buffer i e, e, read_bytes-take n buffer (i + 1) (omega arith), add-one i)

drop-append_le : (n : ℕ) (xs ys : List ℕ) → n ≤ length xs → drop n (xs ++ ys) ≡ drop n xs ++ ys
drop-append_le zero xs ys h = refl
drop-append_le (suc n) [] ys h = absurd (omega arith)
drop-append_le (suc n) (x ∷ xs) ys h = drop-append_le n xs ys (omega arith)

take-exact : (n : ℕ) (xs ys : List ℕ) → n ≡ length xs → take n (xs ++ ys) ≡ xs
take-exact n xs ys e = rw e (take-append xs ys)

length-header_with_length :
    (self : GoosePublisher) (n : ℕ)
    → HasFrame self
    → length (header_with_length self n) ≡ self.payload_start
unfolding header_with_length
length-header_with_length self n h = omega (
  arith,
  length-set (take self.payload_start self.buffer) self.length_field ((n + 8) / 256 % 256),
  length-set (set (take self.payload_start self.buffer) self.length_field ((n + 8) / 256 % 256))
      (self.length_field + 1) ((n + 8) % 256),
  length-take self.payload_start self.buffer,
)

-- The state after a successful publish.
unfoldable pub published : GoosePublisher → List ℕ → GoosePublisher
published self pdu =
    let next = u32 (self.sq_num + 1) in
    record self {
      buffer =
          header_with_length self (length pdu)
          ++ (pdu ++ drop (length pdu) (drop self.payload_start self.buffer));
      payload_length = some (length pdu);
      sq_num = if next == 0 then 1 else next;
    }

-- The packet is the frame from octet 14 on.
packet_sent :
    (head pdu rest : List ℕ) (start : ℕ)
    → length head ≡ start
    → 14 ≤ start
    → read_bytes (start + length pdu - 14) (head ++ (pdu ++ rest)) 14 ≡ ok (drop 14 head ++ pdu)
packet_sent head pdu rest start e h =
    read_bytes-take (start + length pdu - 14) (head ++ (pdu ++ rest)) 14
      (omega (arith, length-append head (pdu ++ rest), length-append pdu rest))
    ∙ ap ok (
        rw
          (
            drop-append_le 14 head (pdu ++ rest) (omega arith),
            ← append_assoc (drop 14 head) pdu rest,
          )
          (take-exact (start + length pdu - 14) (drop 14 head ++ pdu) rest
            (omega (arith, length-append (drop 14 head) pdu, length-drop 14 head))))

finish_publish-published :
    (self : GoosePublisher) (pdu : List ℕ)
    → HasFrame self
    → self.payload_start + length pdu ≤ goose_max_message_size
    → finish_publish self
        (take self.payload_start self.buffer
          ++ (pdu ++ drop (length pdu) (drop self.payload_start self.buffer)))
        (length pdu)
      ≡ ok (published self pdu, some (drop 14 (header_with_length self (length pdu)) ++ pdu))
unfolding finish_publish published header_with_length send_packet
finish_publish-published self pdu h fits =
    let head = take self.payload_start self.buffer in
    let len = length-take self.payload_start self.buffer in
    let hi = (length pdu + 8) / 256 % 256 in
    let lo = (length pdu + 8) % 256 in
    rw
      (
        store-append head _ self.length_field hi (omega arith),
        store-append (set head self.length_field hi) _ (self.length_field + 1) lo
            (omega (arith, length-set head self.length_field hi)),
        packet_sent _ pdu _ self.payload_start
            (unfold header_with_length in length-header_with_length self (length pdu) h)
            (omega arith),
      )
      refl

-- On a publisher whose buffer has the layout of `HasFrame` and with a data set that
-- `IsPublishable` allows, `publish` on a PDU that fits the frame sends the frame from octet 14
-- on, with the length filled in, followed by the PDU, and moves the sequence number on,
-- skipping 0; on a longer PDU it sends nothing and only sets the payload length to -1.
pub publish-published :
    (self : GoosePublisher) (data_set : List (Option MmsValue))
    → HasFrame self
    → IsPublishable self data_set
    → let pdu = goose_pdu self data_set in
      publish self data_set ≡ (
        if ltb (goose_max_message_size - self.payload_start) (length pdu)
        then ok (record self { payload_length = none }, none)
        else ok (published self pdu, some (drop 14 (header_with_length self (length pdu)) ++ pdu)))
unfolding publish
publish-published self data_set h k =
    let space = drop self.payload_start self.buffer in
    let room : length space ≡ goose_max_message_size - self.payload_start =
      omega (arith, length-drop self.payload_start self.buffer) in
    rw (create_goose_payload-pdu self data_set (goose_max_message_size - self.payload_start) _ k)
      (elim (Bool-cases
        (ltb (goose_max_message_size - self.payload_start) (length (goose_pdu self data_set)))) [
          | inl e ↦ rw e (unfold publish_with in refl)
          | inr e ↦
              rw
                (
                  e,
                  put_all-fits (goose_pdu self data_set) (record { buffer = space; pos = 0 })
                      (ground arith),
                  add.zero (length (goose_pdu self data_set)),
                )
                (unfold publish_with in
                  finish_publish-published self (goose_pdu self data_set) h (ground arith))
        ])

published-HasFrame :
    (self : GoosePublisher) (pdu : List ℕ)
    → HasFrame self
    → self.payload_start + length pdu ≤ goose_max_message_size
    → HasFrame (published self pdu)
unfolding published
published-HasFrame self pdu h fits = record {
  allocated = omega (
    arith,
    length-append (header_with_length self (length pdu))
        (pdu ++ drop (length pdu) (drop self.payload_start self.buffer)),
    length-append pdu (drop (length pdu) (drop self.payload_start self.buffer)),
    length-drop (length pdu) (drop self.payload_start self.buffer),
    length-drop self.payload_start self.buffer,
    length-header_with_length self (length pdu) h,
  );
  field_at = h.field_at;
  header_long = h.header_long;
  header_short = h.header_short;
}

-- On a publisher whose buffer has the layout of `HasFrame` and with a data set that
-- `IsPublishable` allows, `publish` is defined and the publisher keeps the layout, whether the
-- frame is sent or not.
pub publish-HasFrame :
    (self : GoosePublisher) (data_set : List (Option MmsValue))
    → HasFrame self
    → IsPublishable self data_set
    → Ensures (λ r. HasFrame r.0) (publish self data_set)
publish-HasFrame self data_set h k =
    let pdu = goose_pdu self data_set in
    rw (publish-published self data_set h k) (
      Ensures-if _ (ltb (goose_max_message_size - self.payload_start) (length pdu)) _ _
        (λ e. record {
          allocated = h.allocated;
          field_at = h.field_at;
          header_long = h.header_long;
          header_short = h.header_short;
        })
        (λ e. published-HasFrame self pdu h (ground (arith, h.header_short))))
