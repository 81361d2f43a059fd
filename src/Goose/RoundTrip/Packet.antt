-- ===== src/Goose/RoundTrip/Packet.antt =====
-- parseGooseMessage of goose/goose_receiver.cc on a packet that `Ethernet_sendPacket` has sent for
-- GoosePublisher_publish of goose/goose_publisher.cc.
use grid_goose_sv.Prelude.{
  ℕ, zero, suc, ◌+◌, ◌*◌, ◌-◌, ◌/◌, ◌%◌, ◌≤◌, ◌<◌, ◌≡◌, refl, ap, ◌∙◌, sym, arith, List, [], ◌∷◌,
  ◌++◌, length, drop, take, set, true, Option, some, ok, ◌>>=◌, >>=_ext, drop-drop, le→ltb,
}
use grid_goose_sv.Memory.{drop-take-append}
use grid_goose_sv.Mms.Value.{MmsValue}
use grid_goose_sv.Ber.Decoder.{read_bytes}
use grid_goose_sv.Goose.Publisher.{GoosePublisher, CommParameters}
use grid_goose_sv.Goose.Publisher.Payload.{goose_pdu}
use grid_goose_sv.Goose.Publisher.Publish.{header_with_length}
use grid_goose_sv.Goose.Publisher.Create.{header_octets}
use grid_goose_sv.Goose.Subscriber.{GooseSubscriber}
use grid_goose_sv.Goose.Receiver.{note_frame, parse_goose_message, parse_goose_payload}
use grid_goose_sv.Goose.Receiver.DataSet.{FloatConversions}
use grid_goose_sv.Goose.RoundTrip.{received, parse_goose_payload-received}
use grid_goose_sv.Goose.RoundTrip.Fields.{IsReceivable}
use Prim.Native.Nat.add

-- The first twelve octets of the packet: the tag control information, EtherType, APPID, length and the
-- reserved fields.
abbrev pub packet_head : CommParameters → ℕ → List ℕ
packet_head p n =
    (p.vlan_priority * 32 % 256 + p.vlan_id / 256) % 256
    ∷ p.vlan_id % 256
    ∷ 0x88
    ∷ 0xb8
    ∷ p.app_id / 256
    ∷ p.app_id % 256
    ∷ (n + 8) / 256 % 256
    ∷ (n + 8) % 256
    ∷ 0x00
    ∷ 0x00
    ∷ 0x00
    ∷ 0x00
    ∷ []

drop-set_shift : (k : ℕ) (xs : List ℕ) (i v : ℕ) → drop k (set xs (k + i) v) ≡ set (drop k xs) i v
drop-set_shift zero xs i v = rw (add.zero i)
drop-set_shift (suc k) [] i v = refl
drop-set_shift (suc k) (x ∷ xs) i v = rw (add.suc k i) (drop-set_shift k xs i v)

drop_addresses :
    (xs ys rest : List ℕ)
    → length xs ≡ 6
    → length ys ≡ 6
    → drop 14 (take 6 xs ++ (take 6 ys ++ rest)) ≡ drop 2 rest
drop_addresses xs ys rest hx hy =
    sym (drop-drop 8 6 (take 6 xs ++ (take 6 ys ++ rest)))
    ∙ ap (drop 8) (drop-take-append xs (take 6 ys ++ rest) 6 (omega arith))
    ∙ sym (drop-drop 2 6 (take 6 ys ++ rest))
    ∙ ap (drop 2) (drop-take-append ys rest 6 (omega arith))

-- Behind the two addresses and the EtherType of the VLAN tag.
drop_header :
    (p : CommParameters) (src_addr : List ℕ)
    → length p.dst_address ≡ 6
    → length src_addr ≡ 6
    → drop 14 (header_octets p src_addr true)
      ≡ (p.vlan_priority * 32 % 256 + p.vlan_id / 256) % 256
        ∷ p.vlan_id % 256
        ∷ 0x88
        ∷ 0xb8
        ∷ p.app_id / 256
        ∷ p.app_id % 256
        ∷ 0x00
        ∷ 0x08
        ∷ 0x00
        ∷ 0x00
        ∷ 0x00
        ∷ 0x00
        ∷ []
unfolding header_octets
drop_header p src_addr hd hs = drop_addresses p.dst_address src_addr _ hd hs

drop_head :
    (p : CommParameters) (src_addr : List ℕ) (self : GoosePublisher) (n : ℕ)
    → length p.dst_address ≡ 6
    → length src_addr ≡ 6
    → self.payload_start ≡ 26
    → self.length_field ≡ 20
    → take self.payload_start self.buffer ≡ header_octets p src_addr true
    → drop 14 (header_with_length self n) ≡ packet_head p n
unfolding header_with_length
drop_head p src_addr self n hd hs start field hh =
    rw (hh, field)
      (drop-set_shift 14 (set (header_octets p src_addr true) 20 ((n + 8) / 256 % 256)) 7
          ((n + 8) % 256)
        ∙ ap (λ xs. set xs 7 ((n + 8) % 256))
            (drop-set_shift 14 (header_octets p src_addr true) 6 ((n + 8) / 256 % 256)
              ∙ ap (λ xs. set xs 6 ((n + 8) / 256 % 256)) (drop_header p src_addr hd hs)))

-- The receiver on any payload behind such a head.
message_read :
    (fc : FloatConversions) (subscribers : List GooseSubscriber) (p : CommParameters)
    (contents : List ℕ) (n numbytes now : ℕ)
    → n + 8 < 65536
    → 22 ≤ numbytes
    → parse_goose_message fc subscribers (packet_head p n ++ contents) numbytes now ≡ (
        note_frame subscribers p.app_id (drop 6 (packet_head p n)) (take 6 (packet_head p n))
        >>= λ noted. parse_goose_payload fc noted contents n now >>= λ r. ok (r.0, some r.1))
unfolding parse_goose_message read_bytes
message_read fc subscribers p contents n numbytes now small long =
    let id : p.app_id / 256 * 256 + p.app_id % 256 ≡ p.app_id = omega arith in
    let size : (n + 8) / 256 % 256 * 256 + (n + 8) % 256 - 8 ≡ n = omega arith in
    rw (le→ltb numbytes 22 long, id, size)

-- A packet as it is published on a frame with a VLAN tag, with a PDU of at most 65527 octets and
-- fields that can be read, is taken by the receiver: the subscribers' list is what `received` makes
-- of the PDU, after the addresses and the APPID have been noted. The addresses noted are the octets
-- 0 to 5 and 6 to 11 of the packet, which hold the tag, the EtherType, the APPID and the length.
pub parse_goose_message-received :
    (fc : FloatConversions) (subscribers : List GooseSubscriber) (p : CommParameters)
    (src_addr : List ℕ) (self : GoosePublisher) (data_set : List (Option MmsValue)) (rest : List ℕ)
    (numbytes now : ℕ)
    → length p.dst_address ≡ 6
    → length src_addr ≡ 6
    → self.payload_start ≡ 26
    → self.length_field ≡ 20
    → take self.payload_start self.buffer ≡ header_octets p src_addr true
    → IsReceivable self data_set
    → length (goose_pdu self data_set) + 8 < 65536
    → 22 ≤ numbytes
    → let n = length (goose_pdu self data_set) in
      parse_goose_message fc subscribers
        ((drop 14 (header_with_length self n) ++ goose_pdu self data_set) ++ rest)
        numbytes
        now
      ≡ (note_frame subscribers p.app_id (drop 6 (packet_head p n)) (take 6 (packet_head p n))
          >>= λ noted. received fc noted self data_set rest now >>= λ r. ok (r.0, some r.1))
parse_goose_message-received fc subscribers p src_addr self data_set rest numbytes now hd hs start
      field hh r small long =
    let n = length (goose_pdu self data_set) in
    rw (drop_head p src_addr self n hd hs start field hh) (
      message_read fc subscribers p (goose_pdu self data_set ++ rest) n numbytes now small long
      ∙ >>=_ext
          (note_frame subscribers p.app_id (drop 6 (packet_head p n)) (take 6 (packet_head p n))) _
          _
          (λ noted.
            ap (λ o. o >>= λ r. ok (r.0, some r.1))
              (parse_goose_payload-received fc noted self data_set rest now r)))
