-- ===== src/Goose/Publisher/Create.antt =====
-- `GoosePublisher_createEx` of goose/goose_publisher.cc and the octets of the frame header.
use grid_goose_sv.Prelude.{
  Option, ℕ, ◌+◌, ◌-◌, ◌*◌, ◌/◌, ◌%◌, ◌≤◌, ◌≡◌, refl, ◌∙◌, arith, List, [], ◌∷◌, ◌++◌, length, take,
  drop, Bool, true, false, none, some, ok, >>=-outcome, ok-subst, length-append, length-take,
  length-drop, take-append, if◌then◌else◌,
}
use grid_goose_sv.Memory.{put_all, put_all-fits, splice, Writes, Writes-then}
use grid_goose_sv.Goose.Publisher.{
  GoosePublisher, CommParameters, goose_max_message_size, frame_header, create_ex, goose_parameters,
}
use grid_goose_sv.Goose.Publisher.Publish.{HasFrame}
use grid_goose_sv.Mms.UtcTime.{new_utc_time_by_ms_time}
use Prim.Native.Nat.add

-- The octets of the header: addresses, VLAN tag, EtherType 0x88b8, APPID, length 8, reserved.
unfoldable pub header_octets : CommParameters → List ℕ → Bool → List ℕ
header_octets p src_addr use_vlan_tags =
    take 6 p.dst_address
    ++ (take 6 src_addr
        ++ ((if use_vlan_tags
              then 0x81
                ∷ 0x00
                ∷ (p.vlan_priority * 32 % 256 + p.vlan_id / 256) % 256
                ∷ p.vlan_id % 256
                ∷ []
              else [])
            ++ ((0x88 ∷ 0xB8 ∷ p.app_id / 256 ∷ p.app_id % 256 ∷ [])
                ++ (0x00 ∷ 0x08 ∷ 0x00 ∷ 0x00 ∷ 0x00 ∷ 0x00 ∷ []))))

frame_header-Writes :
    (p : CommParameters) (src_addr : List ℕ) (use_vlan_tags : Bool)
    → Writes (frame_header p src_addr use_vlan_tags) (header_octets p src_addr use_vlan_tags)
unfolding frame_header header_octets
frame_header-Writes p src_addr true =
    Writes-then _ _ _ _ (λ c. refl)
      (Writes-then _ _ _ _ (λ c. refl)
        (Writes-then _ _ _ _ (λ c. refl) (Writes-then _ _ _ _ (λ c. refl) (λ c. refl))))
frame_header-Writes p src_addr false =
    Writes-then _ _ _ _ (λ c. refl)
      (Writes-then _ _ _ _ (λ c. refl)
        (Writes-then ok _ [] _ (λ c. unfold put_all in refl)
          (Writes-then _ _ _ _ (λ c. refl) (λ c. refl))))

length-header_octets :
    (p : CommParameters) (src_addr : List ℕ) (use_vlan_tags : Bool)
    → length p.dst_address ≡ 6
    → length src_addr ≡ 6
    → length (header_octets p src_addr use_vlan_tags) ≡ (if use_vlan_tags then 26 else 22)
unfolding header_octets
length-header_octets p src_addr true hd hs =
    simp length-append (omega (arith, length-take 6 p.dst_address, length-take 6 src_addr))
length-header_octets p src_addr false hd hs =
    simp length-append (omega (arith, length-take 6 p.dst_address, length-take 6 src_addr))

header_bounds :
    (n : ℕ) (use_vlan_tags : Bool) → n ≡ (if use_vlan_tags then 26 else 22) → (22 ≤ n) × (n ≤ 26)
header_bounds n true e = (omega arith, omega arith)
header_bounds n false e = (omega arith, omega arith)

-- With addresses of six octets and a buffer of the maximal message size, whatever it holds,
-- creation succeeds, with parameters or with NULL for them, writes the frame header, and leaves the layout that publishing needs, with
-- state number 1 and sequence number 0.
pub create_ex-HasFrame :
    (parameters : Option CommParameters) (src_addr junk : List ℕ) (now : ℕ) (use_vlan_tags : Bool)
    → length (goose_parameters parameters).dst_address ≡ 6
    → length src_addr ≡ 6
    → length junk ≡ goose_max_message_size
    → (self : GoosePublisher) × (create_ex parameters src_addr junk now use_vlan_tags ≡ ok self)
      × HasFrame self
      × (take self.payload_start self.buffer
          ≡ header_octets (goose_parameters parameters) src_addr use_vlan_tags)
      × (self.st_num ≡ 1)
      × (self.sq_num ≡ 0)
unfolding create_ex
create_ex-HasFrame parameters src_addr junk now use_vlan_tags hd hs hj =
    let p = goose_parameters parameters in
    let head = header_octets p src_addr use_vlan_tags in
    let long = length-header_octets p src_addr use_vlan_tags hd hs in
    let (low, high) = header_bounds (length head) use_vlan_tags long in
    let written =
      frame_header-Writes p src_addr use_vlan_tags (record { buffer = junk; pos = 0 })
      ∙ put_all-fits head (record { buffer = junk; pos = 0 }) (omega arith) in
    (
      record {
        buffer = splice junk 0 head;
        length_field = length head - 6;
        payload_start = length head;
        payload_length = some 0;
        go_id = none;
        go_cb_ref = none;
        data_set_ref = none;
        conf_rev = 0;
        st_num = 1;
        sq_num = 0;
        time_allowed_to_live = 0;
        needs_commission = false;
        simulation = false;
        timestamp = new_utc_time_by_ms_time now;
      },
      rw (written, add.zero (length head)) refl,
      record {
        allocated = omega (
          arith,
          length-append head (drop (0 + length head) junk),
          length-drop (0 + length head) junk,
        );
        field_at = omega arith;
        header_long = omega arith;
        header_short = omega arith;
      },
      take-append head _,
      refl,
      refl,
    )

-- What creation leaves in the other fields.
pub create_ex-fields :
    (parameters : Option CommParameters) (src_addr junk : List ℕ) (now : ℕ) (use_vlan_tags : Bool)
    (self : GoosePublisher)
    → create_ex parameters src_addr junk now use_vlan_tags ≡ ok self
    → (self.go_id ≡ none) × (self.timestamp ≡ new_utc_time_by_ms_time now)
unfolding create_ex
create_ex-fields parameters src_addr junk now use_vlan_tags self e =
    let p = goose_parameters parameters in
    let (c, written, e') =
      >>=-outcome (frame_header p src_addr use_vlan_tags (record { buffer = junk; pos = 0 })) _ e in
    ok-subst (λ s. (s.go_id ≡ none) × (s.timestamp ≡ new_utc_time_by_ms_time now)) _ self e'
      (refl, refl)
