-- ===== src/Goose/Publisher/Payload.antt =====
-- createGoosePayload of goose/goose_publisher.cc and the GOOSE PDU as a list of octets.
use grid_goose_sv.Prelude.{
  ℕ, ◌+◌, ◌^◌, ◌≤◌, ◌<◌, ◌≡◌, ◌≢◌, refl, sym, ap, arith, List, [], ◌∷◌, ◌++◌, length, take, Bool,
  ltb, if◌then◌else◌, Option, none, some, ok, failed, length-append, length-take,
}
use grid_goose_sv.Memory.{Cursor, put_all, Writes, Writes-then}
use grid_goose_sv.Ber.Length.{length_octets, determine_length_size, length-length_octets}
use grid_goose_sv.Ber.Encoder.{determine_encoded_string_size}
use grid_goose_sv.Ber.Encoder.Integers.{
  uint32_octets, uint32_determine_encoded_size_lem, encode_uint32_with_tl-Writes,
}
use grid_goose_sv.Ber.Encoder.Strings.{
  tlv, characters, length-tlv, encode_tl-Writes, encode_boolean-Writes,
  encode_string_with_tag-Writes, encode_octet_string-Writes, string_size,
}
use grid_goose_sv.Mms.Value.{MmsValue}
use grid_goose_sv.Mms.Encode.{encode_mms_data}
use grid_goose_sv.Mms.Encode.Octets.{mms_octets, WellSized}
use grid_goose_sv.Mms.Encode.Laws.{mms_data_size-octets, encode_mms_data-octets}
use grid_goose_sv.Goose.Publisher.{
  GoosePublisher, u32, data_set_size, encode_data_set, go_id_or_cb_ref, encode_goose_pdu,
  create_goose_payload,
}

-- The octets of the data set; a NULL entry has none.
unfoldable pub data_set_octets : List (Option MmsValue) → List ℕ
data_set_octets [] = []
data_set_octets (none ∷ entries) = data_set_octets entries
data_set_octets (some v ∷ entries) = mms_octets v ++ data_set_octets entries

unfoldable pub EntriesWellSized : List (Option MmsValue) → Type 0
EntriesWellSized [] = Unit
EntriesWellSized (none ∷ entries) = EntriesWellSized entries
EntriesWellSized (some v ∷ entries) = WellSized v × EntriesWellSized entries

data_set_size-octets :
    (entries : List (Option MmsValue))
    → EntriesWellSized entries
    → data_set_size entries ≡ ok (length (data_set_octets entries))
unfolding data_set_size data_set_octets EntriesWellSized
data_set_size-octets [] h = refl
data_set_size-octets (none ∷ entries) h = data_set_size-octets entries h
data_set_size-octets (some v ∷ entries) h =
    rw (mms_data_size-octets v h.0, data_set_size-octets entries h.1)
      (ap ok (sym (length-append (mms_octets v) (data_set_octets entries))))

encode_data_set-Writes :
    (entries : List (Option MmsValue))
    → EntriesWellSized entries
    → Writes (encode_data_set entries) (data_set_octets entries)
unfolding encode_data_set data_set_octets EntriesWellSized
encode_data_set-Writes [] h c = unfold put_all in refl
encode_data_set-Writes (none ∷ entries) h c = encode_data_set-Writes entries h c
encode_data_set-Writes (some v ∷ entries) h c =
    Writes-then (encode_mms_data v) (encode_data_set entries) (mms_octets v)
      (data_set_octets entries) (encode_mms_data-octets v h.0) (encode_data_set-Writes entries h.1)
      c

-- An unsigned number with its tag.
abbrev pub number : ℕ → ℕ → List ℕ
number tag v = tag ∷ length (uint32_octets v) ∷ uint32_octets v

abbrev pub flag : ℕ → Bool → List ℕ
flag tag b = tag ∷ 1 ∷ (if b then 1 else 0) ∷ []

-- The contents of the PDU, field by field.
unfoldable pub pdu_fields : GoosePublisher → List (Option MmsValue) → List ℕ
pdu_fields self data_set =
    tlv 0x80 (characters self.go_cb_ref)
    ++ (number 0x81 self.time_allowed_to_live
        ++ (tlv 0x82 (characters self.data_set_ref)
            ++ (tlv 0x83 (characters (go_id_or_cb_ref self))
                ++ ((0x84 ∷ (length_octets 8 ++ take 8 self.timestamp))
                    ++ (number 0x85 self.st_num
                        ++ (number 0x86 self.sq_num
                            ++ (flag 0x87 self.simulation
                                ++ (number 0x88 self.conf_rev
                                    ++ (flag 0x89 self.needs_commission
                                        ++ (number 0x8a (u32 (length data_set))
                                            ++ tlv 0xab (data_set_octets data_set)))))))))))

-- The PDU: APPLICATION 1 with the fields.
unfoldable pub goose_pdu : GoosePublisher → List (Option MmsValue) → List ℕ
goose_pdu self data_set = tlv 0x61 (pdu_fields self data_set)

-- What the sizes rest on: no text and no contents of length 65535, a time of eight octets, and a PDU
-- that a `uint32_t` can count.
pub record IsPublishable (self : GoosePublisher) (data_set : List (Option MmsValue)) : Type 0 where
  pub entries : EntriesWellSized data_set
  pub time : 8 ≤ length self.timestamp
  pub cb_ref : length (characters self.go_cb_ref) ≢ 65535
  pub set_ref : length (characters self.data_set_ref) ≢ 65535
  pub id : length (characters (go_id_or_cb_ref self)) ≢ 65535
  pub contents : length (data_set_octets data_set) ≢ 65535
  pub total : length (pdu_fields self data_set) ≢ 65535
  pub countable : length (goose_pdu self data_set) < 2 ^ 32

encode_goose_pdu-Writes :
    (self : GoosePublisher) (data_set : List (Option MmsValue))
    → IsPublishable self data_set
    → Writes
        (encode_goose_pdu self data_set
          (length (pdu_fields self data_set))
          (length (data_set_octets data_set)))
        (goose_pdu self data_set)
unfolding encode_goose_pdu goose_pdu pdu_fields
encode_goose_pdu-Writes self data_set h =
    Writes-then _ _ _ _ (encode_tl-Writes 0x61 (length (pdu_fields self data_set))) (
      Writes-then _ _ _ _ (encode_string_with_tag-Writes 0x80 self.go_cb_ref) (
        Writes-then _ _ _ _ (encode_uint32_with_tl-Writes 0x81 self.time_allowed_to_live) (
          Writes-then _ _ _ _ (encode_string_with_tag-Writes 0x82 self.data_set_ref) (
            Writes-then _ _ _ _ (encode_string_with_tag-Writes 0x83 (go_id_or_cb_ref self)) (
              Writes-then _ _ _ _ (encode_octet_string-Writes 0x84 8 self.timestamp h.time) (
                Writes-then _ _ _ _ (encode_uint32_with_tl-Writes 0x85 self.st_num) (
                  Writes-then _ _ _ _ (encode_uint32_with_tl-Writes 0x86 self.sq_num) (
                    Writes-then _ _ _ _ (encode_boolean-Writes 0x87 self.simulation) (
                      Writes-then _ _ _ _ (encode_uint32_with_tl-Writes 0x88 self.conf_rev) (
                        Writes-then _ _ _ _ (encode_boolean-Writes 0x89 self.needs_commission) (
                          Writes-then _ _ _ _
                            (encode_uint32_with_tl-Writes 0x8a (u32 (length data_set)))
                            (Writes-then _ _ _ _
                              (encode_tl-Writes 0xab (length (data_set_octets data_set)))
                              (encode_data_set-Writes data_set h.entries)))))))))))))

-- The sum that step 1 of createGoosePayload forms.
field_sizes : GoosePublisher → List (Option MmsValue) → ℕ
field_sizes self data_set =
    determine_encoded_string_size self.go_cb_ref
    + (2 + length (uint32_octets self.time_allowed_to_live))
    + determine_encoded_string_size self.data_set_ref
    + determine_encoded_string_size (go_id_or_cb_ref self)
    + (2 + 8)
    + (2 + length (uint32_octets self.sq_num))
    + (2 + length (uint32_octets self.st_num))
    + (2 + length (uint32_octets self.conf_rev))
    + 6
    + (2 + length (uint32_octets (u32 (length data_set))))
    + (length (data_set_octets data_set)
        + determine_length_size (length (data_set_octets data_set))
        + 1)

length-pdu_fields :
    (self : GoosePublisher) (data_set : List (Option MmsValue))
    → IsPublishable self data_set
    → length (pdu_fields self data_set) ≡ field_sizes self data_set
unfolding pdu_fields field_sizes length_octets
length-pdu_fields self data_set h = simp length-append (
    omega (
      arith,
      string_size 0x80 self.go_cb_ref h.cb_ref,
      length-append (length_octets (length (characters self.go_cb_ref)))
          (characters self.go_cb_ref),
      string_size 0x82 self.data_set_ref h.set_ref,
      length-append (length_octets (length (characters self.data_set_ref)))
          (characters self.data_set_ref),
      string_size 0x83 (go_id_or_cb_ref self) h.id,
      length-append (length_octets (length (characters (go_id_or_cb_ref self))))
          (characters (go_id_or_cb_ref self)),
      length-take 8 self.timestamp,
      length-length_octets (length (data_set_octets data_set)) h.contents,
    ))

-- Below 2 ^ 32 the arithmetic of step 1 does not wrap.
sizes_exact :
    (self : GoosePublisher) (data_set : List (Option MmsValue))
    → IsPublishable self data_set
    → let d = length (data_set_octets data_set) in
      (u32 d ≡ d)
      × (u32 (d + determine_length_size d + 1) ≡ d + determine_length_size d + 1)
      × (u32 (field_sizes self data_set) ≡ length (pdu_fields self data_set))
      × (u32 (
            1
            + determine_length_size (length (pdu_fields self data_set))
            + length (pdu_fields self data_set))
          ≡ length (goose_pdu self data_set))
unfolding goose_pdu field_sizes
sizes_exact self data_set h =
    let whole = length-pdu_fields self data_set h in
    let outer = length-tlv 0x61 (pdu_fields self data_set) h.total in
    (omega arith, omega arith, omega arith, omega arith)

-- For a data set that `IsPublishable` allows, the function returns -1 without writing where the
-- PDU is longer than the space, and else writes exactly the octets of the PDU: the sizes added
-- up beforehand are those of the fields written.
pub create_goose_payload-pdu :
    (self : GoosePublisher) (data_set : List (Option MmsValue)) (max_payload_size : ℕ) (c : Cursor)
    → IsPublishable self data_set
    → create_goose_payload self data_set max_payload_size c ≡ (
        if ltb max_payload_size (length (goose_pdu self data_set))
        then failed
        else put_all (goose_pdu self data_set) c)
unfolding create_goose_payload field_sizes
create_goose_payload-pdu self data_set max_payload_size c h =
    let (e1, e2, e3, e4) = sizes_exact self data_set h in
    rw
      (
        uint32_determine_encoded_size_lem self.time_allowed_to_live,
        uint32_determine_encoded_size_lem self.sq_num,
        uint32_determine_encoded_size_lem self.st_num,
        uint32_determine_encoded_size_lem self.conf_rev,
        uint32_determine_encoded_size_lem (u32 (length data_set)),
        data_set_size-octets data_set h.entries,
        e1,
        e2,
        e3,
        e4,
        encode_goose_pdu-Writes self data_set h c,
      )
      refl
