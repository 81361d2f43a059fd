-- ===== src/Sv/Application/Start/Slots.antt =====
-- model/sv-publisher-app.cc: the loop of StartApplication that adds the ASDUs.
use grid_goose_sv.Prelude.{
  ℕ, zero, suc, ◌+◌, ◌≤◌, ◌≡◌, refl, arith, List, [], ◌∷◌, ◌++◌, length, length-append,
  append_assoc, replicate, none, Outcome, ok, lt→ltb, append-nil,
}
use grid_goose_sv.Sv.Publisher.{SvAsdu, SvPublisher, new_asdu, add_asdu}
use grid_goose_sv.Sv.Publisher.Values.{add_float, add_timestamp, add_value}
use grid_goose_sv.Sv.Application.{Slot, at_asdu, add_floats, add_fields, add_slot, add_slots}

-- Eight floating-point numbers and a time.
abbrev pub slot_layout : Slot
slot_layout = record { offsets = 0 ∷ 4 ∷ 8 ∷ 12 ∷ 16 ∷ 20 ∷ 24 ∷ 28 ∷ []; time = 32 }

-- An ASDU with its fields, not encoded yet.
abbrev pub asdu_of : List ℕ → SvAsdu
asdu_of id = record (new_asdu id none 1) { data_size = 40 }

-- The ASDUs from number `j` on.
abbrev pub asdus_of : ℕ → ℕ → (ℕ → List ℕ) → List SvAsdu
asdus_of zero j ids = []
asdus_of (suc left) j ids = asdu_of (ids j) ∷ asdus_of left (suc j) ids

at_asdu-last :
    (xs : List SvAsdu) (a b : SvAsdu) (slot : Slot) (f : SvAsdu → Outcome (SvAsdu × Slot))
    → f a ≡ ok (b, slot)
    → at_asdu (length xs) f (xs ++ (a ∷ [])) ≡ ok (xs ++ (b ∷ []), slot)
unfolding at_asdu
at_asdu-last [] a b slot f e = rw e
at_asdu-last (x ∷ xs) a b slot f e = rw (at_asdu-last xs a b slot f e)

add_fields_lem : (id : List ℕ) → add_fields (new_asdu id none 1) ≡ ok (asdu_of id, slot_layout)
unfolding add_fields add_floats add_float add_timestamp add_value
add_fields_lem id = refl

add_slot_lem :
    (id : List ℕ) (p : SvPublisher)
    → add_slot (length p.asdu_list) id p
      ≡ ok (record p { asdu_list = p.asdu_list ++ (asdu_of id ∷ []) }, slot_layout)
unfolding add_slot add_asdu
add_slot_lem id p = rw (
    at_asdu-last p.asdu_list (new_asdu id none 1) (asdu_of id) slot_layout add_fields
      (add_fields_lem id))

-- With at most eight ASDUs the loop adds them, with their slots.
pub add_slots_lem :
    (left j : ℕ) (ids : ℕ → List ℕ) (p : SvPublisher)
    → length p.asdu_list ≡ j
    → left + j ≤ 8
    → add_slots left j ids p
      ≡ ok (record p { asdu_list = p.asdu_list ++ asdus_of left j ids }, replicate left slot_layout)
unfolding add_slots
add_slots_lem zero j ids p e h = rw (append-nil p.asdu_list)
add_slots_lem (suc left) j ids p e h =
    let larger : SvPublisher = record p { asdu_list = p.asdu_list ++ (asdu_of (ids j) ∷ []) } in
    let added = rw e at (add_slot_lem (ids j) p) in
    let more =
      add_slots_lem left (suc j) ids larger
        (omega (arith, length-append p.asdu_list (asdu_of (ids j) ∷ []))) (omega arith) in
    rw (
      lt→ltb j 8 (omega arith),
      added,
      more,
      append_assoc p.asdu_list (asdu_of (ids j) ∷ []) (asdus_of left (suc j) ids),
    )
