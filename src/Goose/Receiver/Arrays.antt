-- ===== src/Goose/Receiver/Arrays.antt =====
-- The arrays of the subscribers of goose/goose_receiver.cc, and the functions of the receiver that go
-- through the list.
use grid_goose_sv.Prelude.{
  ℕ, zero, suc, ◌+◌, ◌≤◌, ◌<◌, ◌≡◌, refl, ap, arith, List, [], ◌∷◌, length, drop, ltb, ◌==◌, Option,
  none, some, Outcome, All, Ensures, Ensures-bind, Ensures-if, length-drop, length-set, lt→ltb,
}
use grid_goose_sv.Ber.Bytes.{store}
use grid_goose_sv.Ber.Decoder.Safety.{memcpy-Ensures, memcmp_equal-Ensures}
use grid_goose_sv.Mms.Value.{MmsValue, Components}
use grid_goose_sv.Goose.Subscriber.{GooseSubscriber}
use grid_goose_sv.Goose.Receiver.{copy_name, match_subscriber, update_at}
use grid_goose_sv.Goose.Receiver.DataSet.Elements.{AllHaveRoom}
use grid_goose_sv.Goose.Receiver.DataSet.Padding.{AllPadded}

abbrev pub Any : {A : Type 0} → A → Type 0
Any a = Unit {0}

-- The arrays of a subscriber: the three names, and the time stamp; the length of its reference is
-- one that fits the array.
pub record HasArrays (s : GooseSubscriber) : Type 0 where
  pub go_cb_ref : length s.go_cb_ref ≡ 130
  pub dat_set : length s.dat_set ≡ 130
  pub go_id : length s.go_id ≡ 130
  pub go_cb_ref_len : s.go_cb_ref_len ≤ 130
  pub timestamp : length s.timestamp ≡ 8

-- A data set that has room for what is received, and that the octets of the buffer, wherever they
-- are taken for it, give less than 8 unused bits for every bit string.
abbrev pub DataSetReady : List ℕ → Components → Type 0
DataSetReady buffer cs = AllHaveRoom cs × ((pos n : ℕ) → AllPadded cs (drop pos buffer) 0 n)

-- The data set is such a container, or none yet.
unfoldable pub HasDataSet : List ℕ → Option MmsValue → Type 0
HasDataSet buffer none = Unit
HasDataSet buffer (some (MmsValue.array cs)) = DataSetReady buffer cs
HasDataSet buffer (some (MmsValue.structure cs)) = DataSetReady buffer cs
HasDataSet buffer (some v) = ⊥

abbrev pub IsReady : List ℕ → GooseSubscriber → Type 0
IsReady buffer s = HasArrays s × HasDataSet buffer s.data_set_values

abbrev pub Ready : List ℕ → List GooseSubscriber → Type 0
Ready buffer subscribers = All (IsReady buffer) subscribers

pub copy_name-Long :
    (name buffer : List ℕ) (buf_pos n : ℕ)
    → length name ≡ 130
    → buf_pos + n ≤ length buffer
    → Ensures (λ out. length out ≡ 130) (copy_name name buffer buf_pos n)
unfolding copy_name store
copy_name-Long name buffer buf_pos n h fits =
    Ensures-if _ (ltb 129 n) _ _ (λ e. h)
      (λ e.
        Ensures-bind (λ out. length out ≡ length name) (λ out. length out ≡ 130) _ _
          (memcpy-Ensures name (drop buf_pos buffer) n (ground arith)
            (omega (arith, length-drop buf_pos buffer)))
          (λ out ho. rw (lt→ltb n (length out) (ground arith)) (omega (arith, length-set out n 0))))

-- The list after a scan, as long as before, and an index inside it.
abbrev pub IndexIn : ℕ → Option ℕ → Type 0
IndexIn n none = Unit
IndexIn n (some i) = i < n

abbrev pub Matched : List ℕ → ℕ → List GooseSubscriber × Option ℕ → Type 0
Matched buffer n r = Ready buffer r.0 × (length r.0 ≡ n) × IndexIn n r.1

shift_index :
    (n : ℕ) (o : Option ℕ)
    → IndexIn n o
    → IndexIn (suc n) (elim o [ none ↦ none | some i ↦ some (suc i) ])
shift_index n none h = tt
shift_index n (some i) h = omega arith

pub match_subscriber-Matched :
    (subscribers : List GooseSubscriber) (buffer : List ℕ) (buf_pos n : ℕ)
    → buf_pos + n ≤ length buffer
    → Ready buffer subscribers
    → Ensures (Matched buffer (length subscribers)) (match_subscriber subscribers buffer buf_pos n)
unfolding match_subscriber
match_subscriber-Matched [] buffer buf_pos n fits h = (tt, refl, tt)
match_subscriber-Matched (s ∷ subscribers) buffer buf_pos n fits h =
    Ensures-if _ s.is_observer _ _
      (λ e.
        Ensures-bind (λ out. length out ≡ 130) (Matched buffer (suc (length subscribers))) _ _
          (copy_name-Long s.go_cb_ref buffer buf_pos n h.0.0.go_cb_ref fits)
          (λ name hn. (
            (
              (
                record {
                  go_cb_ref = hn;
                  dat_set = h.0.0.dat_set;
                  go_id = h.0.0.go_id;
                  go_cb_ref_len = h.0.0.go_cb_ref_len;
                  timestamp = h.0.0.timestamp;
                },
                h.0.1,
              ),
              h.1,
            ),
            refl,
            omega arith,
          )))
      (λ e.
        Ensures-bind Any (Matched buffer (suc (length subscribers))) _ _
          (Ensures-if Any (s.go_cb_ref_len == n) _ _
            (λ e1.
              memcmp_equal-Ensures s.go_cb_ref (drop buf_pos buffer) n
                (ground (arith, h.0.0.go_cb_ref, h.0.0.go_cb_ref_len))
                (omega (arith, length-drop buf_pos buffer)))
            (λ e1. tt))
          λ same hs.
            Ensures-if (Matched buffer (suc (length subscribers))) same _ _
              (λ e1. (h, refl, omega arith))
              (λ e1.
                Ensures-bind (Matched buffer (length subscribers))
                  (Matched buffer (suc (length subscribers))) _ _
                  (match_subscriber-Matched subscribers buffer buf_pos n fits h.1)
                  (λ r hr. ((h.0, hr.0), ap suc hr.1, shift_index (length subscribers) r.1 hr.2))))

-- A change of one subscriber, from one condition to a weaker one.
pub update_at-All :
    (P Q : GooseSubscriber → Type 0) (f : GooseSubscriber → Outcome GooseSubscriber)
    (subscribers : List GooseSubscriber) (i : ℕ)
    → ((s : GooseSubscriber) → P s → Q s)
    → ((s : GooseSubscriber) → P s → Ensures Q (f s))
    → All P subscribers
    → i < length subscribers
    → Ensures (λ r. All Q r × (length r ≡ length subscribers)) (update_at subscribers i f)
unfolding update_at
update_at-All P Q f [] i weaker hf h hi = absurd (omega arith)
update_at-All P Q f (s ∷ subscribers) zero weaker hf h hi =
    Ensures-bind Q _ _ _ (hf s h.0) (λ s' hs. ((hs, all_weaker subscribers h.1), refl))
  where
    all_weaker : (xs : List GooseSubscriber) → All P xs → All Q xs
    all_weaker [] h = tt
    all_weaker (x ∷ xs) h = (weaker x h.0, all_weaker xs h.1)
update_at-All P Q f (s ∷ subscribers) (suc i) weaker hf h hi =
    Ensures-bind (λ r. All Q r × (length r ≡ length subscribers)) _ _ _
      (update_at-All P Q f subscribers i weaker hf h.1 (omega arith))
      (λ r hr. ((weaker s h.0, hr.0), ap suc hr.1))
