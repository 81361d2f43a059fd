-- ===== src/Sv/RoundTrip/PublishedFields.antt =====
-- The fields that SVPublisher_ASDU_encodeToBuffer of sampled_values/sv_publisher.cc writes, in the order
-- in which parseASDU of sampled_values/sv_subscriber.cc meets them.
use grid_goose_sv.Prelude.{
  ℕ, ◌≡◌, refl, List, [], ◌∷◌, ◌++◌, ◌==◌, Bool, true, false, Option, none, some, All,
}
use grid_goose_sv.Ber.Decoder.Fields.{Field}
use grid_goose_sv.Sv.Publisher.{SvAsdu}
use grid_goose_sv.Sv.Publisher.Layout.{uint16_octets, uint32_fixed_octets}
use grid_goose_sv.Sv.RoundTrip.Places.{Found, HasOther, Found-here, Found-later, Found-append}

abbrev pub datset_field : Option (List ℕ) → List Field
datset_field none = []
datset_field (some s) = (0x81, s) ∷ []

abbrev pub time_field : Bool → List ℕ → List Field
time_field true time = (0x84, time) ∷ []
time_field false time = []

abbrev pub optional_field : Bool → ℕ → ℕ → List Field
optional_field true tag v = (tag, uint16_octets v) ∷ []
optional_field false tag v = []

-- The fields of an ASDU from the sample counter on, with the time and the samples put in.
unfoldable pub sample_fields : SvAsdu → List ℕ → List ℕ → List Field
sample_fields a time samples =
    (0x82, uint16_octets a.smp_cnt)
    ∷ (0x83, uint32_fixed_octets a.conf_rev)
    ∷ (time_field a.has_refr_tm time
        ++ ((0x85, a.smp_synch ∷ [])
            ∷ (optional_field a.has_smp_rate 0x86 a.smp_rate
                ++ ((0x87, samples) ∷ optional_field a.has_smp_mod 0x88 a.smp_mod))))

unfoldable pub published_fields : SvAsdu → List ℕ → List ℕ → List Field
published_fields a time samples =
    (0x80, a.sv_id) ∷ (datset_field a.datset ++ sample_fields a time samples)

All-append : (P : Field → Type 0) (xs ys : List Field) → All P xs → All P ys → All P (xs ++ ys)
All-append P [] ys hx hy = hy
All-append P (x ∷ xs) ys hx hy = (hx.0, All-append P xs ys hx.1 hy)

time_field-HasOther :
    (tag : ℕ) (b : Bool) (t : List ℕ) → (0x84 == tag) ≡ false → All (HasOther tag) (time_field b t)
time_field-HasOther tag true t h = (h, tt)
time_field-HasOther tag false t h = tt

optional_field-HasOther :
    (tag : ℕ) (b : Bool) (u v : ℕ) → (u == tag) ≡ false → All (HasOther tag) (optional_field b u v)
optional_field-HasOther tag true u v h = (h, tt)
optional_field-HasOther tag false u v h = tt

module _ (a : SvAsdu) (time samples : List ℕ) where
  pub sample_counter-Found : Found 0x82 (uint16_octets a.smp_cnt) (sample_fields a time samples)
  unfolding sample_fields
  sample_counter-Found = Found-here 0x82 _ _ refl (
    refl,
    All-append _ _ _ (time_field-HasOther 0x82 a.has_refr_tm time refl) (
      refl,
      All-append _ _ _ (optional_field-HasOther 0x82 a.has_smp_rate 0x86 a.smp_rate refl)
          (refl, optional_field-HasOther 0x82 a.has_smp_mod 0x88 a.smp_mod refl),
    ),
  )

  pub conf_rev-Found : Found 0x83 (uint32_fixed_octets a.conf_rev) (sample_fields a time samples)
  unfolding sample_fields
  conf_rev-Found = Found-later 0x83 _ _ _ (
      Found-here 0x83 _ _ refl (
        All-append _ _ _ (time_field-HasOther 0x83 a.has_refr_tm time refl) (
          refl,
          All-append _ _ _ (optional_field-HasOther 0x83 a.has_smp_rate 0x86 a.smp_rate refl)
              (refl, optional_field-HasOther 0x83 a.has_smp_mod 0x88 a.smp_mod refl),
        )))

  pub smp_synch-Found : Found 0x85 (a.smp_synch ∷ []) (sample_fields a time samples)
  unfolding sample_fields
  smp_synch-Found = Found-later 0x85 _ _ _ (
      Found-later 0x85 _ _ _ (
        Found-append 0x85 _ _ _ (
          Found-here 0x85 _ _ refl (
            All-append _ _ _ (optional_field-HasOther 0x85 a.has_smp_rate 0x86 a.smp_rate refl)
              (refl, optional_field-HasOther 0x85 a.has_smp_mod 0x88 a.smp_mod refl)))))

  pub samples-Found : Found 0x87 samples (sample_fields a time samples)
  unfolding sample_fields
  samples-Found = Found-later 0x87 _ _ _ (
      Found-later 0x87 _ _ _ (
        Found-append 0x87 _ _ _ (
          Found-later 0x87 _ _ _ (
            Found-append 0x87 _ _ _ (
              Found-here 0x87 _ _ refl
                (optional_field-HasOther 0x87 a.has_smp_mod 0x88 a.smp_mod refl))))))

  pub sample_fields-HasOther :
      (tag : ℕ)
      → (0x82 == tag) ≡ false
      → (0x83 == tag) ≡ false
      → (0x84 == tag) ≡ false
      → (0x85 == tag) ≡ false
      → (0x86 == tag) ≡ false
      → (0x87 == tag) ≡ false
      → (0x88 == tag) ≡ false
      → All (HasOther tag) (sample_fields a time samples)
  unfolding sample_fields
  sample_fields-HasOther tag h2 h3 h4 h5 h6 h7 h8 = (
    h2,
    (
      h3,
      All-append _ _ _ (time_field-HasOther tag a.has_refr_tm time h4) (
        h5,
        All-append _ _ _ (optional_field-HasOther tag a.has_smp_rate 0x86 a.smp_rate h6)
            (h7, optional_field-HasOther tag a.has_smp_mod 0x88 a.smp_mod h8),
      ),
    ),
  )
