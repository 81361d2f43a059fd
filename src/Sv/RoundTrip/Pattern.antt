-- ===== src/Sv/RoundTrip/Pattern.antt =====
-- The pattern of an ASDU that SVPublisher_ASDU_encodeToBuffer of sampled_values/sv_publisher.cc draws,
-- and the fields that parseASDU of sampled_values/sv_subscriber.cc reads.
use grid_goose_sv.Prelude.{
  ℕ, zero, suc, ◌≡◌, refl, arith, List, [], ◌∷◌, ◌++◌, length, replicate, Bool, true, false, Option,
  none, some, append_assoc,
}
use grid_goose_sv.Memory.{solid}
use grid_goose_sv.Ber.Length.{length_octets}
use grid_goose_sv.Ber.Encoder.Strings.{tlv}
use grid_goose_sv.Ber.Decoder.Fields.{Field, field_octets}
use grid_goose_sv.Sv.Publisher.{SvAsdu}
use grid_goose_sv.Sv.Publisher.Layout.{
  header, datset_pattern, refr_tm_pattern, optional_pattern, asdu_fields, uint16_octets,
  uint32_fixed_octets,
}
use grid_goose_sv.Sv.RoundTrip.PublishedFields.{
  datset_field, time_field, optional_field, sample_fields, published_fields,
}

-- The octets of an array, equal to the pattern's where it has any.
unfoldable pub Fills : List (Option ℕ) → List ℕ → Type 0
Fills [] [] = Unit
Fills [] (b ∷ bs) = ⊥
Fills (o ∷ p) [] = ⊥
Fills (none ∷ p) (b ∷ bs) = Fills p bs
Fills (some x ∷ p) (b ∷ bs) = (x ≡ b) × Fills p bs

Fills-append :
    (p q : List (Option ℕ)) (bs cs : List ℕ) → Fills p bs → Fills q cs → Fills (p ++ q) (bs ++ cs)
unfolding Fills
Fills-append [] q [] cs h k = k
Fills-append [] q (b ∷ bs) cs h k = absurd h
Fills-append (none ∷ p) q [] cs h k = absurd h
Fills-append (some x ∷ p) q [] cs h k = absurd h
Fills-append (none ∷ p) q (b ∷ bs) cs h k = Fills-append p q bs cs h k
Fills-append (some x ∷ p) q (b ∷ bs) cs h k = (h.0, Fills-append p q bs cs h.1 k)

Fills-solid : (bs : List ℕ) → Fills (solid bs) bs
unfolding Fills
Fills-solid [] = tt
Fills-solid (b ∷ bs) = (refl, Fills-solid bs)

Fills-gap : (n : ℕ) (bs : List ℕ) → length bs ≡ n → Fills (replicate n none) bs
unfolding Fills
Fills-gap zero [] h = tt
Fills-gap zero (b ∷ bs) h = absurd (omega arith)
Fills-gap (suc n) [] h = absurd (omega arith)
Fills-gap (suc n) (b ∷ bs) h = Fills-gap n bs (omega arith)

-- A field in front of others.
Fills-field :
    (tag n : ℕ) (p q : List (Option ℕ)) (c : List ℕ) (fs : List Field)
    → length c ≡ n
    → Fills p c
    → Fills q (field_octets fs)
    → Fills (header tag n ++ (p ++ q)) (field_octets ((tag, c) ∷ fs))
unfolding field_octets
Fills-field tag n p q c fs e h k =
    rw (append_assoc (tag ∷ length_octets (length c)) c (field_octets fs), e)
      (Fills-append (header tag n) (p ++ q) (tag ∷ length_octets n) (c ++ field_octets fs)
        (Fills-solid (tag ∷ length_octets n)) (Fills-append p q c (field_octets fs) h k))

Fills-datset :
    (s : Option (List ℕ)) (q : List (Option ℕ)) (fs : List Field)
    → Fills q (field_octets fs)
    → Fills (datset_pattern s ++ q) (field_octets (datset_field s ++ fs))
unfolding field_octets
Fills-datset none q fs h = h
Fills-datset (some s) q fs h =
    Fills-append (solid (tlv 0x81 s)) q (tlv 0x81 s) (field_octets fs) (Fills-solid (tlv 0x81 s)) h

Fills-time :
    (b : Bool) (time : List ℕ) (q : List (Option ℕ)) (fs : List Field)
    → length time ≡ 8
    → Fills q (field_octets fs)
    → Fills (refr_tm_pattern b ++ q) (field_octets (time_field b time ++ fs))
Fills-time false time q fs e h = h
Fills-time true time q fs e h =
    rw (append_assoc (header 0x84 8) (replicate 8 none) q)
      (Fills-field 0x84 8 (replicate 8 none) q time fs e (Fills-gap 8 time e) h)

Fills-optional :
    (b : Bool) (tag v : ℕ) (q : List (Option ℕ)) (fs : List Field)
    → Fills q (field_octets fs)
    → Fills (optional_pattern b tag v ++ q) (field_octets (optional_field b tag v ++ fs))
Fills-optional false tag v q fs h = h
Fills-optional true tag v q fs h = rw (append_assoc (header tag 2) (solid (uint16_octets v)) q) (
    Fills-field tag 2 (solid (uint16_octets v)) q (uint16_octets v) fs refl
      (Fills-solid (uint16_octets v)) h)

Fills-last :
    (b : Bool) (tag v : ℕ)
    → Fills (optional_pattern b tag v) (field_octets (optional_field b tag v))
unfolding field_octets Fills length_octets
Fills-last false tag v = tt
Fills-last true tag v = (refl, (refl, (refl, (refl, tt))))

Fills-name :
    (tag : ℕ) (c : List ℕ) (q : List (Option ℕ)) (fs : List Field)
    → Fills q (field_octets fs)
    → Fills (solid (tlv tag c) ++ q) (field_octets ((tag, c) ∷ fs))
unfolding field_octets
Fills-name tag c q fs h =
    Fills-append (solid (tlv tag c)) q (tlv tag c) (field_octets fs) (Fills-solid (tlv tag c)) h

-- With a time of eight octets and as many samples as the ASDU has room for, the octets of the fields
-- are those of the pattern that the publisher draws, with the time and the samples in its gaps.
pub asdu_fields-Fills :
    (a : SvAsdu) (time samples : List ℕ)
    → length time ≡ 8
    → length samples ≡ a.data_size
    → Fills (asdu_fields a) (field_octets (published_fields a time samples))
unfolding asdu_fields published_fields sample_fields
asdu_fields-Fills a time samples ht hs = Fills-name 0x80 a.sv_id _ _ (
    Fills-datset a.datset _ _ (
      Fills-field 0x82 2 _ _ (uint16_octets a.smp_cnt) _ refl
        (Fills-solid (uint16_octets a.smp_cnt))
        (Fills-field 0x83 4 _ _ (uint32_fixed_octets a.conf_rev) _ refl
          (Fills-solid (uint32_fixed_octets a.conf_rev))
          (Fills-time a.has_refr_tm time _ _ ht (
            Fills-field 0x85 1 _ _ (a.smp_synch ∷ []) _ refl (Fills-solid (a.smp_synch ∷ [])) (
              Fills-optional a.has_smp_rate 0x86 a.smp_rate _ _ (
                Fills-field 0x87 a.data_size _ _ samples _ hs (Fills-gap a.data_size samples hs)
                  (Fills-last a.has_smp_mod 0x88 a.smp_mod))))))))
