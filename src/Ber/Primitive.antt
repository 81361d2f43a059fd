-- ===== src/Ber/Primitive.antt =====
-- mms/asn1/asn1_ber_primitive_value.cc: an integer as the octets of its BER encoding, in an
-- allocation of `max_size` bytes. `size` and `maxSize` are `uint8_t`. The allocator is taken to
-- succeed, so the NULL results are not modelled.
use grid_goose_sv.Prelude.{
  ℕ, zero, suc, ◌%◌, List, [], ◌∷◌, replicate, ◌==◌, if◌then◌else◌, Bool, true, false, Outcome, ok,
  ◌>>=◌, fault,
}

pub record Asn1PrimitiveValue : Type 0 where
  pub size : ℕ
  pub max_size : ℕ
  pub octets : List ℕ

-- Asn1PrimitiveValue_create: one octet, all zero.
unfoldable pub create : ℕ → Asn1PrimitiveValue
create size = record { size = 1; max_size = size % 256; octets = replicate size 0 }

-- `memcpy(to, from, n)` on whole arrays: the first `n` bytes of `to` are replaced.
unfoldable pub memcpy : List ℕ → List ℕ → ℕ → Outcome (List ℕ)
memcpy to from zero = ok to
memcpy [] from (suc n) = fault
memcpy (t ∷ to) [] (suc n) = fault
memcpy (t ∷ to) (f ∷ from) (suc n) = do rest ← memcpy to from n; ok (f ∷ rest)

-- Asn1PrimitiveValue_clone: `malloc` gives bytes that are all overwritten.
unfoldable pub clone : Asn1PrimitiveValue → Outcome Asn1PrimitiveValue
clone self = do
  octets ← memcpy (replicate self.max_size 0) self.octets self.max_size
  ok (record { size = self.size; max_size = self.max_size; octets = octets })

-- `memcmp(a, b, n) == 0`
unfoldable pub memcmp_equal : List ℕ → List ℕ → ℕ → Outcome Bool
memcmp_equal a b zero = ok true
memcmp_equal [] b (suc n) = fault
memcmp_equal (x ∷ a) [] (suc n) = fault
memcmp_equal (x ∷ a) (y ∷ b) (suc n) =
    let rest = memcmp_equal a b n in if x == y then rest else ok false

-- Asn1PrimitivaValue_compare
unfoldable pub compare_values : Asn1PrimitiveValue → Asn1PrimitiveValue → Outcome Bool
compare_values self other =
    if self.size == other.size then memcmp_equal self.octets other.octets self.size else ok false
