-- ===== src/Ber/Encoder/Strings.antt =====
-- The other encoders of mms/asn1/ber_encoder.cc: tag, length octets and contents.
use grid_goose_sv.Prelude.{
  ℕ, ◌+◌, ◌≤◌, ◌≡◌, ◌≢◌, refl, sym, ap, ◌∙◌, arith, List, [], ◌∷◌, ◌++◌, if◌then◌else◌, length,
  take, Bool, Option, none, some, ◌>>=◌, length-append,
}
use grid_goose_sv.Memory.{put, put_all, Writes, Writes-then, put-Writes}
use grid_goose_sv.Ber.Length.{
  encode_length, encode_tl, determine_length_size, length_octets, encode_length-Writes,
  length-length_octets,
}
use grid_goose_sv.Ber.Primitive.{Asn1PrimitiveValue}
use grid_goose_sv.Ber.Encoder.Integers.{copy_bytes-Writes}
use grid_goose_sv.Ber.Encoder.{
  copy_bytes, encode_boolean, encode_string_with_tag, encode_octet_string,
  determine_encoded_string_size, encode_asn1_primitive_value,
}

-- Tag, length octets, contents.
abbrev pub tlv : ℕ → List ℕ → List ℕ
tlv tag contents = tag ∷ (length_octets (length contents) ++ contents)

pub encode_tl-Writes : (tag n : ℕ) → Writes (encode_tl tag n) (tag ∷ length_octets n)
unfolding encode_tl
encode_tl-Writes tag n =
    Writes-then (put tag) (encode_length n) (tag ∷ []) (length_octets n) (put-Writes tag)
      (encode_length-Writes n)

-- `n` bytes of an array behind a tag and their length.
contents-Writes :
    (tag n : ℕ) (source : List ℕ)
    → n ≤ length source
    → Writes
        (λ c. put tag c >>= λ d. encode_length n d >>= copy_bytes n 0 source)
        (tag ∷ (length_octets n ++ take n source))
contents-Writes tag n source h =
    Writes-then (put tag) (λ d. encode_length n d >>= copy_bytes n 0 source) (tag ∷ [])
      (length_octets n ++ take n source) (put-Writes tag)
      (Writes-then (encode_length n) (copy_bytes n 0 source) (length_octets n) (take n source)
        (encode_length-Writes n) (copy_bytes-Writes n 0 source (omega arith)))

take-length : (xs : List ℕ) → take (length xs) xs ≡ xs
take-length [] = refl
take-length (x ∷ xs) = ap (λ t. x ∷ t) (take-length xs)

pub encode_boolean-Writes :
    (tag : ℕ) (value : Bool)
    → Writes (encode_boolean tag value) (tag ∷ 1 ∷ (if value then 1 else 0) ∷ [])
unfolding encode_boolean put_all put
encode_boolean-Writes tag value c = ground arith

-- The characters of a C string that may be NULL.
abbrev pub characters : Option (List ℕ) → List ℕ
characters none = []
characters (some string) = string

-- A string is written behind its tag and length; NULL is written as the empty string.
pub encode_string_with_tag-Writes :
    (tag : ℕ) (string : Option (List ℕ))
    → Writes (encode_string_with_tag tag string) (tlv tag (characters string))
unfolding encode_string_with_tag
encode_string_with_tag-Writes tag none c =
    unfold length_octets in
    Writes-then (put tag) (put 0) (tag ∷ []) (0 ∷ []) (put-Writes tag) (put-Writes 0) c
encode_string_with_tag-Writes tag (some string) c =
    contents-Writes tag (length string) string (omega arith) c
    ∙ ap (λ t. put_all (tag ∷ (length_octets (length string) ++ t)) c) (take-length string)

-- What is reserved for a string is what is written.
pub length-tlv :
    (tag : ℕ) (contents : List ℕ)
    → (length contents ≡ 65535 → ⊥)
    → length (tlv tag contents) ≡ 1 + determine_length_size (length contents) + length contents
length-tlv tag contents h = omega (
  arith,
  length-length_octets (length contents) h,
  length-append (length_octets (length contents)) contents,
)

pub encode_octet_string-Writes :
    (tag n : ℕ) (octets : List ℕ)
    → n ≤ length octets
    → Writes (encode_octet_string tag octets n) (tag ∷ (length_octets n ++ take n octets))
unfolding encode_octet_string
encode_octet_string-Writes tag n octets h = contents-Writes tag n octets h

pub encode_asn1_primitive_value-Writes :
    (tag : ℕ) (value : Asn1PrimitiveValue)
    → value.size ≤ length value.octets
    → Writes
        (encode_asn1_primitive_value tag value)
        (tag ∷ (length_octets value.size ++ take value.size value.octets))
unfolding encode_asn1_primitive_value
encode_asn1_primitive_value-Writes tag value h = contents-Writes tag value.size value.octets h

-- The size that is reserved for a string with its tag is that of the encoding, for every string
-- whose length is not 65535, and for NULL.
pub string_size :
    (tag : ℕ) (s : Option (List ℕ))
    → length (characters s) ≢ 65535
    → determine_encoded_string_size s ≡ length (tlv tag (characters s))
unfolding determine_encoded_string_size
string_size tag none h = unfold length_octets in refl
string_size tag (some xs) h = sym (length-tlv tag xs h)
