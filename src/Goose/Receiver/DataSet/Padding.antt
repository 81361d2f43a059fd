-- ===== src/Goose/Receiver/DataSet/Padding.antt =====
-- The padding octets of the bit strings that parseAllData of goose/goose_receiver.cc reads. The code
-- takes any octet for the number of unused bits, and with 8 or more it copies more octets than the
-- array of the value has.
use grid_goose_sv.Prelude.{ℕ, ◌+◌, ◌*◌, ◌<◌, ◌≡◌, List, drop, ok}
use grid_goose_sv.Memory.{read}
use grid_goose_sv.Ber.Decoder.{decode_length}
use grid_goose_sv.Mms.Value.{MmsValue, Components}

unfoldable mutual
  -- In the element at `pos` of `n` octets, for the value, the padding octet of a bit string that is
  -- taken is less than 8; and so in the elements inside it.
  pub Padded : MmsValue → ℕ → List ℕ → ℕ → ℕ → Type 0
  Padded (MmsValue.array cs) tag buffer pos n = AllPadded cs (drop pos buffer) 0 n
  Padded (MmsValue.structure cs) tag buffer pos n = AllPadded cs (drop pos buffer) 0 n
  Padded (MmsValue.bit_string size bits) tag buffer pos n =
      tag ≡ 0x84
      → (padding : ℕ) → read buffer pos ≡ ok padding
      → size + 8 + padding ≡ 8 * n
      → padding < 8
  Padded (MmsValue.boolean b) tag buffer pos n = Unit
  Padded (MmsValue.integer v) tag buffer pos n = Unit
  Padded (MmsValue.unsigned v) tag buffer pos n = Unit
  Padded (MmsValue.float exponent_width format_width octets) tag buffer pos n = Unit
  Padded (MmsValue.octet_string size max_size octets) tag buffer pos n = Unit
  Padded (MmsValue.visible_string s size) tag buffer pos n = Unit
  Padded (MmsValue.mms_string s size) tag buffer pos n = Unit
  Padded (MmsValue.binary_time size octets) tag buffer pos n = Unit
  Padded (MmsValue.utc_time octets) tag buffer pos n = Unit
  Padded (MmsValue.data_access_error e) tag buffer pos n = Unit
  Padded MmsValue.generalized_time tag buffer pos n = Unit
  Padded MmsValue.bcd tag buffer pos n = Unit
  Padded MmsValue.obj_id tag buffer pos n = Unit

  -- In the elements from `pos` on, for the values one after the other.
  pub AllPadded : Components → List ℕ → ℕ → ℕ → Type 0
  AllPadded Components.nil buffer pos n = Unit
  AllPadded (Components.null_cons cs) buffer pos n = Unit
  AllPadded (Components.cons v cs) buffer pos n =
      (tag p k : ℕ)
      → read buffer pos ≡ ok tag
      → decode_length buffer (pos + 1) n ≡ ok (p, k)
      → Padded v tag buffer p k × AllPadded cs buffer (p + k) n
