-- ===== src/Goose/Subscriber.antt =====
-- goose/goose_subscriber.cc and goose/goose_receiver_internal.h: the subscriber. Its getters return
-- its fields. The strings are arrays of 130 octets; `app_id` is `none` for -1, and `has_listener` says
-- whether a listener is set.
use grid_goose_sv.Prelude.{
  ℕ, zero, suc, List, [], ◌∷◌, ◌++◌, length, take, replicate, reverse, Bool, true, false, not, ltb,
  if◌then◌else◌, Option, none, some, Outcome,
}
use grid_goose_sv.Mms.Value.{MmsValue}
use grid_goose_sv.Mms.UtcTime.{get_utc_time_in_ms}
use grid_goose_sv.Ber.Bytes.{le_bytes}

pub data GooseParseError : Type 0 where
  no_error unknown_tag tag_decode sub_level overflow underflow type_mismatch length_mismatch :
      GooseParseError

pub record GooseSubscriber : Type 0 where
  pub go_cb_ref : List ℕ
  pub dat_set : List ℕ
  pub go_id : List ℕ
  pub go_cb_ref_len : ℕ
  pub time_allowed_to_live : ℕ
  pub st_num : ℕ
  pub sq_num : ℕ
  pub conf_rev : ℕ
  pub timestamp : List ℕ
  pub simulation : Bool
  pub nds_com : Bool
  pub invalidity_time : ℕ
  pub state_valid : Bool
  pub parse_error : GooseParseError
  pub src_mac : List ℕ
  pub dst_mac : List ℕ
  pub app_id : Option ℕ
  pub data_set_values : Option MmsValue
  pub data_set_values_self_allocated : Bool
  pub dst_mac_set : Bool
  pub is_observer : Bool
  pub has_listener : Bool

abbrev pub name_size : ℕ
name_size = 130

-- MmsValue_newUtcTime
unfoldable pub new_utc_time : ℕ → List ℕ
new_utc_time timeval = reverse (le_bytes 4 timeval) ++ replicate 4 0

-- StringUtils_copyStringMax into an array of zero octets.
unfoldable pub copy_string_max : ℕ → List ℕ → List ℕ
copy_string_max zero str = []
copy_string_max (suc n) [] = replicate (suc n) 0
copy_string_max (suc zero) (c ∷ str) = 0 ∷ []
copy_string_max (suc (suc n)) (c ∷ str) = c ∷ copy_string_max (suc n) str

abbrev pub is_null : Option MmsValue → Bool
is_null none = true
is_null (some v) = false

-- GooseSubscriber_create
unfoldable pub create_subscriber : List ℕ → Option MmsValue → GooseSubscriber
create_subscriber go_cb_ref data_set_values = record {
  go_cb_ref = copy_string_max name_size go_cb_ref;
  dat_set = replicate name_size 0;
  go_id = replicate name_size 0;
  go_cb_ref_len = length go_cb_ref;
  time_allowed_to_live = 0;
  st_num = 0;
  sq_num = 0;
  conf_rev = 0;
  timestamp = new_utc_time 0;
  simulation = false;
  nds_com = false;
  invalidity_time = 0;
  state_valid = false;
  parse_error = GooseParseError.no_error;
  src_mac = replicate 6 0;
  dst_mac = replicate 6 0xff;
  app_id = none;
  data_set_values = data_set_values;
  data_set_values_self_allocated = is_null data_set_values;
  dst_mac_set = false;
  is_observer = false;
  has_listener = false;
}

-- GooseSubscriber_isValid, at the time `now` in milliseconds.
unfoldable pub is_valid : GooseSubscriber → ℕ → Bool
is_valid self now =
    if not self.state_valid then false else if ltb self.invalidity_time now then false else true

-- GooseSubscriber_setDstMac
unfoldable pub set_dst_mac : GooseSubscriber → List ℕ → GooseSubscriber
set_dst_mac self dst_mac = record self { dst_mac = take 6 dst_mac; dst_mac_set = true }

-- GooseSubscriber_setAppId
unfoldable pub set_app_id : GooseSubscriber → ℕ → GooseSubscriber
set_app_id self app_id = record self { app_id = some app_id }

-- GooseSubscriber_setListener
unfoldable pub set_listener : GooseSubscriber → GooseSubscriber
set_listener self = record self { has_listener = true }

-- GooseSubscriber_setObserver
unfoldable pub set_observer : GooseSubscriber → GooseSubscriber
set_observer self = record self { is_observer = true }

-- GooseSubscriber_getTimestamp
unfoldable pub get_timestamp : GooseSubscriber → Outcome ℕ
get_timestamp self = get_utc_time_in_ms self.timestamp
