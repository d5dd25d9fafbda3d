-- ===== src/App/DeviceInfo.antt =====
-- `UpdateDeviceInfo` and the reading of a VideoList request into a `DeviceInfo`.
pub mod Values
use tv_cast.Prelude.{
  ℕ, Bool, true, false, [], if◌then◌else◌, Bytes, codes, bytes_eq, Result, ok, ◌>>=◌,
}
use tv_cast.Http.Url.{Url, get_query_parameter}
use tv_cast.App.Types.{DeviceInfo, empty_info}

-- `ToBool`
unfoldable pub to_bool : Bytes → Bool
to_bool str = bytes_eq (codes "true") str

-- The conversion of a `bool` to a `uint32_t`.
abbrev pub bool_uint32 : Bool → ℕ
bool_uint32 true = 1
bool_uint32 false = 0

-- The three overloads: `value` stays if the parameter is empty, and `at` throws if it is missing.
unfoldable pub update_bool : Bool → Bytes → Url → Result Bool
update_bool value key url = do
  value_str ← get_query_parameter key url
  ok (if bytes_eq value_str [] then value else to_bool value_str)

unfoldable pub update_uint32 : ℕ → Bytes → Url → Result ℕ
update_uint32 value key url = do
  value_str ← get_query_parameter key url
  ok (if bytes_eq value_str [] then value else bool_uint32 (to_bool value_str))

unfoldable pub update_string : Bytes → Bytes → Url → Result Bytes
update_string value key url = do
  value_str ← get_query_parameter key url
  ok (if bytes_eq value_str [] then value else value_str)

-- The twelve calls at the head of `HandleVideoListRequest`.
unfoldable pub read_device_info : Url → Result DeviceInfo
read_device_info url = do
  stopped ← update_bool empty_info.stopped (codes "stopped") url
  paused ← update_bool empty_info.paused (codes "paused") url
  buffering ← update_bool empty_info.buffering (codes "buffering") url
  position ← update_uint32 empty_info.position (codes "position") url
  duration ← update_uint32 empty_info.duration (codes "duration") url
  timestamp ← update_uint32 empty_info.timestamp (codes "timestamp") url
  platform ← update_string empty_info.platform (codes "platform") url
  year ← update_string empty_info.year (codes "year") url
  version ← update_string empty_info.version (codes "version") url
  firmware ← update_string empty_info.firmware (codes "firmware") url
  model_id ← update_string empty_info.model_id (codes "modelid") url
  real_model ← update_string empty_info.real_model (codes "realmodel") url
  ok (record {
    stopped = stopped;
    paused = paused;
    buffering = buffering;
    position = position;
    duration = duration;
    timestamp = timestamp;
    platform = platform;
    year = year;
    version = version;
    firmware = firmware;
    model_id = model_id;
    real_model = real_model;
  })
