-- ===== src/App/Types.antt =====
-- The data of app_ctrl.h.
use tv_cast.Prelude.{ℕ, Bool, false, [], Bytes, Option, none}
use tv_cast.Http.Url
use tv_cast.Http.Url.{Url}

-- `DeviceNotification::Type`
pub data NotificationType : Type 0 where
  init discover alive : NotificationType

pub record DeviceNotification : Type 0 where
  pub kind : NotificationType
  pub ttl : ℕ
  pub remote : Bytes
  pub sid : Bytes
  pub v1_url : Url
  pub v2_url : Url

abbrev pub empty_notification : DeviceNotification
empty_notification = record {
  kind = NotificationType.init;
  ttl = 0;
  remote = [];
  sid = [];
  v1_url = Url.empty;
  v2_url = Url.empty;
}

pub record DeviceInfo : Type 0 where
  pub stopped : Bool
  pub paused : Bool
  pub buffering : Bool
  pub position : ℕ
  pub duration : ℕ
  pub timestamp : ℕ
  pub platform : Bytes
  pub year : Bytes
  pub version : Bytes
  pub firmware : Bytes
  pub model_id : Bytes
  pub real_model : Bytes

abbrev pub empty_info : DeviceInfo
empty_info = record {
  stopped = false;
  paused = false;
  buffering = false;
  position = 0;
  duration = 0;
  timestamp = 0;
  platform = [];
  year = [];
  version = [];
  firmware = [];
  model_id = [];
  real_model = [];
}

-- `RssCommand` with its two subclasses; `timestamp` is the time of construction.
pub data CommandKind : Type 0 where
  empty_command : CommandKind
  play_command : Bytes → CommandKind

pub record RssCommand : Type 0 where
  pub kind : CommandKind
  pub timestamp : ℕ
  pub send : Bool

-- `EmptyCommand()` and `PlayCommand(url)` at time `now`.
abbrev pub new_command : CommandKind → ℕ → RssCommand
new_command kind now = record { kind = kind; timestamp = now; send = false }

-- `ApplicationController`; a session is named by its id.
pub record App : Type 0 where
  pub notification : DeviceNotification
  pub notification_received : Bool
  pub device_info : DeviceInfo
  pub device_ready : Bool
  pub loop_session : Option ℕ
  pub current_command : RssCommand

-- The constructor, at time `now`.
abbrev pub new_app : ℕ → App
new_app now = record {
  notification = empty_notification;
  notification_received = false;
  device_info = empty_info;
  device_ready = false;
  loop_session = none;
  current_command = new_command empty_command now;
}
