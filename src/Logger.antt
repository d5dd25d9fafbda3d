-- ===== src/Logger.antt =====
-- The logger of common/logger.h and logger.cc: the class `LOG`, which stands in where the program is
-- built without glog, and the flags that `InitLogger` sets where it is built with it.
pub mod Statement
use tv_cast.Prelude.{
  ℕ, Bool, true, false, leb, ◌&&◌, if◌then◌else◌, List, [], ◌∷◌, ◌++◌, Option, none, some, Bytes,
  codes, Result, ok, err, undefined_behaviour,
}

pub data LogLevel : Type 0 where
  info : LogLevel
  warning : LogLevel
  error : LogLevel

-- The value of an enumerator.
abbrev pub level_value : LogLevel → ℕ
level_value info = 0
level_value warning = 1
level_value error = 2

-- `LOG`; `none` is a member that no constructor has given a value.
pub record Log : Type 0 where
  pub opened : Option Bool
  pub msg_level : LogLevel

-- `GetLabel`
unfoldable pub get_label : LogLevel → Bytes
get_label info = codes "INFO"
get_label warning = codes "WARN"
get_label error = codes "ERROR"

-- `LOG()`
abbrev pub new : Log
new = record { opened = some false; msg_level = info }

-- `kMsgLevel >= kCurrentLogLevel`, for this current level.
abbrev pub is_on : LogLevel → Log → Bool
is_on current log = leb (level_value current) (level_value log.msg_level)

-- `operator<<`, with what has been written to `std::cout`.
unfoldable pub append : LogLevel → Bytes → Log × Bytes → Log × Bytes
append current msg (log, out) =
    if is_on current log then (record log { opened = some true }, out ++ msg) else (log, out)

-- `LOG(level)`
unfoldable pub with_level : LogLevel → LogLevel → Bytes → Log × Bytes
unfolding append get_label
with_level current level out =
    append current (codes "[" ++ (get_label level ++ codes "] "))
      (record { opened = none; msg_level = level }, out)

-- The test of `opened_` in `~LOG()`; reading it without a value has no defined behaviour.
unfoldable pub end_line : LogLevel → Option Bool → Log × Bytes → Result Bytes
end_line current none (log, out) = err undefined_behaviour
end_line current (some opened) (log, out) =
    ok (if opened && is_on current log then out ++ codes "\n" else out)

-- `~LOG()`
unfoldable pub destroy : LogLevel → Log × Bytes → Result Bytes
unfolding end_line
destroy current (log, out) = end_line current log.opened (log, out)

-- `LOG(level) << a << b;`, from the constructor to the destructor.
unfoldable pub append_all : LogLevel → List Bytes → Log × Bytes → Log × Bytes
unfolding append
append_all current [] s = s
append_all current (msg ∷ msgs) s = append_all current msgs (append current msg s)

-- The flags of glog.
pub record Flags : Type 0 where
  pub logtostderr : Bool
  pub minloglevel : ℕ
  pub colorlogtostderr : Bool
  pub log_prefix : Bool
  pub v : ℕ

-- `InitLogger`, up to `InitGoogleLogging`
abbrev pub init_logger : Flags → Flags
init_logger flags = record {
  logtostderr = true;
  minloglevel = 0;
  colorlogtostderr = true;
  log_prefix = false;
  v = 0;
}
