-- ===== src/Tests/Service.antt =====
-- The application: notifications, and requests for the video list.
use tv_cast.Prelude.{
  ◌≡◌, ◌≢◌, ◌⊎◌, refl, arith, List, [], ◌∷◌, ◌++◌, some, true, false, Bytes, codes, lookup, insert,
  bytes_eq, bytes_lt, to_string, int_string, memcpy_at, at, ok, err, out_of_range,
}
use tv_cast.Http.Packet
use tv_cast.Http.Packet.{
  Packet, request, method_get, serialize, header_block, start_string, assemble, copy_to, endl,
  get_status_name,
}
use tv_cast.Http.Tables.{name_in, status_map}
use tv_cast.Http.Query.{parse_query, store, scan, step}
use tv_cast.Http.Url
use tv_cast.Http.Url.{Url, of_string, parse, get_string, is_set, get_query_parameter}
use tv_cast.Http.Url.Values.{get_query_parameter-of_string}
use tv_cast.App.Types.{App, NotificationType, new_app, DeviceNotification, empty_notification}
use tv_cast.App.Notification.{
  parse_device_notification, or_default, convert_to_type, parse_type, parse_v2, parse_rest,
  update_v1, update_ttl, update_remote, update_sid,
}
use tv_cast.App.Notification.Accepts.{IsAlive, SameData, parse_device_notification-IsAlive}
use tv_cast.App.Command.{create_rss_packet, update_tree}
use tv_cast.App.DeviceInfo.{read_device_info, update_bool, update_uint32, update_string, to_bool}
use tv_cast.App.DeviceInfo.Values.{info_of, read_device_info-missing, read_device_info-values}
use tv_cast.App.Requests.{
  response_video_list, respond_to, write_response, video_list_packet, get_config_packet, host_field,
  send_get_config_request,
}
use tv_cast.App.Controller.{
  handle_udp_data, handle_video_list_request, is_request, handle_loop_packet, route_request,
}
use tv_cast.App.Controller.Udp.{handle_all, handle_all-once, Passed, Answered}
use tv_cast.App.Controller.Video.{video_list_bytes, Routed, handle_loop_packet-cases}
use tv_cast.Tests.Setup.{lib, boost, net, sessions, alive_tree, Sent}

abbrev pub target : Bytes
target =
    codes
      "/videoList.xml?stopped=true&paused=false&buffering=no&position=12&duration=true&timestamp=7&platform=p&year=2016&version=1&firmware=2&modelid=m&realmodel=r"

-- The URL that `target` is parsed to.
abbrev pub url : Url
url = record Url.empty {
  path = codes "/videoList.xml";
  query =
      codes
        "stopped=true&paused=false&buffering=no&position=12&duration=true&timestamp=7&platform=p&year=2016&version=1&firmware=2&modelid=m&realmodel=r";
  query_parameters =
      (codes "buffering", codes "no")
      ∷ (codes "duration", codes "true")
      ∷ (codes "firmware", codes "2")
      ∷ (codes "modelid", codes "m")
      ∷ (codes "paused", codes "false")
      ∷ (codes "platform", codes "p")
      ∷ (codes "position", codes "12")
      ∷ (codes "realmodel", codes "r")
      ∷ (codes "stopped", codes "true")
      ∷ (codes "timestamp", codes "7")
      ∷ (codes "version", codes "1")
      ∷ (codes "year", codes "2016")
      ∷ [];
}

pub of_string-target : of_string lib target ≡ ok url
unfolding of_string parse get_string is_set parse_query store scan step insert bytes_eq bytes_lt
of_string-target = refl

abbrev pub values : Bytes → Bytes
values key = or_default [] (lookup key url.query_parameters)

-- The message that asks for it, and what the application is behind it.
abbrev pub get_target : Packet
get_target = record Packet.empty {
  http_major = 1;
  http_minor = 1;
  method = method_get;
  kind = request;
  url = target;
}

abbrev answered : App
answered = record (new_app 5) {
  loop_session = some 3;
  device_info = info_of values;
  current_command = record (new_app 5).current_command { send = true };
}

read_device_info-values_example : read_device_info url ≡ ok (info_of values)
unfolding lookup bytes_eq
read_device_info-values_example =
    read_device_info-values lib target of_string-target values (ground arith)

read_device_info-missing_example : read_device_info Url.empty ≡ err out_of_range
unfolding lookup
read_device_info-missing_example = read_device_info-missing Url.empty refl

get_query_parameter-of_string_example : codes "2016" ≢ []
unfolding get_query_parameter lookup bytes_eq
get_query_parameter-of_string_example =
    get_query_parameter-of_string lib target (codes "year") of_string-target refl

answers :
    handle_loop_packet lib boost sessions 3 get_target (new_app 5) []
    ≡ ok (answered, (3, video_list_bytes (codes "<rss/>")) ∷ [])
unfolding handle_loop_packet serialize assemble copy_to start_string to_string memcpy_at
    header_block of_string bytes_eq get_string handle_video_list_request read_device_info
    update_bool get_query_parameter lookup parse_query store create_rss_packet update_tree
    is_request route_request to_bool update_string update_uint32 respond_to response_video_list
    video_list_packet write_response get_status_name scan step name_in status_map is_set parse
    int_string at insert bytes_lt
answers = refl

handle_loop_packet-cases_example :
    Routed lib boost sessions get_target
      (record (new_app 5) { loop_session = some 3 })
      []
      answered
      ((3, video_list_bytes (codes "<rss/>")) ∷ [])
handle_loop_packet-cases_example =
    handle_loop_packet-cases lib boost sessions 3 get_target (new_app 5) [] answers

-- A notification whose V2 URI is "/api/v2/a/b/cd?x=y".
abbrev pub noted : DeviceNotification
noted = record empty_notification {
  kind = NotificationType.alive;
  v2_url = record Url.empty {
    path = codes "/api/v2/a/b/cd";
    query = codes "x=y";
    query_parameters = (codes "x", codes "y") ∷ [];
  };
}

pub noticed : parse_device_notification lib boost alive_tree empty_notification ≡ ok (true, noted)
unfolding parse_device_notification bytes_eq lookup parse_type convert_to_type parse_v2 parse
    parse_rest update_v1 update_sid update_remote update_ttl get_string parse_query store scan step
    insert
noticed = refl

parse_device_notification-IsAlive_example :
    ((true ≡ true) × IsAlive boost alive_tree)
    ⊎ ((true ≡ false) × (¬ IsAlive boost alive_tree) × SameData empty_notification noted)
parse_device_notification-IsAlive_example =
    parse_device_notification-IsAlive lib boost alive_tree empty_notification noticed

-- A datagram that is no notification, then two that are.
abbrev datagrams : List Bytes
datagrams = codes "x" ∷ codes "{" ∷ codes "{" ∷ []

-- The application and the network behind them.
abbrev informed : App
informed = record (new_app 5) { notification = noted; notification_received = true }

abbrev pub config_bytes : Bytes
config_bytes =
    codes "GET /api/v2/a/b/cd HTTP/1.1"
    ++ endl
    ++ codes "Accept: */*"
    ++ endl
    ++ codes "Accept-Encoding: gzip, deflate"
    ++ endl
    ++ codes "Connection: keep-alive"
    ++ endl
    ++ codes "Content-Type: application/json"
    ++ endl
    ++ codes "Host: "
    ++ endl
    ++ codes "User-Agent: Dalvik/2.1.0 (Linux;)"
    ++ endl
    ++ endl

abbrev requested : Sent
requested = (7, config_bytes) ∷ []

handled : handle_all lib boost net datagrams (new_app 5) [] ≡ ok (informed, requested)
unfolding handle_udp_data parse_device_notification bytes_eq lookup parse_type convert_to_type
    parse_v2 parse parse_rest update_v1 send_get_config_request serialize get_config_packet assemble
    copy_to start_string update_sid update_remote update_ttl host_field get_status_name header_block
    parse_query scan step store name_in status_map get_string is_set memcpy_at int_string insert
    bytes_lt to_string
handled = refl

handle_all-once_example :
    Passed lib boost net (new_app 5) [] informed requested
    ⊎ ((before : List Bytes) × (b : Bytes) × (after : List Bytes) × (datagrams
          ≡ before ++ (b ∷ after))
        × Answered lib boost net b [] informed requested)
handle_all-once_example = handle_all-once lib boost net datagrams (new_app 5) [] refl handled
