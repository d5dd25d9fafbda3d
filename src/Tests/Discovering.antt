-- ===== src/Tests/Discovering.antt =====
-- A device that is found.
use tv_cast.Prelude.{
  ◌≡◌, refl, arith, true, [], ◌∷◌, some, codes, insert, lookup, bytes_eq, to_string, ok, ◌>>=◌,
}
use tv_cast.Http.Packet.{get_status_name}
use tv_cast.Http.Parser.Reading.{status_line, text, fields_text}
use tv_cast.App.Types.{empty_notification}
use tv_cast.App.Notification.{
  parse_device_notification, parse_type, parse_v2, parse_rest, update_v1, update_ttl, update_remote,
  update_sid,
}
use tv_cast.App.Requests.{host_field}
use tv_cast.Http.Url
use tv_cast.Com.{Communication}
use tv_cast.Main.{prepare}
use tv_cast.Main.EventLoop.{at_client, at_udp_server, run}
use tv_cast.Main.Discovering.{IsAsking, IsFound, run-IsFound}
use tv_cast.Tests.Setup.{service, boost, alive_tree}
use tv_cast.Tests.Service.{noted, noticed}
use tv_cast.Tests.RoundTrip.{three_bytes}
use tv_cast.Tests.Serving.{replying, replies}

read_alive :
    parse_device_notification replying boost alive_tree empty_notification ≡ ok (true, noted)
unfolding parse_device_notification parse_type parse_v2 Url.parse parse_rest update_v1 update_ttl
    update_remote update_sid
read_alive = noticed

run-IsFound_example :
    (c : Communication replying boost) × (c' : Communication replying boost) × ((prepare replying
          boost
          (codes "u")
          0
          5
          6
          true
        >>= run replying boost (at_udp_server (some (codes "{")) service ∷ []))
      ≡ ok c)
    × IsAsking replying boost service (codes "u") (codes "{") [] 0 5 6 alive_tree noted c
    × (run replying boost
          (at_client 0 (some [])
            ∷ at_client 0 (
                some
                  (text replying (status_line 200 (codes "Ok")) three_bytes (some (codes "abc"))))
            ∷ [])
          c
        ≡ ok c')
    × IsFound replying boost service (codes "u") (codes "{") [] 0 5 6 alive_tree noted 200 c'
unfolding fields_text lookup bytes_eq get_status_name insert to_string host_field
run-IsFound_example =
    run-IsFound replying boost service (codes "u") (codes "{") [] 0 5 6 alive_tree noted [] 200
      (codes "Ok") three_bytes (some (codes "abc")) refl read_alive refl refl (omega arith) replies
      (omega arith) (omega arith, omega arith) refl (omega arith)
