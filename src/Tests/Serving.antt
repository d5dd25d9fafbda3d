-- ===== src/Tests/Serving.antt =====
-- Messages as text, from the session that reads them on.
use tv_cast.Prelude.{
  ap, true, ◌>>=◌, insert, ◌≡◌, refl, arith, [], ◌∷◌, some, none, Bytes, codes, length, ok, lookup,
  bytes_eq, to_string,
}
use tv_cast.Net.SessionHandler.{Session, State}
use tv_cast.Http.CParser.{
  Run, done, call, HttpParserLib, on_message_begin, on_url, on_status, on_header_field,
  on_header_value, on_headers_complete, on_body, on_message_complete,
}
use tv_cast.Http.SessionObserver
use tv_cast.Http.Packet.{get_status_name}
use tv_cast.Http.Parser.Reading.{
  request_line, status_line, text, fields_text, parser_fields, ends, calls, IsReportedWhole,
  body_text,
}
use tv_cast.Http.Parser.Safety.{Phase, in_head}
use tv_cast.Http.Url
use tv_cast.App.Types.{new_app}
use tv_cast.App.DeviceInfo.{read_device_info}
use tv_cast.App.DeviceInfo.Values.{info_of, read_device_info-values}
use tv_cast.App.Command.{create_rss_packet}
use tv_cast.Tcp.{async_accept, async_read_some, find_session, pick}
use tv_cast.Udp
use tv_cast.Com.{Communication}
use tv_cast.Main.EventLoop.{at_server, at_client, handle_event}
use tv_cast.Main.{prepare}
use tv_cast.Main.EventLoop
use tv_cast.Main.Playing.{IsPlaying, run-IsPlaying}
use tv_cast.Main.Answering.{IsAnswered}
use tv_cast.Main.Serving.{IsNoted, handle_event-served, handle_event-IsNoted}
use tv_cast.Tests.Setup.{boost}
use tv_cast.Tests.Setup
use tv_cast.Tests.Service.{target, url, values, of_string-target}
use tv_cast.Tests.RoundTrip.{three_bytes}

abbrev with_execute : (Bytes → Run Phase) → HttpParserLib
with_execute execute = record Setup.lib { http_parser_execute = λ c buffer. execute buffer }

-- A library that knows one request.
abbrev execute_get : Bytes → Run Phase
execute_get buffer = call on_message_begin (λ r1. call (on_url (some target)) (λ r2.
    call (on_headers_complete (some (parser_fields (request_line 1 target) 0)))
      (λ r3. call on_message_complete (λ r4. done (length buffer) in_head))))

abbrev getting : HttpParserLib
getting = with_execute execute_get

gets : IsReportedWhole getting (request_line 1 target) [] none
unfolding fields_text
gets = record {
  length_of = 0;
  after = in_head;
  measures = λ b is announced. absurd (cc is);
  reports = calls (calls (calls (calls ends)));
}

-- A library that knows one response.
abbrev pub execute_ok : Bytes → Run Phase
execute_ok buffer = call on_message_begin (λ r1. call (on_status (some (codes "Ok"))) (λ r2.
    call (on_header_field (some (codes "Content-Length"))) (λ r3.
      call (on_header_value (some (codes "3"))) (λ r4.
        call (on_headers_complete (some (parser_fields (status_line 200 (codes "Ok")) 3))) (λ r5.
          call
            (on_body (some (parser_fields (status_line 200 (codes "Ok")) 3)) (some (codes "abc")))
            (λ r6. call on_message_complete (λ r7. done (length buffer) in_head)))))))

abbrev pub replying : HttpParserLib
replying = with_execute execute_ok

pub replies :
    IsReportedWhole replying (status_line 200 (codes "Ok")) three_bytes (some (codes "abc"))
unfolding fields_text
replies = record {
  length_of = 3;
  after = in_head;
  measures = λ b is announced. ap (λ o. length (body_text replying o)) is;
  reports = calls (calls (calls (calls (calls (calls (calls ends))))));
}

module _ (lib : HttpParserLib) where
  abbrev session : Session (SessionObserver.SessionObserver lib)
  session = record {
    accessor = record { handler = SessionObserver.create lib; k_id = 3 };
    state = State.run;
  }

  -- A controller with session 3 at the server and at the client.
  abbrev controller : Communication lib boost
  controller = record {
    udp_server = Udp.new;
    tcp_client = record { creator = none; session_pool = session ∷ [] };
    tcp_server = record { creator = none; session_pool = session ∷ [] };
    client_pending = async_read_some 3 ∷ [];
    server_pending = async_accept 4 ∷ async_read_some 3 ∷ [];
    client_sockets = 3 ∷ [];
    server_sockets = 3 ∷ [];
    index = 5;
    app = new_app 5;
  }

target_read : Url.of_string getting target ≡ ok url
unfolding Url.of_string
target_read = of_string-target

has_info : read_device_info url ≡ ok (info_of values)
unfolding lookup bytes_eq
has_info = read_device_info-values getting target target_read values (ground arith)

handle_event-served_example :
    (c' : Communication getting boost) × (handle_event getting boost
        (at_server 1 (some (text getting (request_line 1 target) [] none)))
        (controller getting)
      ≡ ok c')
    × IsAnswered getting boost 3 (info_of values) (async_accept 4 ∷ []) (controller getting) c'
unfolding find_session create_rss_packet to_string pick fields_text
handle_event-served_example =
    handle_event-served getting boost 1 3 target [] (async_accept 4 ∷ []) url (info_of values)
      (controller getting) refl refl gets (omega arith) target_read refl has_info (λ e. cc e)
      (omega arith)

handle_event-IsNoted_example :
    (c' : Communication replying boost) × (handle_event replying boost
        (at_client 0
          (some (text replying (status_line 200 (codes "Ok")) three_bytes (some (codes "abc")))))
        (controller replying)
      ≡ ok c')
    × IsNoted replying boost 3 200 [] (controller replying) c'
unfolding find_session to_string pick fields_text lookup bytes_eq get_status_name insert
handle_event-IsNoted_example =
    handle_event-IsNoted replying boost 0 3 200 (codes "Ok") three_bytes (some (codes "abc")) []
      (controller replying) refl refl replies (omega arith) (omega arith, omega arith) refl
      (omega arith)

run-IsPlaying_example :
    (c : Communication getting boost) × ((prepare getting boost (codes "http://a/b.mp4") 7 5 6 true
        >>= EventLoop.run getting boost (
            at_server 0 (some [])
            ∷ at_server 0 (some (text getting (request_line 1 target) [] none))
            ∷ []))
      ≡ ok c)
    × IsPlaying getting boost (codes "http://a/b.mp4") 7 6 (info_of values) c
unfolding fields_text to_string
run-IsPlaying_example =
    run-IsPlaying getting boost (codes "http://a/b.mp4") [] target [] 7 5 6 url (info_of values)
      gets (omega arith) target_read refl has_info (λ e. cc e) (omega arith)
