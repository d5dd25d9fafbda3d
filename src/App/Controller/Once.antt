-- ===== src/App/Controller/Once.antt =====
-- That a notification was received is not forgotten.
use tv_cast.Prelude.{ℕ, ◌≡◌, refl, ap, Option, none, some, ok, >>=-eq-ok, inl, inr, Bool-cases}
use tv_cast.Http.CParser.{HttpParserLib}
use tv_cast.Http.Packet.{Packet, serialize}
use tv_cast.App.Types.{App}
use tv_cast.App.Interfaces.{Boost, Sessions}
use tv_cast.App.Command.{create_rss_packet}
use tv_cast.App.Requests.{response_video_list, respond_to, write_response, video_list_packet}
use tv_cast.App.Controller.{handle_loop_packet, notify_loop_session_close, same_session}
use tv_cast.App.Controller.Video.{handle_loop_packet-cases}

pub notify_loop_session_close-received :
    (session : ℕ) (a : App)
    → (notify_loop_session_close session a).notification_received ≡ a.notification_received
unfolding notify_loop_session_close
notify_loop_session_close-received session a =
    elim (Bool-cases (same_session session a.loop_session)) [
      | inl same ↦ rw same refl
      | inr other ↦ rw other refl
    ]

module _ (lib : HttpParserLib) (boost : Boost) {W : Type 0} (sessions : Sessions W) where
  respond_to-received :
      (s : Option ℕ) (a : App) (w : W) {a' : App} {w' : W}
      → respond_to lib boost sessions s a w ≡ ok (a', w')
      → a'.notification_received ≡ a.notification_received
  unfolding respond_to create_rss_packet
  respond_to-received none a w e = cc e
  respond_to-received (some session) a w e =
      let (buffer, made, e1) =
        >>=-eq-ok (serialize lib (video_list_packet (create_rss_packet boost a).0)) _ e in
      let (w1, written, e2) = >>=-eq-ok (write_response lib boost sessions session buffer w) _ e1 in
      cc e2

  pub handle_loop_packet-received :
      (session : ℕ) (packet : Packet) (a : App) (w : W) {a' : App} {w' : W}
      → handle_loop_packet lib boost sessions session packet a w ≡ ok (a', w')
      → a'.notification_received ≡ a.notification_received
  unfolding response_video_list
  handle_loop_packet-received session packet a w e =
      elim (handle_loop_packet-cases lib boost sessions session packet a w e) [
        | inl (same, still) ↦ ap (λ a. a.notification_received) same
        | inr (kind, method, (url, parsed, path, (info, has_info, answered))) ↦
            respond_to-received (some session)
              (record a { loop_session = some session; device_info = info }) w answered
      ]
