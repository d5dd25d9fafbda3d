-- ===== src/App/Controller/Video.antt =====
-- The loop: how a VideoList request is answered.
use tv_cast.Prelude.{
  ℕ, ◌+◌, ◌<◌, ◌^◌, true, [], ◌++◌, ◌≡◌, ◌≢◌, refl, sym, ap, ◌∙◌, arith, ◌&&◌, some, ◌⊎◌, inl, inr,
  if-cases, length, length-append, bytes_lt, Map, Bytes, codes, to_string, bytes_eq, bytes_eq_iff,
  eq_int, eq_int_iff, insert, int_string, ok, ◌>>=◌, >>=-eq-ok, append_assoc,
}
use tv_cast.Http.CParser.{HttpParserLib}
use tv_cast.Http.Packet.{
  Packet, Method, PacketType, init, request, response, method_get, serialize, endl, header_block,
  start_string, get_status_name,
}
use tv_cast.Http.Packet.Reader.{serialize_lem}
use tv_cast.Http.Url
use tv_cast.Http.Url.{Url}
use tv_cast.App.Types.{DeviceInfo, App}
use tv_cast.App.Interfaces.{Boost, Sessions}
use tv_cast.App.Command.{create_rss_packet}
use tv_cast.App.DeviceInfo.{read_device_info}
use tv_cast.App.Requests.{respond_to, write_response, response_video_list, video_list_packet}
use tv_cast.App.Controller.{
  handle_video_list_request, handle_loop_packet, route_request, is_request,
}

-- The bytes of the answer with this body.
abbrev pub video_list_bytes : Bytes → Bytes
video_list_bytes body =
    codes "HTTP/1.1 200 OK"
    ++ (endl
        ++ (codes "Access-Control-Allow-Origin: *"
            ++ (endl
                ++ (codes "Connection: keep-alive"
                    ++ (endl
                        ++ (codes "Content-Length: "
                            ++ (to_string (length body) ++ (endl ++ (endl ++ body)))))))))

-- The header fields of the answer, in the order of the map.
abbrev video_list_fields : Bytes → Map
video_list_fields size = insert (codes "Content-Length") size (
    insert (codes "Access-Control-Allow-Origin") (codes "*")
      (insert (codes "Connection") (codes "keep-alive") []))

video_list_fields-append :
    (size body : Bytes)
    → header_block (video_list_fields size) ++ body
      ≡ codes "Access-Control-Allow-Origin: *"
        ++ (endl
            ++ (codes "Connection: keep-alive"
                ++ (endl ++ (codes "Content-Length: " ++ (size ++ (endl ++ (endl ++ body)))))))
unfolding header_block insert bytes_eq bytes_lt
video_list_fields-append size body = cc (append_assoc size (endl ++ endl) body)

is_request-get :
    (kind : PacketType) (method : Method)
    → (is_request kind && eq_int method_get method) ≡ true
    → (kind ≡ request) × (method ≡ method_get)
unfolding is_request
is_request-get init method e = cc
is_request-get request method e = (refl, sym ((eq_int_iff method_get method).0 e))
is_request-get response method e = cc

module _ (lib : HttpParserLib) (boost : Boost) {W : Type 0} (sessions : Sessions W) where
  open sessions use {write}

  serialize-video_list_packet :
      (body : Bytes)
      → body ≢ []
      → length (video_list_bytes body) < 2 ^ 32
      → serialize lib (video_list_packet body) ≡ ok (some (video_list_bytes body))
  unfolding video_list_packet start_string int_string get_status_name
  serialize-video_list_packet body ne fits =
      let whole = video_list_fields-append (to_string (length body)) body in
      let headers = header_block (video_list_fields (to_string (length body))) in
      let size : 17 + length headers + length body < 2 ^ 32 =
        omega (arith, ap length whole, length-append headers body) in
      serialize_lem lib response (video_list_packet body) refl (λ e. cc) (omega arith)
        (record { body_ne_nil = λ e. ne cc; size_bound = size })
      ∙ ap (λ z. ok (some (codes "HTTP/1.1 200 OK" ++ (endl ++ z)))) whole

  respond_to-some :
      (session : ℕ) (a : App) (w : W)
      → (create_rss_packet boost a).0 ≢ []
      → length (video_list_bytes (create_rss_packet boost a).0) < 2 ^ 32
      → respond_to lib boost sessions (some session) a w ≡ (
          write session (video_list_bytes (create_rss_packet boost a).0) w >>= λ w'.
          ok ((create_rss_packet boost a).1, w'))
  unfolding respond_to write_response
  respond_to-some session a w ne fits =
      let (body, a') = create_rss_packet boost a in
      ap
        (λ r.
          r >>= λ buffer. write_response lib boost sessions session buffer w >>= λ w'. ok (a', w'))
        (serialize-video_list_packet body ne fits)

  -- Either nothing was done, or the packet was a GET of /videoList.xml with the twelve parameters,
  -- which are the new device information, and it was answered.
  abbrev pub Routed : Packet → App → W → App → W → Type 0
  Routed packet a w a' w' =
      ((a' ≡ a) × (w' ≡ w))
      ⊎ ((packet.kind ≡ request)
          × (packet.method ≡ method_get)
          × ((url : Url) × (Url.of_string lib packet.url ≡ ok url)
              × (url.path ≡ codes "/videoList.xml")
              × ((info : DeviceInfo) × (read_device_info url ≡ ok info)
                  × (response_video_list lib boost sessions (record a { device_info = info }) w
                      ≡ ok (a', w')))))

  route_request-cases :
      (packet : Packet) (a : App) (w : W) {a' : App} {w' : W}
      → route_request lib boost sessions packet a w ≡ ok (a', w')
      → Routed packet a w a' w'
  unfolding route_request handle_video_list_request
  route_request-cases packet a w e =
      elim (if-cases (is_request packet.kind && eq_int method_get packet.method) e) [
        | inl (get, run) ↦
            let (kind, method) = is_request-get packet.kind packet.method get in
            let (url, eu, ev) = >>=-eq-ok (Url.of_string lib packet.url) _ run in
            elim (if-cases (bytes_eq (codes "/videoList.xml") url.path) ev) [
              | inl (path, handled) ↦
                  let (info, ei, er) = >>=-eq-ok (read_device_info url) _ handled in
                  inr (
                    kind,
                    method,
                    (
                      url,
                      eu,
                      sym ((bytes_eq_iff (codes "/videoList.xml") url.path).0 path),
                      (info, ei, er),
                    ),
                  )
              | inr (other, done) ↦ inl (cc, cc)
            ]
        | inr (other, done) ↦ inl (cc, cc)
      ]

  -- With a session in the loop, and a body that is not empty and leaves the message below 2 ^ 32
  -- bytes, `ResponseVideoList` is the writing of one buffer to that session: the answer whose
  -- body is the current command and whose Content-Length is its length. The command is then
  -- marked as sent.
  pub response_video_list-session :
      (session : ℕ) (a : App) (w : W)
      → a.loop_session ≡ some session
      → (create_rss_packet boost a).0 ≢ []
      → length (video_list_bytes (create_rss_packet boost a).0) < 2 ^ 32
      → response_video_list lib boost sessions a w ≡ (
          write session (video_list_bytes (create_rss_packet boost a).0) w >>= λ w'.
          ok ((create_rss_packet boost a).1, w'))
  unfolding response_video_list
  response_video_list-session session a w s ne fits =
      let (body, a') = create_rss_packet boost a in
      ap (λ l. respond_to lib boost sessions l a w) s ∙ respond_to-some session a w ne fits

  -- Where `HandleLoopPacket` returns, the packet's session is the loop's session, or what
  -- answering made of it; and either nothing else was done, or the packet was a GET of
  -- /videoList.xml whose twelve parameters could be read, and the outcome is that of
  -- `ResponseVideoList` with them as the new device information.
  pub handle_loop_packet-cases :
      (session : ℕ) (packet : Packet) (a : App) (w : W) {a' : App} {w' : W}
      → handle_loop_packet lib boost sessions session packet a w ≡ ok (a', w')
      → Routed packet (record a { loop_session = some session }) w a' w'
  unfolding handle_loop_packet
  handle_loop_packet-cases session packet a w e =
      let (logged, es, er) = >>=-eq-ok (serialize lib packet) _ e in
      route_request-cases packet (record a { loop_session = some session }) w er
