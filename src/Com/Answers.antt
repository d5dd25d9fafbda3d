-- ===== src/Com/Answers.antt =====
-- The answer to a packet goes to the session that the packet came from.
use tv_cast.Prelude.{
  ThrowsRange-Behaves, ℕ, Bool, ◌≡◌, refl, sym, List, [], Option, none, some, if◌then◌else◌, Bytes,
  Result, ok, err, ◌>>=◌, IsExpected, Behaves, ◌&&◌, bytes_eq, codes, eq_int, true, false,
}
use mathlib.Core.Path.{subst}
use tv_cast.Http.CParser.{HttpParserLib}
use tv_cast.Http.Packet.{Packet, serialize, method_get}
use tv_cast.Http.Packet.Throws.{serialize-Behaves}
use tv_cast.Http.Url
use tv_cast.App.Types.{App}
use tv_cast.App.Interfaces.{Boost}
use tv_cast.App.Throws.{of_string-ThrowsRange, read_device_info-ThrowsRange}
use tv_cast.App.Command.{create_rss_packet}
use tv_cast.App.DeviceInfo.{read_device_info}
use tv_cast.App.Requests.{write_response, respond_to, response_video_list, video_list_packet}
use tv_cast.App.Controller.{
  handle_loop_packet, route_request, handle_video_list_request, is_request,
}
use tv_cast.Tcp.{Action}
use tv_cast.Tcp.Contract.{On}
use tv_cast.Com.Bridges.{loop_sessions}

module _ (lib : HttpParserLib) (boost : Boost) where
  -- The answer to a packet goes to its session, which is the loop's.
  abbrev pub Answers : ℕ → Result (App × List Action) → Type 0
  Answers id (ok (a', actions)) = (a'.loop_session ≡ some id) × On id actions
  Answers id (err e) = IsExpected e

  bind-Answers :
      {B : Type 0} (id : ℕ) (m : Result B) (f : B → Result (App × List Action))
      → Behaves m
      → ((b : B) → Answers id (f b))
      → Answers id (m >>= f)
  bind-Answers id (ok b) f behaves h = h b
  bind-Answers id (err e) f behaves h = behaves

  if-Answers :
      (id : ℕ) (b : Bool) (first second : Result (App × List Action))
      → Answers id first
      → Answers id second
      → Answers id (if b then first else second)
  if-Answers id true first second h k = h
  if-Answers id false first second h k = k

  written-Answers :
      (id : ℕ) (buffer : Option Bytes) (a : App)
      → a.loop_session ≡ some id
      → Answers id (write_response lib boost loop_sessions id buffer [] >>= λ w. ok (a, w))
  unfolding write_response
  written-Answers id none a named = (named, tt)
  written-Answers id (some buffer) a named = (named, (refl, tt))

  respond_to-Answers :
      (id : ℕ) (a : App)
      → a.loop_session ≡ some id
      → Answers id (respond_to lib boost loop_sessions (some id) a [])
  unfolding respond_to create_rss_packet
  respond_to-Answers id a named =
      let body = (create_rss_packet boost a).0 in
      bind-Answers id (serialize lib (video_list_packet body)) _
        (serialize-Behaves lib (video_list_packet body))
        (λ buffer. written-Answers id buffer _ named)

  response_video_list-Answers :
      (id : ℕ) (a : App)
      → a.loop_session ≡ some id
      → Answers id (response_video_list lib boost loop_sessions a [])
  unfolding response_video_list
  response_video_list-Answers id a named =
      subst (λ l. Answers id (respond_to lib boost loop_sessions l a [])) (sym named)
        (respond_to-Answers id a named)

  route_request-Answers :
      (id : ℕ) (packet : Packet) (a : App)
      → a.loop_session ≡ some id
      → Answers id (route_request lib boost loop_sessions packet a [])
  unfolding route_request handle_video_list_request
  route_request-Answers id packet a named =
      if-Answers id (is_request packet.kind && eq_int method_get packet.method) _ _
        (bind-Answers id (Url.of_string lib packet.url) _
          (ThrowsRange-Behaves _ (of_string-ThrowsRange lib packet.url))
          (λ url.
            if-Answers id (bytes_eq (codes "/videoList.xml") url.path) _ _
              (bind-Answers id (read_device_info url) _
                (ThrowsRange-Behaves _ (read_device_info-ThrowsRange url))
                (λ info. response_video_list-Answers id (record a { device_info = info }) named))
              (named, tt)))
        (named, tt)

  pub handle_loop_packet-Answers :
      (id : ℕ) (packet : Packet) (a : App)
      → Answers id (handle_loop_packet lib boost loop_sessions id packet a [])
  unfolding handle_loop_packet
  handle_loop_packet-Answers id packet a =
      bind-Answers id (serialize lib packet) _ (serialize-Behaves lib packet)
        (λ logged. route_request-Answers id packet (record a { loop_session = some id }) refl)
