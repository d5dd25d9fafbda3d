-- ===== src/App/Requests/Reaching.antt =====
-- A request that reaches a session of the network.
use tv_cast.Prelude.{ℕ, ◌≡◌, ap, ◌∙◌, none, some, Bytes, Result, ok, err, system_error, ◌>>=◌}
use tv_cast.Http.CParser.{HttpParserLib}
use tv_cast.Http.Packet.{serialize}
use tv_cast.App.Types.{App}
use tv_cast.App.Interfaces.{Boost, Network}
use tv_cast.App.Requests.{
  send_get_config_request, get_config_packet, send_to, with_session, write_and_read,
}

module _ (lib : HttpParserLib) (boost : Boost) {W : Type 0} (net : Network W boost.Address) where
  pub send_get_config_request-write :
      (a : App) (w w1 : W) (address : boost.Address) (id : ℕ) (buffer : Bytes)
      → boost.from_string a.notification.v2_url.host ≡ some address
      → net.create_http_client_session address w ≡ ok (some id, w1)
      → serialize lib (get_config_packet a.notification) ≡ ok (some buffer)
      → send_get_config_request lib boost net a w ≡ (net.write id buffer w1 >>= net.read id)
  unfolding send_get_config_request send_to with_session write_and_read
  send_get_config_request-write a w w1 address id buffer host made written =
      let packet = get_config_packet a.notification in
      ap
        (λ r. elim r as (λ q. Result W) [
          | none ↦ err system_error
          | some address ↦ net.create_http_client_session address w >>= λ (session, w').
              with_session lib boost net session packet w'
        ])
        host
      ∙ ap (λ r. r >>= λ (session, w'). with_session lib boost net session packet w') made
      ∙ ap (λ r. r >>= λ b. write_and_read lib boost net id b w1) written
