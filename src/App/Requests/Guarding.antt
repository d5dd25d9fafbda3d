-- ===== src/App/Requests/Guarding.antt =====
-- Sending a request to the device is defined, where the request fits in its buffer.
use tv_cast.Prelude.{
  ℕ, Option, none, some, Bytes, Result, err, ◌>>=◌, Defined, bind-Defined, system_error,
}
use tv_cast.Http.CParser.{HttpParserLib}
use tv_cast.Http.Packet.{Packet, serialize}
use tv_cast.Http.Packet.Fits.{Fits, serialize-Defined}
use tv_cast.App.Types.{App}
use tv_cast.App.Interfaces.{Boost, Network}
use tv_cast.App.Requests.{
  write_and_read, with_session, send_to, send_get_config_request, get_config_packet,
}

-- What is asked of the network is defined, and leaves it good.
pub record NetworkGuards {W Address : Type 0} (Good : W → Type 0) (net : Network W Address)
    : Type 0 where
  pub creates :
      (address : Address) (w : W)
      → Good w
      → Defined (λ (made : Option ℕ × W). Good made.1) (net.create_http_client_session address w)
  pub writes : (id : ℕ) (buffer : Bytes) (w : W) → Good w → Defined Good (net.write id buffer w)
  pub reads : (id : ℕ) (w : W) → Good w → Defined Good (net.read id w)

module _ (lib : HttpParserLib) (boost : Boost) {W : Type 0} (Good : W → Type 0)
    (net : Network W boost.Address) (guards : NetworkGuards Good net) where
  write_and_read-Defined :
      (id : ℕ) (buffer : Option Bytes) (w : W)
      → Good w
      → Defined Good (write_and_read lib boost net id buffer w)
  unfolding write_and_read
  write_and_read-Defined id none w good = good
  write_and_read-Defined id (some buffer) w good =
      bind-Defined Good (net.write id buffer w) _ (guards.writes id buffer w good)
        (λ w' done good'. guards.reads id w' good')

  with_session-Defined :
      (session : Option ℕ) (packet : Packet) (w : W)
      → Fits lib packet
      → Good w
      → Defined Good (with_session lib boost net session packet w)
  unfolding with_session
  with_session-Defined none packet w fits good = good
  with_session-Defined (some id) packet w fits good =
      bind-Defined Good (serialize lib packet) _ (serialize-Defined lib packet fits)
        (λ buffer done b. write_and_read-Defined id buffer w good)

  send_to-Defined :
      (host : Bytes) (packet : Packet) (w : W)
      → Fits lib packet
      → Good w
      → Defined Good (send_to lib boost net host packet w)
  unfolding send_to
  send_to-Defined host packet w fits good =
      elim (boost.from_string host)
        as (λ r. Defined Good (elim r as (λ q. Result W) [
          | none ↦ err system_error
          | some address ↦ net.create_http_client_session address w >>= λ (session, w').
              with_session lib boost net session packet w'
        ])) [
          | none ↦ (λ e. cc)
          | some address ↦
              bind-Defined Good (net.create_http_client_session address w) _
                (guards.creates address w good)
                (λ (session, w') done good'. with_session-Defined session packet w' fits good')
        ]

  pub send_get_config_request-Defined :
      (a : App) (w : W)
      → Fits lib (get_config_packet a.notification)
      → Good w
      → Defined Good (send_get_config_request lib boost net a w)
  unfolding send_get_config_request
  send_get_config_request-Defined a w fits good =
      send_to-Defined a.notification.v2_url.host (get_config_packet a.notification) w fits good
