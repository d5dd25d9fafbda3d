-- ===== src/App/Requests/Sending.antt =====
-- What sending a request to the device keeps of the network.
use tv_cast.Prelude.{
  ℕ, Option, none, some, Bytes, Result, ok, err, system_error, ◌>>=◌, IsExpected, Behaves,
}
use tv_cast.Http.CParser.{HttpParserLib}
use tv_cast.Http.Packet.{Packet, serialize}
use tv_cast.Http.Packet.Throws.{serialize-Behaves}
use tv_cast.App.Types.{App}
use tv_cast.App.Interfaces.{Boost, Network}
use tv_cast.App.Requests.{
  write_and_read, with_session, send_to, send_get_config_request, get_config_packet,
}

module _ {W : Type 0} (Good : W → Type 0) (Open : ℕ → W → Type 0) where
  abbrev pub Created : Result (Option ℕ × W) → Type 0
  Created (ok (none, w)) = Good w
  Created (ok (some id, w)) = Good w × Open id w
  Created (err e) = IsExpected e

  abbrev pub Opened : ℕ → Result W → Type 0
  Opened id (ok w) = Good w × Open id w
  Opened id (err e) = IsExpected e

  abbrev pub Stays : Result W → Type 0
  Stays (ok w) = Good w
  Stays (err e) = IsExpected e

  -- A network that is ready may be asked for one session; what is asked of a session that it opened
  -- leaves it good, and that session open.
  pub record Serves {Address : Type 0} (Ready : W → Type 0) (net : Network W Address) : Type 0 where
    pub ready : (w : W) → Ready w → Good w
    pub creates :
        (address : Address) (w : W) → Ready w → Created (net.create_http_client_session address w)
    pub writes :
        (id : ℕ) (buffer : Bytes) (w : W) → Good w → Open id w → Opened id (net.write id buffer w)
    pub reads : (id : ℕ) (w : W) → Good w → Open id w → Stays (net.read id w)

module _ (lib : HttpParserLib) (boost : Boost) {W : Type 0} (net : Network W boost.Address)
    (Good : W → Type 0) (Open : ℕ → W → Type 0) (Ready : W → Type 0)
    (serves : Serves Good Open Ready net) where
  abbrev Stay : Result W → Type 0
  Stay = Stays Good Open

  read_next : (id : ℕ) (m : Result W) → Opened Good Open id m → Stay (m >>= λ w. net.read id w)
  read_next id (ok w) (good, open_) = serves.reads id w good open_
  read_next id (err e) expected = expected

  write_and_read-Stays :
      (id : ℕ) (buffer : Option Bytes) (w : W)
      → Good w
      → Open id w
      → Stay (write_and_read lib boost net id buffer w)
  unfolding write_and_read
  write_and_read-Stays id none w good open_ = good
  write_and_read-Stays id (some buffer) w good open_ =
      read_next id (net.write id buffer w) (serves.writes id buffer w good open_)

  written_next :
      (id : ℕ) (m : Result (Option Bytes)) (w : W)
      → Behaves m
      → Good w
      → Open id w
      → Stay (m >>= λ buffer. write_and_read lib boost net id buffer w)
  written_next id (ok buffer) w behaves good open_ = write_and_read-Stays id buffer w good open_
  written_next id (err e) w behaves good open_ = behaves

  bind-Created :
      (packet : Packet) (m : Result (Option ℕ × W))
      → Created Good Open m
      → Stay (m >>= λ (session, w). with_session lib boost net session packet w)
  unfolding with_session
  bind-Created packet (ok (none, w)) good = good
  bind-Created packet (ok (some id, w)) (good, open_) =
      written_next id (serialize lib packet) w (serialize-Behaves lib packet) good open_
  bind-Created packet (err e) expected = expected

  send_to-Stays :
      (host : Bytes) (packet : Packet) (w : W)
      → Ready w
      → Stay (send_to lib boost net host packet w)
  unfolding send_to
  send_to-Stays host packet w good =
      elim (boost.from_string host)
        as (λ r. Stay (elim r as (λ q. Result W) [
          | none ↦ err system_error
          | some address ↦ net.create_http_client_session address w >>= λ (session, w').
              with_session lib boost net session packet w'
        ])) [
          | none ↦ ((λ e. cc), (λ e. cc))
          | some address ↦
              bind-Created packet (net.create_http_client_session address w)
                (serves.creates address w good)
        ]

  pub send_get_config_request-Stays :
      (a : App) (w : W) → Ready w → Stay (send_get_config_request lib boost net a w)
  unfolding send_get_config_request
  send_get_config_request-Stays a w good =
      send_to-Stays a.notification.v2_url.host (get_config_packet a.notification) w good
