-- ===== src/Tests/Requesting.antt =====
-- A notification of the device, and the request that it is answered with.
use tv_cast.Prelude.{
  ◌≡◌, refl, List, [], ◌∷◌, none, some, codes, ok, int_string, insert, bytes_eq, bytes_lt,
  to_string, memcpy_at,
}
use tv_cast.Http.Packet.{serialize, assemble, copy_to, start_string, header_block, get_status_name}
use tv_cast.Http.Tables.{name_in, status_map}
use tv_cast.Http.SessionObserver
use tv_cast.App.Types.{new_app}
use tv_cast.App.Requests.{get_config_packet, host_field}
use tv_cast.Tcp.{
  without_socket, async_accept, async_write, complete, complete_operation, find_session,
}
use tv_cast.Udp
use tv_cast.Com.{Communication, bridge_datagram}
use tv_cast.Com.Bridges.{bridge_closed, http_client_bridge}
use tv_cast.App.Controller.{handle_udp_data}
use tv_cast.Net.SessionHandler.{close_session, erase_session}
use tv_cast.Main.EventLoop.{Event, at_client, at_udp_server, handle_event, run}
use tv_cast.Main.Once.{IsSettled, run-IsSettled}
use tv_cast.Tcp.Accepting.{accepts}
use tv_cast.Main.Requesting.{requesting, handle_event-requesting}
use tv_cast.Tests.Setup.{lib, boost, service, alive_tree}
use tv_cast.Tests.Service.{noted, noticed, config_bytes}

abbrev listening : Communication lib boost
listening = record {
  udp_server = Udp.receive (Udp.register_observer Udp.new);
  tcp_client = record { creator = some (some (SessionObserver.create lib)); session_pool = [] };
  tcp_server = record { creator = some (some (SessionObserver.create lib)); session_pool = [] };
  client_pending = [];
  server_pending = async_accept 0 ∷ [];
  client_sockets = [];
  server_sockets = [];
  index = 1;
  app = new_app 5;
}

serialized : serialize lib (get_config_packet noted) ≡ ok (some config_bytes)
unfolding serialize get_config_packet assemble copy_to start_string host_field get_status_name
    header_block name_in status_map memcpy_at int_string insert bytes_lt bytes_eq to_string
serialized = refl

handle_event-requesting_example :
    handle_event lib boost (at_udp_server (some (codes "{")) service) listening
    ≡ ok (requesting lib boost (SessionObserver.create lib) config_bytes noted [] listening)
handle_event-requesting_example =
    handle_event-requesting lib boost service (codes "{") [] alive_tree noted [] config_bytes
      (SessionObserver.create lib) listening refl refl refl refl refl noticed refl refl serialized

-- The request is waiting to be written, and its answer to be read.
abbrev asking : Communication lib boost
asking = requesting lib boost (SessionObserver.create lib) config_bytes noted [] listening

-- The connection is lost, and another notification comes.
abbrev events : List (Event boost)
events = at_client 1 none ∷ at_udp_server (some (codes "{")) service ∷ []

abbrev alone : Communication lib boost
alone = record asking {
  tcp_client = record asking.tcp_client { session_pool = [] };
  client_pending = async_write 1 config_bytes ∷ [];
  client_sockets = [];
}

lost : run lib boost events asking ≡ ok alone
unfolding run handle_event complete complete_operation find_session bridge_closed
    SessionObserver.closed SessionObserver.create http_client_bridge Udp.complete_first
    bridge_datagram handle_udp_data close_session erase_session without_socket
lost = refl

run-IsSettled_example : IsSettled lib boost asking alone
unfolding accepts
run-IsSettled_example = run-IsSettled lib boost events asking refl refl lost
