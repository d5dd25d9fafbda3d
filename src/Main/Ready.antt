-- ===== src/Main/Ready.antt =====
-- What the program is ready to answer when its event loop starts.
use tv_cast.Prelude.{
  ℕ, ◌≡◌, refl, true, [], ◌∷◌, ◌++◌, Bytes, codes, to_string, ok, err, system_error, false,
}
use tv_cast.Http.CParser.{HttpParserLib}
use tv_cast.App.Interfaces.{Boost}
use tv_cast.App.Command.{create_rss_packet, update_tree}
use tv_cast.App.Controller.{play_video}
use tv_cast.Net.SessionHandler.{get_new_session_accessor, add_session}
use tv_cast.Tcp.{async_accept, checked, create_session}
use tv_cast.Udp.{async_receive_from, join_multicast_group}
use tv_cast.Com.{Communication, register_app_controller, start}
use tv_cast.Main.{prepare}

-- The tree of a PLAY command.
abbrev pub play_tree : (boost : Boost) → Bytes → ℕ → boost.Tree
play_tree boost url now = boost.put (codes "rss.channel.item.commandTimestamp") (to_string now) (
    boost.put (codes "rss.channel.item.command") (codes "PLAY") (
      boost.put (codes "rss.channel.item.timestamp") (to_string now) (
        boost.put (codes "rss.channel.item.description") (codes "Playing: " ++ url) (
          boost.put (codes "rss.channel.item.link") url (
            boost.put (codes "rss.channel.item.title") url
              (boost.put (codes "rss.<xmlattr>.version") (codes "2.0") boost.empty_tree))))))

module _ (lib : HttpParserLib) (boost : Boost) where
  abbrev pub IsReady : Bytes → ℕ → ℕ → ℕ → Type 0
  IsReady url index made now =
      (prepare lib boost url index made now false ≡ err system_error)
      × ((c : Communication lib boost) × (prepare lib boost url index made now true ≡ ok c)
          × (c.server_pending ≡ async_accept index ∷ [])
          × (c.udp_server.pending ≡ async_receive_from ∷ [])
          × (c.app.notification_received ≡ false)
          × (c.app.current_command.send ≡ false)
          × ((create_rss_packet boost c.app).0 ≡ boost.write_xml (play_tree boost url now))
          × ((create_rss_packet boost c.app).1.current_command.send ≡ true))

  -- If the multicast group cannot be joined, an exception ends the program before its event loop.
  -- Otherwise the loop starts with one accept and one receive that wait, with no notification
  -- received, and with the command to play the video of the command line, not yet sent: it is what
  -- the next answer carries, and it is marked as sent then.
  pub prepare-IsReady : (url : Bytes) (index made now : ℕ) → IsReady url index made now
  unfolding join_multicast_group prepare start register_app_controller create_session checked
      get_new_session_accessor add_session play_video create_rss_packet update_tree
  prepare-IsReady url index made now = (refl, (_, refl, refl, refl, refl, refl, refl, refl))
