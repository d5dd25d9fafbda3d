-- ===== src/App/Command.antt =====
-- `EmptyCommand::UpdateTree`, `PlayCommand::UpdateTree` and `CreateRssPacket`.
use tv_cast.Prelude.{◌++◌, Bytes, codes, to_string, true}
use tv_cast.App.Types.{CommandKind, empty_command, play_command, RssCommand, App}
use tv_cast.App.Interfaces.{Boost}

module _ (boost : Boost) where
  open boost use {Tree, empty_tree, put, write_xml}

  update_tree_as : CommandKind → RssCommand → Tree → Tree
  update_tree_as empty_command c tree =
      put (codes "rss.channel.item.commandTimestamp") (to_string c.timestamp)
        (put (codes "rss.channel.item.command") (codes "EMPTY") tree)
  update_tree_as (play_command url) c tree =
      put (codes "rss.channel.item.commandTimestamp") (to_string c.timestamp) (
        put (codes "rss.channel.item.command") (codes "PLAY") (
          put (codes "rss.channel.item.timestamp") (to_string c.timestamp) (
            put (codes "rss.channel.item.description") (codes "Playing: " ++ url) (
              put (codes "rss.channel.item.link") url
                (put (codes "rss.channel.item.title") url tree)))))

  -- `UpdateTree`
  unfoldable pub update_tree : RssCommand → Tree → Tree
  unfolding update_tree_as
  update_tree c tree = update_tree_as c.kind c tree

  -- `CreateRssPacket`: the body, and the command marked as sent.
  unfoldable pub create_rss_packet : App → Bytes × App
  create_rss_packet a =
      let tree = put (codes "rss.<xmlattr>.version") (codes "2.0") empty_tree in
      (
        write_xml (update_tree a.current_command tree),
        record a { current_command = record a.current_command { send = true } },
      )
