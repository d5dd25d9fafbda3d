-- ===== src/Lib.antt =====
-- A verification library for tv_cast, which plays videos on a television: it waits for the
-- television's broadcast, asks it for its configuration, and answers the requests for a list of
-- videos that the television then sends.
--
-- The program's parts, from the network inwards:
--   * anet/http/url.cc and url.h are Http/Query.antt (`ParseQuery`, whose iterators are distances
--     from `begin()`) and Http/Url.antt (`Parse`, `GetString`, `GetQueryParameter`).
--   * anet/http/packet.cc and packet.h are Http/Packet.antt; Http/Tables.antt has the tables of
--     names of anet/extra/http_parser.h.
--   * anet/http/parser.cc and parser.h are Http/Parser.antt: one function per callback, `handle` for
--     the static functions that pass a callback on, `run` for a whole run of the library.
--   * anet/http/session_observer.cc and session_observer.h are Http/SessionObserver.antt: what the
--     observer calls is a list, in order.
--   * app_ctrl.cc and app_ctrl.h are App/*.antt: the state in Types, the handlers in Controller, and
--     the functions that they call in Command, Notification, DeviceInfo and Requests.
--
-- State is passed and returned. A result is `ok` or the exception that leaves the call; a write
-- outside an object is the result `undefined_behaviour`, a handler that runs on a freed session
-- `use_after_free`, and a pointer that `CHECK_NOTNULL` finds null `check_failed`; main's `catch`
-- stops none of the three, but every exception that C++ throws. The standard library's containers
-- are in Prelude/: a `std::map` is its entries in the order of iteration, a `std::string` and a
-- buffer are lists of bytes.
--
-- Numbers are natural numbers. `uint32_t` wraps around where the source lets it: `content_length_`,
-- `body_index_` and the size of a serialized packet are taken modulo 2 ^ 32, the length that
-- `Url::Parse` hands over modulo 2 ^ 16.
--
-- Parameters, since they are no part of the program: the library http_parser (`HttpParserLib` of
-- Http/CParser.antt; a run of it is a tree of the callbacks that it makes, and where a theorem needs
-- the order of those, it takes `CallsInOrder`; where it needs what is reported of a whole message, it
-- has `IsReportedWhole` of Http/Parser/Reading.antt for that message: the run makes one call for each
-- string. http_parser.h promises no such thing, and does allow several calls for a string, of which
-- Http/Parser/Faults.antt says what the parser makes; so this is a condition on the one run), Boost's
-- property trees and addresses (`Boost` of App/Interfaces.antt), and the time. What app_ctrl.cc asks
-- of the network is an interface there too (`Sessions` for the loop, `Network` for the requests), which
-- Com/Bridges.antt and Com.antt fill with the program's own sessions.
--
-- The functions are structural recursions, so there is no fuel but in the reader of
-- Http/Packet/Reader.antt, which takes one unit for each header field and one for the empty line.
--
-- The network:
--   * anet/net is Net.antt and Net/SessionHandler.antt: the pool of sessions, whose ids come from a
--     static counter.
--   * anet/tcp is Tcp.antt and anet/udp is Udp.antt. A server's state has the operations that wait
--     for the network; a completion takes one of them out, in any order, with bytes or with an
--     error, and runs its handler. A session that is no longer in its pool has been freed. The sockets
--     that are open are listed too: `Close` of any other throws, as `cancel()` of Boost does.
--   * com_ctrl.cc and com_ctrl.h are Com/Bridges.antt, the bridges between the sessions and the
--     application, and Com.antt, the controller that owns the servers and the static counter. What a
--     handler writes to a session of the server is a list of actions, which the session carries out
--     when the handler returns; what it writes to a session of the client goes to the controller.
--   * main.cc is Main.antt, up to the event loop, and Main/EventLoop.antt: an event is a completion
--     at the server, the client or the server of datagrams, in any order, and with any outcome. Which
--     endpoints can be connected to is a part of the event during which that is tried. `run` is what the
--     event loop has done when some operations have completed; `main` then waits in it (`running`) as
--     long as another one waits, and has returned where none does or an exception left the loop.
--   * common/logger.h and logger.cc are Logger.antt. The program is built with glog (`ENABLE_GLOG`),
--     so its class `LOG` is only in use where that is taken out.
--
-- The proofs about the whole program go by promises: Tcp/Contract.antt says what an observer keeps in
-- every call, Com/Promises.antt that the two bridges keep it, Com/Sound.antt what the controller is
-- between two handlers, and Main/Running.antt that every event leaves it so. The modules named Throws
-- say which errors a part may end in. That no copy leaves its buffer is a second such chain, in the
-- modules named Fits, Guarded and Guarding: a parser's buffer is safe between two reads, and a packet
-- of less than 2 ^ 32 bytes is serialized in a defined way. Main/Guarded.antt says which packets of an
-- event that bound is asked of, and Main/Returns.antt puts the two chains together.
--
-- Main/Serving.antt joins the text that a session reads to what the application does with it, by
-- Http/Parser/Building.antt (the packet that the calls for a message build),
-- Http/SessionObserver/RoundTrip.antt and, for a body in several reads, Pieces.antt beside it;
-- Main/Playing.antt goes from the command line to the first answer, and Main/Discovering.antt from the
-- first notification to the device that is ready.
--
-- Not modelled: http_parser itself, gflags, glog and Boost, which are other projects; the texts that
-- go to the log (but handing a packet to the log serializes it, which may throw, and that is kept);
-- and the sockets, of which only the outcome of an operation, whether they are open, the multicast group
-- and the connection are left: that a server can be bound to its port is taken for granted.
pub mod App
pub mod Com
pub mod Http
pub mod Logger
pub mod Main
pub mod Net
pub mod Prelude
pub mod Tcp
pub mod Tests
pub mod Udp
