-- ===== src/Net.antt =====
-- anet/net: what observers answer, sessions, and the handler of a pool of sessions.
pub mod SessionHandler

-- `PacketObserver::Status` of anet/net/packet_observer.h
pub data HandleStatus : Type 0 where
  ok part_received error : HandleStatus
