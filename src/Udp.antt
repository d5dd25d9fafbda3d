-- ===== src/Udp.antt =====
-- anet/udp/server.h and server.cc: the server of datagrams, over the operations that wait.
pub mod Receiving
use tv_cast.Prelude.{
  zero, suc, Bool, true, false, List, [], ◌∷◌, ◌++◌, Option, none, some, Bytes, Result, ok, err,
  ◌>>=◌, check_failed, system_error, if◌then◌else◌,
}

pub data Operation : Type 0 where
  async_receive_from : Operation
  async_send : Bytes → Operation

-- `net::PacketObserver`, with what it changes.
pub record PacketObserver (A : Type 0) : Type 0 where
  pub handle_data : A → Bytes → Result A
  pub handle_write_complete : A → Result A

-- `observer` says whether `observer_` points to one; the socket is what it has joined and whether it
-- is connected.
pub record Server : Type 0 where
  pub observer : Bool
  pub in_group : Bool
  pub connected : Bool
  pub pending : List Operation

abbrev pub new : Server
new = record { observer = false; in_group = false; connected = false; pending = [] }

abbrev pub register_observer : Server → Server
register_observer s = record s { observer = true }

-- `JoinMulticastGroup`, and `Connect`; the socket may refuse to.
unfoldable pub join_multicast_group : Bool → Server → Result Server
join_multicast_group joins s = if joins then ok (record s { in_group = true }) else err system_error

abbrev connect : Bool → Server → Result Server
connect connects s = if connects then ok (record s { connected = true }) else err system_error

-- `Receive`, which is all that `Start` does
abbrev pub receive : Server → Server
receive s = record s { pending = s.pending ++ (async_receive_from ∷ []) }

abbrev pub send : Bytes → Server → Server
send buffer s = record s { pending = s.pending ++ (async_send buffer ∷ []) }

module _ {A : Type 0} (observer : PacketObserver A) where
  -- `HandleReceive`; `none` is an error.
  unfoldable pub handle_receive : Option Bytes → Bool → Server → A → Result (Server × A)
  handle_receive none registered s a = ok (s, a)
  handle_receive (some bytes) false s a = err check_failed
  handle_receive (some bytes) true s a = do a' ← observer.handle_data a bytes; ok (receive s, a')

  -- `HandleSend`
  unfoldable pub handle_send : Option Bytes → Bool → Server → A → Result (Server × A)
  handle_send none registered s a = ok (s, a)
  handle_send (some bytes) false s a = err check_failed
  handle_send (some bytes) true s a = do a' ← observer.handle_write_complete a; ok (s, a')

  unfoldable pub complete_operation : Operation → Option Bytes → Server → A → Result (Server × A)
  unfolding handle_receive handle_send
  complete_operation async_receive_from outcome s a = handle_receive outcome s.observer s a
  complete_operation (async_send buffer) outcome s a = handle_send outcome s.observer s a

  -- The event loop completes the operation that waits longest.
  unfoldable pub complete_first : List Operation → Option Bytes → Server → A → Result (Server × A)
  unfolding complete_operation
  complete_first [] outcome s a = ok (s, a)
  complete_first (o ∷ os) outcome s a = complete_operation o outcome (record s { pending = os }) a

  unfoldable pub complete_all : List (Option Bytes) → Server → A → Result (Server × A)
  complete_all [] s a = ok (s, a)
  complete_all (outcome ∷ outcomes) s a = do
    (s', a') ← complete_first s.pending outcome s a
    complete_all outcomes s' a'
