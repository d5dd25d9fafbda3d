-- ===== src/Tcp.antt =====
-- anet/tcp: sessions, the server and the client, over the operations that wait for the network. An
-- operation is completed by the event loop, in any order, with bytes or with an error.
pub mod Uses
pub mod Contract
pub mod Live
pub mod Steps
pub mod Life
pub mod Registry
pub mod Shrinking
pub mod Sharing
pub mod Freed
pub mod Resuming
pub mod Guarded
pub mod Receiving
pub mod Accepting
use tv_cast.Prelude.{
  ℕ, zero, suc, Bool, true, false, List, [], ◌∷◌, ◌++◌, Option, none, some, ◌==◌, if◌then◌else◌,
  Bytes, Result, ok, err, ◌>>=◌, check_failed, system_error, use_after_free,
}
use tv_cast.Net.SessionHandler.{
  SessionAccessor, Session, State, session_with, SessionHandler, close_session,
  get_new_session_accessor, add_session, empty, register_creator,
}

-- What waits for the network, with the session whose handler was bound: `HandleRead` and
-- `HandleWrite` to a raw `this`, `HandleAccept` to the server and a shared pointer.
pub data Operation : Type 0 where
  async_read_some : ℕ → Operation
  async_write : ℕ → Bytes → Operation
  async_accept : ℕ → Operation

-- `Write` and `Close` of the session with this id, which an observer calls.
pub data Action : Type 0 where
  write_buffer : ℕ → Bytes → Action
  close : ℕ → Action

-- The sessions whose sockets are open.
unfoldable pub is_open : ℕ → List ℕ → Bool
is_open id [] = false
is_open id (k ∷ sockets) = let later = is_open id sockets in if k == id then true else later

unfoldable pub without_socket : ℕ → List ℕ → List ℕ
without_socket id [] = []
without_socket id (k ∷ sockets) =
    let rest = without_socket id sockets in if k == id then rest else k ∷ rest

-- `net::SessionObserver`: what is called with a session, whose id comes first. `A` is what observers
-- share. `err` is an exception.
pub record ObserverInterface (H A : Type 0) : Type 0 where
  pub handle_data : ℕ → H → A → Bytes → Result (H × A × List Action)
  pub handle_write_complete : ℕ → H → A → Result (H × A × List Action)
  pub handle_close : ℕ → H → A → Result A

module _ {H A : Type 0} (observer : ObserverInterface H A) where
  open observer use {handle_data, handle_write_complete, handle_close}

  -- A session handler, the static `index`, what observers share, the waiting operations, and
  -- the sessions with an open socket.
  pub record Tcp : Type 0 where
    pub sessions : SessionHandler H
    pub index : ℕ
    pub shared : A
    pub pending : List Operation
    pub sockets : List ℕ

  -- A server or a client with this creator, before it has a session.
  abbrev pub new : Option H → ℕ → A → Tcp
  new created index shared = record {
    sessions = register_creator H created (empty H);
    index = index;
    shared = shared;
    pending = [];
    sockets = [];
  }

  -- `Session(accessor, io_service)`
  abbrev pub new_session : SessionAccessor H → Session H
  new_session a = record (session_with H a) { state = State.run }

  unfoldable pub find_session : ℕ → List (Session H) → Option H
  find_session id [] = none
  find_session id (s ∷ pool) =
      let later = find_session id pool in
      if s.accessor.k_id == id then some s.accessor.handler else later

  -- What the session's observer holds now.
  unfoldable pub set_handler : ℕ → H → List (Session H) → List (Session H)
  set_handler id h [] = []
  set_handler id h (s ∷ pool) =
      let rest = set_handler id h pool in
      if s.accessor.k_id == id
      then record s { accessor = record s.accessor { handler = h } } ∷ pool
      else s ∷ rest

  unfoldable pub set_state : ℕ → State → List (Session H) → List (Session H)
  set_state id state [] = []
  set_state id state (s ∷ pool) =
      let rest = set_state id state pool in
      if s.accessor.k_id == id then record s { state = state } ∷ pool else s ∷ rest

  abbrev pub wait_for : Operation → Tcp → Tcp
  wait_for o t = record t { pending = t.pending ++ (o ∷ []) }

  -- `Read` and `Write`
  abbrev pub read : ℕ → Tcp → Tcp
  read id t = wait_for (async_read_some id) t

  abbrev pub write : ℕ → Bytes → Tcp → Tcp
  write id buffer t = wait_for (async_write id buffer) t

  -- The socket of a session is open when it has been accepted or connected.
  abbrev pub open_socket : ℕ → Tcp → Tcp
  open_socket id t = record t { sockets = id ∷ t.sockets }

  abbrev pub closed_socket : ℕ → Tcp → Tcp
  closed_socket id t = record t { sockets = without_socket id t.sockets }

  -- `Close` leaves the waiting operations to complete with an error. `socket_.cancel()` throws where
  -- the socket is not open.
  unfoldable pub close_session_socket : ℕ → Tcp → Result Tcp
  close_session_socket id t =
      if is_open id t.sockets then ok (closed_socket id t) else err system_error

  -- What an observer does with sessions.
  unfoldable pub perform : List Action → Tcp → Result Tcp
  unfolding close_session_socket
  perform [] t = ok t
  perform (write_buffer id buffer ∷ actions) t = perform actions (write id buffer t)
  perform (close id ∷ actions) t = close_session_socket id t >>= perform actions

  -- `Destroy`; the socket goes with the session.
  unfoldable pub destroy : ℕ → H → Tcp → Result Tcp
  unfolding set_state
  destroy id h t = do
    let pool = set_state id State.closed t.sessions.session_pool
    let sessions = record t.sessions { session_pool = pool }
    shared ← handle_close id h t.shared
    ok (record (closed_socket id t) { shared = shared; sessions = close_session H id sessions })

  -- What an observer answered.
  unfoldable pub resume : ℕ → H × A × List Action → Tcp → Result Tcp
  unfolding set_handler perform
  resume id (h, shared, actions) t = perform actions (record t {
    shared = shared;
    sessions = record t.sessions { session_pool = set_handler id h t.sessions.session_pool };
  })

  -- `HandleRead` on a session; there is none where its memory has been freed.
  unfoldable pub handle_read : ℕ → Option H → Option Bytes → Tcp → Result Tcp
  unfolding destroy resume
  handle_read id none received t = err use_after_free
  handle_read id (some h) (some bytes) t = do
    answer ← handle_data id h t.shared bytes
    t' ← resume id answer t
    ok (read id t')
  handle_read id (some h) none t = destroy id h t

  -- `HandleWrite`
  unfoldable pub handle_write : ℕ → Option H → Option Bytes → Tcp → Result Tcp
  unfolding destroy resume
  handle_write id none written t = err use_after_free
  handle_write id (some h) (some bytes) t = do
    answer ← handle_write_complete id h t.shared
    resume id answer t
  handle_write id (some h) none t = destroy id h t

  -- `CHECK_NOTNULL(accessor)`, and what follows it in both `CreateSession`s.
  unfoldable pub checked : Option (SessionAccessor H) × ℕ → Tcp → Result (SessionAccessor H × Tcp)
  checked (none, index) t = err check_failed
  checked (some a, index) t =
      ok (a, record t { sessions = add_session H (new_session a) t.sessions; index = index })

  -- `Server::CreateSession`, which `Start` calls first
  unfoldable pub create_session : Tcp → Result Tcp
  unfolding checked
  create_session t = do
    (a, t') ← checked (get_new_session_accessor H t.sessions t.index) t
    ok (wait_for (async_accept a.k_id) t')

  -- `HandleAccept`; where it fails, the socket was not opened.
  unfoldable pub handle_accept : ℕ → Option Bytes → Tcp → Result Tcp
  unfolding create_session close_session_socket
  handle_accept id (some bytes) t = create_session (read id (open_socket id t))
  handle_accept id none t = close_session_socket id t

  -- `Client::CreateSession`; `connected` is whether the connection was made.
  unfoldable pub connect_session : Bool → Tcp → Result (ℕ × Tcp)
  unfolding checked
  connect_session connected t = do
    (a, t') ← checked (get_new_session_accessor H t.sessions t.index) t
    if connected then ok (a.k_id, open_socket a.k_id t') else err system_error

  unfoldable pub complete_operation : Operation → Option Bytes → Tcp → Result Tcp
  unfolding handle_read handle_write handle_accept find_session
  complete_operation (async_read_some id) outcome t =
      handle_read id (find_session id t.sessions.session_pool) outcome t
  complete_operation (async_write id buffer) outcome t =
      handle_write id (find_session id t.sessions.session_pool) outcome t
  complete_operation (async_accept id) outcome t = handle_accept id outcome t

abbrev pub behind :
    Operation → Option (Operation × List Operation) → Option (Operation × List Operation)
behind o none = none
behind o (some (p, rest)) = some (p, o ∷ rest)

-- One of the waiting operations, and the others.
unfoldable pub pick : ℕ → List Operation → Option (Operation × List Operation)
pick n [] = none
pick zero (o ∷ os) = some (o, os)
pick (suc n) (o ∷ os) = behind o (pick n os)

module _ {H A : Type 0} (observer : ObserverInterface H A) where
  unfoldable pub picked :
      Option (Operation × List Operation) → Option Bytes → Tcp observer → Result (Tcp observer)
  picked none outcome t = ok t
  picked (some (o, rest)) outcome t =
      complete_operation observer o outcome (record t { pending = rest })

  -- The event loop completes a waiting operation.
  unfoldable pub complete : ℕ → Option Bytes → Tcp observer → Result (Tcp observer)
  unfolding pick picked
  complete n outcome t = picked (pick n t.pending) outcome t

  -- The event loop, for a sequence of completions.
  unfoldable pub complete_all : List (ℕ × Option Bytes) → Tcp observer → Result (Tcp observer)
  complete_all [] t = ok t
  complete_all ((n, outcome) ∷ events) t = complete n outcome t >>= complete_all events
