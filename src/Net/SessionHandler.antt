-- ===== src/Net/SessionHandler.antt =====
-- `SessionAccessor`, `Session` and `SessionHandler` of anet/net. `H` is what a `SessionObserver`
-- holds; a pointer to a creator is what its `Create` returns.
pub mod Ids
use tv_cast.Prelude.{ℕ, ◌+◌, ◌%◌, ◌^◌, List, [], ◌∷◌, ◌++◌, Option, none, some, ◌==◌, if◌then◌else◌}

-- `Session::State`
pub data State : Type 0 where
  init : State
  run : State
  closed : State

module _ (H : Type 0) where
  pub record SessionAccessor : Type 0 where
    pub handler : H
    pub k_id : ℕ

  pub record Session : Type 0 where
    pub accessor : SessionAccessor
    pub state : State

  -- `Session(accessor)`
  abbrev pub session_with : SessionAccessor → Session
  session_with a = record { accessor = a; state = init }

  -- `creator_`, with the handler that it creates or a null pointer, and `session_pool_`.
  pub record SessionHandler : Type 0 where
    pub creator : Option (Option H)
    pub session_pool : List Session

  -- `SessionHandler()`
  abbrev pub empty : SessionHandler
  empty = record { creator = none; session_pool = [] }

  abbrev pub register_creator : Option H → SessionHandler → SessionHandler
  register_creator created s = record s { creator = some created }

  -- The pool without its first session with this id.
  unfoldable pub erase_session : ℕ → List Session → List Session
  erase_session id [] = []
  erase_session id (a ∷ pool) =
      let rest = erase_session id pool in if a.accessor.k_id == id then pool else a ∷ rest

  -- `CloseSession`
  unfoldable pub close_session : ℕ → SessionHandler → SessionHandler
  close_session id s = record s { session_pool = erase_session id s.session_pool }

  -- The branches of `GetNewSessionAccessor`, and the static `index` behind it.
  unfoldable pub accessor_of : Option (Option H) → ℕ → Option SessionAccessor × ℕ
  accessor_of none index = (none, index)
  accessor_of (some none) index = (none, index)
  accessor_of (some (some h)) index =
      (some (record { handler = h; k_id = index }), (index + 1) % 2 ^ 32)

  -- `GetNewSessionAccessor`
  unfoldable pub get_new_session_accessor : SessionHandler → ℕ → Option SessionAccessor × ℕ
  unfolding accessor_of
  get_new_session_accessor s index = accessor_of s.creator index

  -- `AddSession`
  unfoldable pub add_session : Session → SessionHandler → SessionHandler
  add_session a s = record s { session_pool = s.session_pool ++ (a ∷ []) }
