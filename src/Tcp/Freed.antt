-- ===== src/Tcp/Freed.antt =====
-- A session that is freed while an operation still waits on it.
use tv_cast.Prelude.{
  ℕ, ◌≡◌, refl, ap, ◌∙◌, arith, List, [], ◌∷◌, Option, none, some, Bytes, ok, err, use_after_free,
}
use tv_cast.Net.SessionHandler.{Session, State, close_session}
use tv_cast.Net.SessionHandler.Ids.{IsNumbered, count_id, close_session-IsNumbered}
use tv_cast.Tcp.Contract.{erase_session-set_state}
use tv_cast.Tcp.{
  Operation, async_read_some, async_write, async_accept, ObserverInterface, Tcp, find_session,
  destroy, handle_read, handle_write, closed_socket, complete_operation, pick, picked, complete,
  complete_all,
}

pub find_session-none :
    {H A : Type 0} (observer : ObserverInterface H A) (id : ℕ) (pool : List (Session H))
    → count_id id pool ≡ 0
    → find_session observer id pool ≡ none
unfolding count_id find_session
find_session-none observer id [] gone = refl
find_session-none observer id (s ∷ pool) gone =
    ground (arith, find_session-none observer id pool (omega arith))

-- The operation is a read of this session, or a write to it.
abbrev pub IsOn : ℕ → Operation → Type 0
IsOn id (async_read_some k) = k ≡ id
IsOn id (async_write k buffer) = k ≡ id
IsOn id (async_accept k) = ⊥

module _ {H A : Type 0} (observer : ObserverInterface H A) (id : ℕ) where
  failed-destroys :
      (o : Operation) (h : H) (t : Tcp observer)
      → IsOn id o
      → find_session observer id t.sessions.session_pool ≡ some h
      → complete_operation observer o none t ≡ destroy observer id h t
  unfolding complete_operation handle_read handle_write
  failed-destroys (async_read_some k) h t same found =
      ap (λ i. handle_read observer i (find_session observer i t.sessions.session_pool) none t) same
      ∙ ap (λ s. handle_read observer id s none t) found
  failed-destroys (async_write k b) h t same found =
      ap (λ i. handle_write observer i (find_session observer i t.sessions.session_pool) none t)
        same
      ∙ ap (λ s. handle_write observer id s none t) found
  failed-destroys (async_accept k) h t same found = absurd same

  gone-freed :
      (o : Operation) (outcome : Option Bytes) (t : Tcp observer)
      → IsOn id o
      → find_session observer id t.sessions.session_pool ≡ none
      → complete_operation observer o outcome t ≡ err use_after_free
  unfolding complete_operation handle_read handle_write
  gone-freed (async_read_some k) outcome t same gone =
      ap (λ i. handle_read observer i (find_session observer i t.sessions.session_pool) outcome t)
        same
      ∙ ap (λ s. handle_read observer id s outcome t) gone
  gone-freed (async_write k b) outcome t same gone =
      ap (λ i. handle_write observer i (find_session observer i t.sessions.session_pool) outcome t)
        same
      ∙ ap (λ s. handle_write observer id s outcome t) gone
  gone-freed (async_accept k) outcome t same gone = absurd same

  -- Where two operations, each a read or a write, wait on one session of a numbered pool, whatever
  -- else waits and in whatever order, and one of them fails, the session is freed (if its observer's
  -- `HandleClose` returns), and the handler of the other, which is bound to the session's address,
  -- then runs on freed memory, whatever its outcome is.
  pub complete_all-freed :
      (n m : ℕ) (o p : Operation) (rest others : List Operation) (outcome : Option Bytes) (h : H)
      (shared : A) (t : Tcp observer)
      → IsNumbered t.index t.sessions.session_pool
      → find_session observer id t.sessions.session_pool ≡ some h
      → observer.handle_close id h t.shared ≡ ok shared
      → pick n t.pending ≡ some (o, rest)
      → pick m rest ≡ some (p, others)
      → IsOn id o
      → IsOn id p
      → complete_all observer ((n, none) ∷ (m, outcome) ∷ []) t ≡ err use_after_free
  unfolding complete_all complete picked destroy close_session
  complete_all-freed n m o p rest others outcome h shared t numbered found closes first second on
        also =
      let (gone, before, left) = close_session-IsNumbered t.sessions t.index id numbered in
      let t' = record t { pending = rest } in
      let freed = record (closed_socket observer id t') {
        shared = shared;
        sessions = close_session H id t.sessions;
      } in
      let destroyed : complete observer n none t ≡ ok freed =
        ap (λ r. picked observer r none t) first
        ∙ failed-destroys o h t' on found
        ∙ rw (closes, erase_session-set_state observer id State.closed t.sessions.session_pool)
            refl in
      let used : complete observer m outcome freed ≡ err use_after_free =
        ap (λ r. picked observer r outcome freed) second
        ∙ gone-freed p outcome (record freed { pending = others }) also
            (find_session-none observer id freed.sessions.session_pool gone) in
      rw (destroyed, used) refl
