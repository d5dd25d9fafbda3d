-- ===== src/Tcp/Receiving.antt =====
-- A read that ends with bytes, from the list of what waits to the session's next read.
use tv_cast.Prelude.{ℕ, ◌≡◌, ap, ◌∙◌, List, some, Bytes, ok, ◌>>=◌}
use tv_cast.Tcp.{
  Operation, async_read_some, Action, ObserverInterface, Tcp, find_session, pick, picked, complete,
  complete_operation, handle_read, resume, read,
}

-- Where a read is the operation that completes, on a session of the pool whose observer returns, the
-- observer's answer is carried out, and the next read waits.
pub complete-read :
    {H A : Type 0} (observer : ObserverInterface H A) (n id : ℕ) (bytes : Bytes)
    (rest : List Operation) {h : H} (answer : H × A × List Action) (t : Tcp observer)
    → pick n t.pending ≡ some (async_read_some id, rest)
    → find_session observer id t.sessions.session_pool ≡ some h
    → observer.handle_data id h t.shared bytes ≡ ok answer
    → complete observer n (some bytes) t
      ≡ (resume observer id answer (record t { pending = rest }) >>= λ t'. ok (read observer id t'))
unfolding complete picked complete_operation handle_read
complete-read observer n id bytes rest answer t waits found handled =
    let t' = record t { pending = rest } in
    ap (λ p. picked observer p (some bytes) t) waits
    ∙ ap (λ s. handle_read observer id s (some bytes) t') found
    ∙ ap (λ r. r >>= λ x. resume observer id x t' >>= λ u. ok (read observer id u)) handled
