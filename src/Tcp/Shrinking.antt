-- ===== src/Tcp/Shrinking.antt =====
-- A pool that accepts nothing.
use tv_cast.Prelude.{
  inl, inr, ℕ, ◌≤◌, ◌≡◌, refl, ap, ◌∙◌, arith, List, [], ◌∷◌, Option, none, some, Bytes, Result, ok,
  err, ◌>>=◌,
}
use tv_cast.Net.SessionHandler.{State, close_session}
use tv_cast.Net.SessionHandler.Ids.{count_id, count_id-erase_session}
use tv_cast.Tcp.{
  Operation, async_read_some, async_write, async_accept, Action, write_buffer, close,
  ObserverInterface, Tcp, closed_socket, wait_for, find_session, destroy, handle_read, handle_write,
  complete_operation, pick, picked, complete,
}
use tv_cast.Tcp.Resuming.{performed, resumed, resume-cases}
use tv_cast.Tcp.Contract.{count_id-set_handler, erase_session-set_state}
use tv_cast.Tcp.Accepting.{accepts, is_accept, accepts-pick}

module _ {H A : Type 0} (observer : ObserverInterface H A) where
  pub perform-sessions :
      (actions : List Action) (t : Tcp observer)
      → ((performed observer actions t).shared ≡ t.shared)
        × ((performed observer actions t).sessions ≡ t.sessions)
  unfolding performed
  perform-sessions [] t = (refl, refl)
  perform-sessions (write_buffer id b ∷ actions) t =
      perform-sessions actions (wait_for observer (async_write id b) t)
  perform-sessions (close id ∷ actions) t = perform-sessions actions (closed_socket observer id t)

  -- Every session that is left was there before.
  abbrev pub Shrinks : Tcp observer → Result (Tcp observer) → Type 0
  Shrinks t (ok t') =
      (id : ℕ) → count_id id t'.sessions.session_pool ≤ count_id id t.sessions.session_pool
  Shrinks t (err e) = Unit {0}

  bind-Shrinks :
      {B : Type 0} (t : Tcp observer) (m : Result B) (f : B → Result (Tcp observer))
      → ((b : B) → Shrinks t (f b))
      → Shrinks t (m >>= f)
  bind-Shrinks t (ok b) f h = h b
  bind-Shrinks t (err e) f h = tt

  resumed-sized :
      (id k : ℕ) (answer : H × A × List Action) (t : Tcp observer)
      → count_id k (resumed observer id answer t).sessions.session_pool
        ≡ count_id k t.sessions.session_pool
  unfolding resumed
  resumed-sized id k (h, a, actions) t =
      ap (λ s. count_id k s.session_pool) (perform-sessions actions _).1
      ∙ count_id-set_handler observer id k h t.sessions.session_pool

  destroy-Shrinks : (id : ℕ) (h : H) (t : Tcp observer) → Shrinks t (destroy observer id h t)
  unfolding destroy close_session
  destroy-Shrinks id h t = bind-Shrinks t (observer.handle_close id h t.shared) _ (λ a k.
      let pool = t.sessions.session_pool in
      let same = erase_session-set_state observer id State.closed pool in
      rw same (ground (arith, count_id-erase_session id k pool)))

  handle_read-Shrinks :
      (id : ℕ) (s : Option H) (outcome : Option Bytes) (t : Tcp observer)
      → Shrinks t (handle_read observer id s outcome t)
  unfolding handle_read
  handle_read-Shrinks id none outcome t = tt
  handle_read-Shrinks id (some h) none t = destroy-Shrinks id h t
  handle_read-Shrinks id (some h) (some bytes) t =
      bind-Shrinks t (observer.handle_data id h t.shared bytes) _ (λ answer.
        elim (resume-cases observer id answer t) [
          | inl done ↦ rw done (λ k. omega (arith, resumed-sized id k answer t))
          | inr failed ↦ rw failed tt
        ])

  handle_write-Shrinks :
      (id : ℕ) (s : Option H) (outcome : Option Bytes) (t : Tcp observer)
      → Shrinks t (handle_write observer id s outcome t)
  unfolding handle_write
  handle_write-Shrinks id none outcome t = tt
  handle_write-Shrinks id (some h) none t = destroy-Shrinks id h t
  handle_write-Shrinks id (some h) (some bytes) t =
      bind-Shrinks t (observer.handle_write_complete id h t.shared) _ (λ answer.
        elim (resume-cases observer id answer t) [
          | inl done ↦ rw done (λ k. omega (arith, resumed-sized id k answer t))
          | inr failed ↦ rw failed tt
        ])

  complete_operation-Shrinks :
      (o : Operation) (outcome : Option Bytes) (t : Tcp observer)
      → is_accept o ≡ 0
      → Shrinks t (complete_operation observer o outcome t)
  unfolding complete_operation
  complete_operation-Shrinks (async_read_some id) outcome t without =
      handle_read-Shrinks id (find_session observer id t.sessions.session_pool) outcome t
  complete_operation-Shrinks (async_write id b) outcome t without =
      handle_write-Shrinks id (find_session observer id t.sessions.session_pool) outcome t
  complete_operation-Shrinks (async_accept id) outcome t without = absurd (omega arith)

  picked-Shrinks :
      (n : ℕ) (r : Option (Operation × List Operation)) (outcome : Option Bytes) (t : Tcp observer)
      → pick n t.pending ≡ r
      → accepts t.pending ≡ 0
      → Shrinks t (picked observer r outcome t)
  unfolding picked
  picked-Shrinks n none outcome t e without = λ id. omega arith
  picked-Shrinks n (some (o, rest)) outcome t e without =
      complete_operation-Shrinks o outcome (record t { pending = rest })
        (omega (arith, accepts-pick n t.pending e))

  -- Where no accept waits, a completion adds no session.
  pub complete-Shrinks :
      (n : ℕ) (outcome : Option Bytes) (t : Tcp observer)
      → accepts t.pending ≡ 0
      → Shrinks t (complete observer n outcome t)
  unfolding complete
  complete-Shrinks n outcome t without = picked-Shrinks n (pick n t.pending) outcome t refl without
