-- ===== src/Tcp/Steps.antt =====
-- What one handler leaves: a state between two handlers, if nothing else waits on a session that it
-- frees.
use tv_cast.Prelude.{
  Bool-cases, ℕ, ◌+◌, ◌<◌, ◌^◌, ◌≡◌, refl, sym, arith, List, [], ◌∷◌, Option, none, some, Bytes,
  Result, ok, err, ◌>>=◌, ==_iff, inl, inr,
}
use mathlib.Core.Path.{subst}
use tv_cast.Net.SessionHandler.{State, close_session}
use tv_cast.Net.SessionHandler.Ids.{count_id, close_session-IsNumbered}
use tv_cast.Tcp.{
  Operation, async_read_some, async_write, async_accept, Action, write_buffer, close,
  ObserverInterface, Tcp, set_handler, wait_for, is_open, open_socket, closed_socket,
  close_session_socket, destroy, handle_read, handle_write, create_session, handle_accept,
  complete_operation,
}
use tv_cast.Tcp.Resuming.{performed, resumed, resume-cases}
use tv_cast.Tcp.Uses.{session_of, uses}
use tv_cast.Tcp.Contract.{
  On, Promise, Kept, Dropped, Keeps, Held-erase_session, Held-set_handler, find_session-count,
  count_id-set_handler, erase_session-set_state,
}
use tv_cast.Tcp.Live.{
  other_sockets, IsLive, Outcome, wait-IsLive, added-IsLive, added-here, checked-made,
}

module _ {H A : Type 0} (observer : ObserverInterface H A) (promise : Promise H A) where
  open promise use {Holds, Fixed, Names, least}

  bind-Outcome :
      (id : ℕ) (a : A) (m : Result (H × A × List Action))
      (f : H × A × List Action → Result (Tcp observer))
      → Kept promise id a m
      → ((h : H) (a' : A) (actions : List Action)
          → Kept promise id a (ok (h, a', actions))
          → Outcome observer promise (f (h, a', actions)))
      → Outcome observer promise (m >>= f)
  bind-Outcome id a (ok (h, a', actions)) f kept next = next h a' actions kept
  bind-Outcome id a (err e) f expected next = expected

  dropped-Outcome :
      (id : ℕ) (a : A) (m : Result A) (f : A → Result (Tcp observer))
      → Dropped promise id a m
      → ((a' : A) → Dropped promise id a (ok a') → Outcome observer promise (f a'))
      → Outcome observer promise (m >>= f)
  dropped-Outcome id a (ok a') f dropped next = next a' dropped
  dropped-Outcome id a (err e) f expected next = expected

  perform-IsLive :
      (id : ℕ) (actions : List Action) (t : Tcp observer)
      → On id actions
      → 0 < count_id id t.sessions.session_pool
      → IsLive observer promise t
      → IsLive observer promise (performed observer actions t)
        × (0 < count_id id (performed observer actions t).sessions.session_pool)
  unfolding performed
  perform-IsLive id [] t on here live = (live, here)
  perform-IsLive id (write_buffer k b ∷ actions) t (same, on) here live =
      perform-IsLive id actions (wait_for observer (async_write k b) t) on here (
        wait-IsLive observer promise (async_write k b) t
          (subst (λ i. 0 < count_id i t.sessions.session_pool) (sym same) here) live)
  perform-IsLive id (close k ∷ actions) t (same, on) here live =
      perform-IsLive id actions (closed_socket observer k t) on here
        (other_sockets observer promise _ t live)

  resume-IsLive :
      (id : ℕ) (h : H) (a : A) (actions : List Action) (t : Tcp observer)
      → Kept promise id t.shared (ok (h, a, actions))
      → 0 < count_id id t.sessions.session_pool
      → IsLive observer promise t
      → IsLive observer promise (resumed observer id (h, a, actions) t)
        × (0 < count_id id (resumed observer id (h, a, actions) t).sessions.session_pool)
  unfolding resumed
  resume-IsLive id h a actions t (holds, fixed, names, on) here live =
      let pool = t.sessions.session_pool in
      let sized : (k : ℕ) → count_id k (set_handler observer id h pool) ≡ count_id k pool =
        λ k. count_id-set_handler observer id k h pool in
      perform-IsLive id actions
        (record t {
          shared = a;
          sessions = record t.sessions { session_pool = set_handler observer id h pool };
        })
        on (ground (arith, sized id))
        (record {
          owned = λ k used. ground (arith, live.owned k used, sized k);
          numbered = record {
            once = λ k. ground (arith, live.numbered.once k, sized k);
            below = λ k up. ground (arith, live.numbered.below k up, sized k);
          };
          held = Held-set_handler Holds observer id h pool live.held holds;
          fixed = fixed;
          named = λ k name. elim (names k name) [
            | inl same ↦ omega (arith, sized k, rw (sym same) at here)
            | inr before ↦ omega (arith, sized k, live.named k before)
          ];
          counted = live.counted;
          creates = live.creates;
        })

  -- A session on which nothing else waits is freed.
  destroy-Outcome :
      (id : ℕ) (h : H) (t : Tcp observer)
      → Keeps promise observer
      → Holds h
      → IsLive observer promise t
      → uses id t.pending ≡ 0
      → Outcome observer promise (destroy observer id h t)
  unfolding destroy close_session
  destroy-Outcome id h t keeps holds live alone =
      let pool = t.sessions.session_pool in
      let (gone, others, numbered) = close_session-IsNumbered t.sessions t.index id live.numbered in
      dropped-Outcome id t.shared (observer.handle_close id h t.shared) _
        (keeps.closed id h t.shared holds live.fixed)
        (λ a (fixed, names). rw (erase_session-set_state observer id State.closed pool) (record {
          owned = λ k used. ground (arith, live.owned k, others k, ==_iff k id);
          numbered = numbered;
          held = Held-erase_session Holds id pool live.held;
          fixed = fixed;
          named = λ k name.
              ground
                (arith, live.named k (names k name).1, (names k name).0, others k, ==_iff k id);
          counted = live.counted;
          creates = live.creates;
        }))

  -- A handler on a session of the pool, which is the only one waiting on it if it is to fail.
  handle_read-Outcome :
      (id : ℕ) (h : H) (outcome : Option Bytes) (t : Tcp observer)
      → Keeps promise observer
      → Holds h
      → IsLive observer promise t
      → 0 < count_id id t.sessions.session_pool
      → (outcome ≡ none → uses id t.pending ≡ 0)
      → Outcome observer promise (handle_read observer id (some h) outcome t)
  unfolding handle_read
  handle_read-Outcome id h none t keeps holds live here alone =
      destroy-Outcome id h t keeps holds live (alone refl)
  handle_read-Outcome id h (some bytes) t keeps holds live here alone =
      bind-Outcome id t.shared (observer.handle_data id h t.shared bytes) _
        (keeps.handled id h t.shared bytes holds live.fixed)
        (λ h' a actions kept. elim (resume-cases observer id (h', a, actions) t) [
          | inl done ↦
              let (live', here') = resume-IsLive id h' a actions t kept here live in
              rw done (
                wait-IsLive observer promise (async_read_some id)
                  (resumed observer id (h', a, actions) t) here' live')
          | inr failed ↦ rw failed ((λ e. cc), (λ e. cc))
        ])

  handle_write-Outcome :
      (id : ℕ) (h : H) (outcome : Option Bytes) (t : Tcp observer)
      → Keeps promise observer
      → Holds h
      → IsLive observer promise t
      → 0 < count_id id t.sessions.session_pool
      → (outcome ≡ none → uses id t.pending ≡ 0)
      → Outcome observer promise (handle_write observer id (some h) outcome t)
  unfolding handle_write
  handle_write-Outcome id h none t keeps holds live here alone =
      destroy-Outcome id h t keeps holds live (alone refl)
  handle_write-Outcome id h (some bytes) t keeps holds live here alone =
      bind-Outcome id t.shared (observer.handle_write_complete id h t.shared) _
        (keeps.written id h t.shared holds live.fixed)
        (λ h' a actions kept. elim (resume-cases observer id (h', a, actions) t) [
          | inl done ↦ rw done (resume-IsLive id h' a actions t kept here live).0
          | inr failed ↦ rw failed ((λ e. cc), (λ e. cc))
        ])

  pub create_session-Outcome :
      (t : Tcp observer)
      → IsLive observer promise t
      → t.index + 1 < 2 ^ 32
      → Outcome observer promise (create_session observer t)
  unfolding create_session
  create_session-Outcome t live bound =
      let (h, made, holds) = live.creates in
      rw (checked-made observer promise t h made) (
        wait-IsLive observer promise (async_accept t.index) _ (added-here observer promise t h)
          (added-IsLive observer promise t h made holds live bound))

  pub complete_operation-Outcome :
      (o : Operation) (outcome : Option Bytes) (t : Tcp observer)
      → Keeps promise observer
      → IsLive observer promise t
      → t.index + 1 < 2 ^ 32
      → 0 < count_id (session_of o) t.sessions.session_pool
      → (outcome ≡ none → uses (session_of o) t.pending ≡ 0)
      → Outcome observer promise (complete_operation observer o outcome t)
  unfolding complete_operation handle_accept close_session_socket
  complete_operation-Outcome (async_read_some id) outcome t keeps live bound here alone =
      let (h, found, holds) =
        find_session-count Holds observer id t.sessions.session_pool here live.held in
      rw found (handle_read-Outcome id h outcome t keeps holds live here alone)
  complete_operation-Outcome (async_write id b) outcome t keeps live bound here alone =
      let (h, found, holds) =
        find_session-count Holds observer id t.sessions.session_pool here live.held in
      rw found (handle_write-Outcome id h outcome t keeps holds live here alone)
  complete_operation-Outcome (async_accept id) none t keeps live bound here alone =
      elim (Bool-cases (is_open id t.sockets)) [
        | inl open_now ↦ rw open_now (other_sockets observer promise _ t live)
        | inr gone ↦ rw gone ((λ e. cc), (λ e. cc))
      ]
  complete_operation-Outcome (async_accept id) (some bytes) t keeps live bound here alone =
      let t' = open_socket observer id t in
      create_session-Outcome (wait_for observer (async_read_some id) t')
        (wait-IsLive observer promise (async_read_some id) t' here
          (other_sockets observer promise t'.sockets t live))
        bound
