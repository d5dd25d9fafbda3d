-- ===== src/Tcp/Accepting.antt =====
-- How many accepts wait.
use tv_cast.Prelude.{
  inl, inr, Bool-cases, ℕ, zero, suc, ◌+◌, ◌≤◌, ◌≡◌, refl, ap, arith, List, [], ◌∷◌, ◌++◌, Option,
  none, some, Bytes, Result, ok, err, ◌>>=◌,
}
use tv_cast.Net.SessionHandler.{SessionAccessor, get_new_session_accessor}
use tv_cast.Tcp.Resuming.{performed, resumed, resume-cases}
use tv_cast.Tcp.Uses.{picked_later}
use tv_cast.Tcp.{
  Operation, async_read_some, async_write, async_accept, Action, write_buffer, close,
  ObserverInterface, Tcp, wait_for, find_session, is_open, open_socket, closed_socket,
  close_session_socket, destroy, handle_read, handle_write, checked, create_session, handle_accept,
  complete_operation, pick, picked,
}

abbrev pub is_accept : Operation → ℕ
is_accept (async_read_some id) = 0
is_accept (async_write id buffer) = 0
is_accept (async_accept id) = 1

unfoldable pub accepts : List Operation → ℕ
accepts [] = 0
accepts (o ∷ os) = is_accept o + accepts os

accepts-append :
    (os : List Operation) (o : Operation) → accepts (os ++ (o ∷ [])) ≡ accepts os + is_accept o
unfolding accepts
accepts-append [] o = omega arith
accepts-append (p ∷ os) o = omega (arith, accepts-append os o)

pub accepts-pick :
    (n : ℕ) (os : List Operation) {o : Operation} {rest : List Operation}
    → pick n os ≡ some (o, rest)
    → accepts os ≡ is_accept o + accepts rest
unfolding pick accepts
accepts-pick n [] e = absurd (cc e)
accepts-pick zero (p ∷ os) e = cc e
accepts-pick (suc n) (p ∷ os) {o} {rest} e =
    let (others, found, split) = picked_later p (pick n os) e in
    let all : accepts rest ≡ accepts (p ∷ others) = ap accepts split in
    omega (arith, all, accepts-pick n os found)

module _ {H A : Type 0} (observer : ObserverInterface H A) where
  -- A result with at most `n` accepts.
  abbrev pub AtMost : ℕ → Result (Tcp observer) → Type 0
  AtMost n (ok t) = accepts t.pending ≤ n
  AtMost n (err e) = Unit {0}

  bind-AtMost :
      {B : Type 0} (n : ℕ) (m : Result B) (f : B → Result (Tcp observer))
      → ((b : B) → AtMost n (f b))
      → AtMost n (m >>= f)
  bind-AtMost n (ok b) f h = h b
  bind-AtMost n (err e) f h = tt

  perform-AtMost :
      (actions : List Action) (t : Tcp observer)
      → accepts (performed observer actions t).pending ≡ accepts t.pending
  unfolding performed
  perform-AtMost [] t = refl
  perform-AtMost (write_buffer id b ∷ actions) t = omega (
    arith,
    perform-AtMost actions (wait_for observer (async_write id b) t),
    accepts-append t.pending (async_write id b),
  )
  perform-AtMost (close id ∷ actions) t = perform-AtMost actions (closed_socket observer id t)

  resume-AtMost :
      (id : ℕ) (answer : H × A × List Action) (t : Tcp observer)
      → accepts (resumed observer id answer t).pending ≡ accepts t.pending
  unfolding resumed
  resume-AtMost id (h, shared, actions) t = perform-AtMost actions _

  handle_read-AtMost :
      (id : ℕ) (s : Option H) (outcome : Option Bytes) (t : Tcp observer)
      → AtMost (accepts t.pending) (handle_read observer id s outcome t)
  unfolding handle_read destroy
  handle_read-AtMost id none outcome t = tt
  handle_read-AtMost id (some h) none t =
      bind-AtMost _ (observer.handle_close id h t.shared) _ (λ shared. omega arith)
  handle_read-AtMost id (some h) (some bytes) t =
      bind-AtMost _ (observer.handle_data id h t.shared bytes) _ (λ answer.
        elim (resume-cases observer id answer t) [
          | inl done ↦ rw done (
              omega (
                arith,
                resume-AtMost id answer t,
                accepts-append (resumed observer id answer t).pending (async_read_some id),
              ))
          | inr failed ↦ rw failed tt
        ])

  handle_write-AtMost :
      (id : ℕ) (s : Option H) (outcome : Option Bytes) (t : Tcp observer)
      → AtMost (accepts t.pending) (handle_write observer id s outcome t)
  unfolding handle_write destroy
  handle_write-AtMost id none outcome t = tt
  handle_write-AtMost id (some h) none t =
      bind-AtMost _ (observer.handle_close id h t.shared) _ (λ shared. omega arith)
  handle_write-AtMost id (some h) (some bytes) t =
      bind-AtMost _ (observer.handle_write_complete id h t.shared) _ (λ answer.
        elim (resume-cases observer id answer t) [
          | inl done ↦ rw done (omega (arith, resume-AtMost id answer t))
          | inr failed ↦ rw failed tt
        ])

  checked-pending :
      (got : Option (SessionAccessor H) × ℕ) (t : Tcp observer)
      → AtMost
          (accepts t.pending + 1)
          (checked observer got t >>= λ (a, t'). ok (wait_for observer (async_accept a.k_id) t'))
  unfolding checked
  checked-pending (none, index) t = tt
  checked-pending (some a, index) t = omega (arith, accepts-append t.pending (async_accept a.k_id))

  AtMost-weaken : (m n : ℕ) (r : Result (Tcp observer)) → m ≤ n → AtMost m r → AtMost n r
  AtMost-weaken m n (ok t) le h = omega arith
  AtMost-weaken m n (err e) le h = tt

  complete_operation-AtMost :
      (o : Operation) (outcome : Option Bytes) (t : Tcp observer)
      → AtMost (accepts t.pending + is_accept o) (complete_operation observer o outcome t)
  unfolding complete_operation handle_accept create_session close_session_socket
  complete_operation-AtMost (async_read_some id) outcome t =
      AtMost-weaken (accepts t.pending) (accepts t.pending + 0) _ (omega arith)
        (handle_read-AtMost id (find_session observer id t.sessions.session_pool) outcome t)
  complete_operation-AtMost (async_write id b) outcome t =
      AtMost-weaken (accepts t.pending) (accepts t.pending + 0) _ (omega arith)
        (handle_write-AtMost id (find_session observer id t.sessions.session_pool) outcome t)
  complete_operation-AtMost (async_accept id) none t = elim (Bool-cases (is_open id t.sockets)) [
    | inl here ↦ rw here (omega arith)
    | inr gone ↦ rw gone tt
  ]
  complete_operation-AtMost (async_accept id) (some bytes) t =
      let t' = wait_for observer (async_read_some id) (open_socket observer id t) in
      AtMost-weaken (accepts t'.pending + 1) (accepts t.pending + 1) _
        (omega (arith, accepts-append t.pending (async_read_some id)))
        (checked-pending (get_new_session_accessor H t'.sessions t'.index) t')

  pub picked-AtMost :
      (n : ℕ) (r : Option (Operation × List Operation)) (outcome : Option Bytes) (t : Tcp observer)
      → pick n t.pending ≡ r
      → AtMost (accepts t.pending) (picked observer r outcome t)
  unfolding picked
  picked-AtMost n none outcome t e = omega arith
  picked-AtMost n (some (o, rest)) outcome t e =
      AtMost-weaken (accepts rest + is_accept o) (accepts t.pending) _
        (omega (arith, accepts-pick n t.pending e))
        (complete_operation-AtMost o outcome (record t { pending = rest }))
