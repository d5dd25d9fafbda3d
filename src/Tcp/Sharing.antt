-- ===== src/Tcp/Sharing.antt =====
-- What a handler leaves of the state that the observers share.
use tv_cast.Prelude.{
  inl, inr, Bool-cases, ℕ, ◌≡◌, refl, sym, ◌∙◌, List, Option, none, some, Bytes, Result, ok, err,
  ◌>>=◌,
}
use mathlib.Core.Path.{subst}
use tv_cast.Net.SessionHandler.{SessionAccessor, get_new_session_accessor}
use tv_cast.Tcp.{
  Operation, async_read_some, async_write, async_accept, Action, ObserverInterface, Tcp, wait_for,
  find_session, destroy, resume, handle_read, handle_write, checked, create_session, handle_accept,
  is_open, open_socket, close_session_socket, complete_operation, pick, picked, complete,
}
use tv_cast.Tcp.Resuming.{resumed, resume-cases}
use tv_cast.Tcp.Shrinking.{perform-sessions}

module _ {H A : Type 0} (observer : ObserverInterface H A) (F : A → Type 0) where
  abbrev pub LeavesOf : Result (H × A × List Action) → Type 0
  LeavesOf (ok (h, a, actions)) = F a
  LeavesOf (err e) = Unit {0}

  abbrev pub LeftBy : Result A → Type 0
  LeftBy (ok a) = F a
  LeftBy (err e) = Unit {0}

  -- Every call of the observer keeps this of the shared state.
  pub record Preserves : Type 0 where
    pub handled :
        (id : ℕ) (h : H) (a : A) (bytes : Bytes)
        → F a
        → LeavesOf (observer.handle_data id h a bytes)
    pub written : (id : ℕ) (h : H) (a : A) → F a → LeavesOf (observer.handle_write_complete id h a)
    pub closed : (id : ℕ) (h : H) (a : A) → F a → LeftBy (observer.handle_close id h a)

  abbrev pub Shares : Result (Tcp observer) → Type 0
  Shares (ok t) = F t.shared
  Shares (err e) = Unit {0}

  resumed-Shares :
      (id : ℕ) (m : Result (H × A × List Action)) (t : Tcp observer)
      (o : Tcp observer → Tcp observer)
      → ((t' : Tcp observer) → (o t').shared ≡ t'.shared)
      → LeavesOf m
      → Shares (m >>= λ answer. resume observer id answer t >>= λ t'. ok (o t'))
  unfolding resumed
  resumed-Shares id (ok (h, a, actions)) t o same kept =
      elim (resume-cases observer id (h, a, actions) t) [
        | inl done ↦ rw done (subst F (sym (same _ ∙ (perform-sessions observer actions _).0)) kept)
        | inr failed ↦ rw failed tt
      ]
  resumed-Shares id (err e) t o same kept = tt

  written-Shares :
      (id : ℕ) (m : Result (H × A × List Action)) (t : Tcp observer)
      → LeavesOf m
      → Shares (m >>= λ answer. resume observer id answer t)
  unfolding resumed
  written-Shares id (ok (h, a, actions)) t kept =
      elim (resume-cases observer id (h, a, actions) t) [
        | inl done ↦ rw done (subst F (sym (perform-sessions observer actions _).0) kept)
        | inr failed ↦ rw failed tt
      ]
  written-Shares id (err e) t kept = tt

  destroyed-Shares :
      (m : Result A) (f : A → Tcp observer)
      → ((a : A) → (f a).shared ≡ a)
      → LeftBy m
      → Shares (m >>= λ a. ok (f a))
  destroyed-Shares (ok a) f same kept = subst F (sym (same a)) kept
  destroyed-Shares (err e) f same kept = tt

  handle_read-Shares :
      (id : ℕ) (s : Option H) (outcome : Option Bytes) (t : Tcp observer)
      → Preserves
      → F t.shared
      → Shares (handle_read observer id s outcome t)
  unfolding handle_read destroy
  handle_read-Shares id none outcome t preserves kept = tt
  handle_read-Shares id (some h) none t preserves kept =
      destroyed-Shares (observer.handle_close id h t.shared) _ (λ a. refl)
        (preserves.closed id h t.shared kept)
  handle_read-Shares id (some h) (some bytes) t preserves kept =
      resumed-Shares id (observer.handle_data id h t.shared bytes) t
        (wait_for observer (async_read_some id)) (λ t'. refl)
        (preserves.handled id h t.shared bytes kept)

  handle_write-Shares :
      (id : ℕ) (s : Option H) (outcome : Option Bytes) (t : Tcp observer)
      → Preserves
      → F t.shared
      → Shares (handle_write observer id s outcome t)
  unfolding handle_write destroy
  handle_write-Shares id none outcome t preserves kept = tt
  handle_write-Shares id (some h) none t preserves kept =
      destroyed-Shares (observer.handle_close id h t.shared) _ (λ a. refl)
        (preserves.closed id h t.shared kept)
  handle_write-Shares id (some h) (some bytes) t preserves kept =
      written-Shares id (observer.handle_write_complete id h t.shared) t
        (preserves.written id h t.shared kept)

  accepted-Shares :
      (got : Option (SessionAccessor H) × ℕ) (t : Tcp observer)
      → F t.shared
      → Shares
          (checked observer got t >>= λ (a, t'). ok (wait_for observer (async_accept a.k_id) t'))
  unfolding checked
  accepted-Shares (none, index) t kept = tt
  accepted-Shares (some a, index) t kept = kept

  complete_operation-Shares :
      (o : Operation) (outcome : Option Bytes) (t : Tcp observer)
      → Preserves
      → F t.shared
      → Shares (complete_operation observer o outcome t)
  unfolding complete_operation handle_accept create_session close_session_socket
  complete_operation-Shares (async_read_some id) outcome t preserves kept =
      handle_read-Shares id (find_session observer id t.sessions.session_pool) outcome t preserves
        kept
  complete_operation-Shares (async_write id b) outcome t preserves kept =
      handle_write-Shares id (find_session observer id t.sessions.session_pool) outcome t preserves
        kept
  complete_operation-Shares (async_accept id) none t preserves kept =
      elim (Bool-cases (is_open id t.sockets)) [ inl here ↦ rw here kept | inr gone ↦ rw gone tt ]
  complete_operation-Shares (async_accept id) (some bytes) t preserves kept =
      accepted-Shares (get_new_session_accessor H t.sessions t.index)
        (wait_for observer (async_read_some id) (open_socket observer id t)) kept

  pub picked-Shares :
      (r : Option (Operation × List Operation)) (outcome : Option Bytes) (t : Tcp observer)
      → Preserves
      → F t.shared
      → Shares (picked observer r outcome t)
  unfolding picked
  picked-Shares none outcome t preserves kept = kept
  picked-Shares (some (o, rest)) outcome t preserves kept =
      complete_operation-Shares o outcome (record t { pending = rest }) preserves kept

  -- A completion keeps what every call of the observer keeps.
  pub complete-Shares :
      (n : ℕ) (outcome : Option Bytes) (t : Tcp observer)
      → Preserves
      → F t.shared
      → Shares (complete observer n outcome t)
  unfolding complete
  complete-Shares n outcome t preserves kept =
      picked-Shares (pick n t.pending) outcome t preserves kept
