-- ===== src/Tcp/Guarded.antt =====
-- What every session's observer holds between two handlers, when each call of an observer that is
-- admitted is defined and keeps it.
use tv_cast.Prelude.{
  ℕ, Bool, ◌≡◌, refl, sym, List, [], ◌∷◌, Option, none, some, ◌==◌, Bool-cases, inl, inr, Bytes,
  Defined, bind-Defined, if-Defined,
}
use mathlib.Core.Path.{subst}
use tv_cast.Net.SessionHandler.{
  Session, SessionAccessor, SessionHandler, State, accessor_of, add_session, close_session,
  get_new_session_accessor,
}
use tv_cast.Tcp.{
  Operation, async_read_some, async_write, async_accept, Action, write_buffer, close,
  ObserverInterface, Tcp, new_session, find_session, is_open, close_session_socket, destroy,
  handle_read, handle_write, checked, create_session, handle_accept, connect_session,
  complete_operation, pick, picked, complete,
}
use tv_cast.Tcp.Resuming.{performed, resumed, resume-cases}
use tv_cast.Tcp.Contract.{
  Held, Held-append, Held-erase_session, Held-set_handler, erase_session-set_state,
}

-- `Holds` is kept of what each session holds, where a read is admitted.
pub record Guard (H A : Type 0) : Type 1 where
  pub Holds : H → Type 0
  pub Admits : H → A → Bytes → Type 0

module _ {H A : Type 0} (guard : Guard H A) where
  open guard use {Holds, Admits}

  abbrev pub HoldsNext : H × A × List Action → Type 0
  HoldsNext (h, a, actions) = Holds h

  abbrev pub Returned : A → Type 0
  Returned a = Unit {0}

  pub record Guards (observer : ObserverInterface H A) : Type 0 where
    pub handled :
        (id : ℕ) (h : H) (a : A) (bytes : Bytes)
        → Holds h
        → Admits h a bytes
        → Defined HoldsNext (observer.handle_data id h a bytes)
    pub written :
        (id : ℕ) (h : H) (a : A)
        → Holds h
        → Defined HoldsNext (observer.handle_write_complete id h a)
    pub closed : (id : ℕ) (h : H) (a : A) → Defined Returned (observer.handle_close id h a)

  abbrev Creates : Option (Option H) → Type 0
  Creates none = Unit {0}
  Creates (some none) = Unit {0}
  Creates (some (some h)) = Holds h

  -- What the creator makes holds it, and so does what every session has.
  pub record AllHold (s : SessionHandler H) : Type 0 where
    pub creates : Creates s.creator
    pub held : Held Holds s.session_pool

  module _ (observer : ObserverInterface H A) where
    abbrev pub IsGuarded : Tcp observer → Type 0
    IsGuarded t = AllHold t.sessions

    -- The read that this completion ends, if it ends one with bytes, is admitted.
    abbrev pub AdmitsRead :
        Option (Operation × List Operation) → Option Bytes → Tcp observer → Type 0
    AdmitsRead (some (async_read_some id, rest)) (some bytes) t =
        (h : H)
        → find_session observer id t.sessions.session_pool ≡ some h
        → Admits h t.shared bytes
    AdmitsRead _ outcome t = Unit {0}

    found-Holds :
        (id : ℕ) (pool : List (Session H)) {h : H}
        → Held Holds pool
        → find_session observer id pool ≡ some h
        → Holds h
    unfolding find_session
    found-Holds id [] held e = cc
    found-Holds id (s ∷ pool) {h} (first, held) e = elim (Bool-cases (s.accessor.k_id == id)) [
      | inl same ↦ subst Holds (cc (rw same at e)) first
      | inr other ↦ found-Holds id pool held (rw other at e)
    ]

    perform-sessions :
        (actions : List Action) (t : Tcp observer)
        → (performed observer actions t).sessions ≡ t.sessions
    unfolding performed
    perform-sessions [] t = refl
    perform-sessions (write_buffer id b ∷ actions) t = perform-sessions actions _
    perform-sessions (close id ∷ actions) t = perform-sessions actions _

    resume-AllHold :
        (id : ℕ) (h : H) (a : A) (actions : List Action) (t : Tcp observer)
        → Holds h
        → IsGuarded t
        → IsGuarded (resumed observer id (h, a, actions) t)
    unfolding resumed
    resume-AllHold id h a actions t holds guarded =
        subst AllHold (sym (perform-sessions actions _)) (record {
          creates = guarded.creates;
          held = Held-set_handler Holds observer id h t.sessions.session_pool guarded.held holds;
        })

    module _ (guards : Guards observer) where
      destroy-Defined :
          (id : ℕ) (h : H) (t : Tcp observer)
          → IsGuarded t
          → Defined IsGuarded (destroy observer id h t)
      unfolding destroy close_session
      destroy-Defined id h t guarded =
          let pool = t.sessions.session_pool in
          bind-Defined IsGuarded (observer.handle_close id h t.shared) _
            (guards.closed id h t.shared)
            (λ a done returned. record {
              creates = guarded.creates;
              held =
                  rw (erase_session-set_state observer id State.closed pool)
                    (Held-erase_session Holds id pool guarded.held);
            })

      handle_read-Defined :
          (id : ℕ) (found : Option H) (outcome : Option Bytes) (t : Tcp observer)
          → ((h : H) → found ≡ some h → Holds h)
          → ((h : H) (bytes : Bytes)
              → found ≡ some h
              → outcome ≡ some bytes
              → Admits h t.shared bytes)
          → IsGuarded t
          → Defined IsGuarded (handle_read observer id found outcome t)
      unfolding handle_read
      handle_read-Defined id none outcome t holds admits guarded = λ e. cc
      handle_read-Defined id (some h) none t holds admits guarded = destroy-Defined id h t guarded
      handle_read-Defined id (some h) (some bytes) t holds admits guarded =
          bind-Defined IsGuarded (observer.handle_data id h t.shared bytes) _
            (guards.handled id h t.shared bytes (holds h refl) (admits h bytes refl refl))
            (λ (h', a, actions) done next. elim (resume-cases observer id (h', a, actions) t) [
              | inl went ↦ rw went (resume-AllHold id h' a actions t next guarded)
              | inr failed ↦ rw failed (λ e. cc)
            ])

      handle_write-Defined :
          (id : ℕ) (found : Option H) (outcome : Option Bytes) (t : Tcp observer)
          → ((h : H) → found ≡ some h → Holds h)
          → IsGuarded t
          → Defined IsGuarded (handle_write observer id found outcome t)
      unfolding handle_write
      handle_write-Defined id none outcome t holds guarded = λ e. cc
      handle_write-Defined id (some h) none t holds guarded = destroy-Defined id h t guarded
      handle_write-Defined id (some h) (some bytes) t holds guarded =
          bind-Defined IsGuarded (observer.handle_write_complete id h t.shared) _
            (guards.written id h t.shared (holds h refl))
            (λ (h', a, actions) done next. elim (resume-cases observer id (h', a, actions) t) [
              | inl went ↦ rw went (resume-AllHold id h' a actions t next guarded)
              | inr failed ↦ rw failed (λ e. cc)
            ])

    abbrev CheckedNext : SessionAccessor H × Tcp observer → Type 0
    CheckedNext (a, t) = IsGuarded t

    checked-Defined :
        (creator : Option (Option H)) (t : Tcp observer)
        → Creates creator
        → IsGuarded t
        → Defined CheckedNext (checked observer (accessor_of H creator t.index) t)
    unfolding checked accessor_of add_session
    checked-Defined none t creates guarded = λ e. cc
    checked-Defined (some none) t creates guarded = λ e. cc
    checked-Defined (some (some h)) t creates guarded = record {
      creates = guarded.creates;
      held =
          Held-append Holds t.sessions.session_pool
            (new_session observer (record { handler = h; k_id = t.index })) guarded.held creates;
    }

    pub create_session-Defined :
        (t : Tcp observer) → IsGuarded t → Defined IsGuarded (create_session observer t)
    unfolding create_session get_new_session_accessor
    create_session-Defined t guarded =
        bind-Defined IsGuarded (checked observer (get_new_session_accessor H t.sessions t.index) t)
          _ (checked-Defined t.sessions.creator t guarded.creates guarded)
          (λ (a, t') done next. next)

    abbrev pub ConnectedNext : ℕ × Tcp observer → Type 0
    ConnectedNext (id, t) = IsGuarded t

    pub connect_session-Defined :
        (connected : Bool) (t : Tcp observer)
        → IsGuarded t
        → Defined ConnectedNext (connect_session observer connected t)
    unfolding connect_session get_new_session_accessor
    connect_session-Defined connected t guarded =
        bind-Defined ConnectedNext
          (checked observer (get_new_session_accessor H t.sessions t.index) t) _
          (checked-Defined t.sessions.creator t guarded.creates guarded)
          (λ (a, t') done next. if-Defined ConnectedNext connected _ _ next (λ e. cc))

    module _ (guards : Guards observer) where
      picked-Defined :
          (r : Option (Operation × List Operation)) (outcome : Option Bytes) (t : Tcp observer)
          → IsGuarded t
          → AdmitsRead r outcome t
          → Defined IsGuarded (picked observer r outcome t)
      unfolding picked complete_operation handle_accept close_session_socket
      picked-Defined none outcome t guarded admits = guarded
      picked-Defined (some (async_read_some id, rest)) none t guarded admits =
          handle_read-Defined guards id (find_session observer id t.sessions.session_pool) none _
            (λ h found. found-Holds id t.sessions.session_pool guarded.held found)
            (λ h bytes found e. cc) guarded
      picked-Defined (some (async_read_some id, rest)) (some bytes) t guarded admits =
          handle_read-Defined guards id (find_session observer id t.sessions.session_pool)
            (some bytes) _ (λ h found. found-Holds id t.sessions.session_pool guarded.held found)
            (λ h b found e. subst (λ b. Admits h t.shared b) (cc e) (admits h found)) guarded
      picked-Defined (some (async_write id buffer, rest)) outcome t guarded admits =
          handle_write-Defined guards id (find_session observer id t.sessions.session_pool) outcome
            _ (λ h found. found-Holds id t.sessions.session_pool guarded.held found) guarded
      picked-Defined (some (async_accept id, rest)) none t guarded admits =
          if-Defined IsGuarded (is_open id t.sockets) _ _ guarded (λ e. cc)
      picked-Defined (some (async_accept id, rest)) (some bytes) t guarded admits =
          create_session-Defined _ guarded

      pub complete-Defined :
          (n : ℕ) (outcome : Option Bytes) (t : Tcp observer)
          → IsGuarded t
          → AdmitsRead (pick n t.pending) outcome t
          → Defined IsGuarded (complete observer n outcome t)
      unfolding complete
      complete-Defined n outcome t guarded admits =
          picked-Defined (pick n t.pending) outcome t guarded admits
