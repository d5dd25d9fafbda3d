-- ===== src/Tcp/Resuming.antt =====
-- What a session does with the answer of its observer, when no socket that it closes is missing.
use tv_cast.Prelude.{ℕ, ◌≡◌, refl, List, [], ◌∷◌, ok, err, system_error, ◌⊎◌, inl, inr, Bool-cases}
use tv_cast.Tcp.{
  Action, write_buffer, close, ObserverInterface, Tcp, set_handler, write, closed_socket,
  close_session_socket, is_open, perform, resume,
}

module _ {H A : Type 0} (observer : ObserverInterface H A) where
  unfoldable pub performed : List Action → Tcp observer → Tcp observer
  performed [] t = t
  performed (write_buffer id buffer ∷ actions) t = performed actions (write observer id buffer t)
  performed (close id ∷ actions) t = performed actions (closed_socket observer id t)

  perform-cases :
      (actions : List Action) (t : Tcp observer)
      → (perform observer actions t ≡ ok (performed actions t))
        ⊎ (perform observer actions t ≡ err system_error)
  unfolding perform performed close_session_socket
  perform-cases [] t = inl refl
  perform-cases (write_buffer id b ∷ actions) t = perform-cases actions (write observer id b t)
  perform-cases (close id ∷ actions) t = elim (Bool-cases (is_open id t.sockets)) [
    | inl here ↦ rw here (perform-cases actions (closed_socket observer id t))
    | inr gone ↦ rw gone (inr refl)
  ]

  unfoldable pub resumed : ℕ → H × A × List Action → Tcp observer → Tcp observer
  unfolding performed
  resumed id (h, shared, actions) t = performed actions (record t {
    shared = shared;
    sessions = record t.sessions {
      session_pool = set_handler observer id h t.sessions.session_pool;
    };
  })

  -- The actions are done, or one of them closes a socket that is not open, which throws.
  pub resume-cases :
      (id : ℕ) (answer : H × A × List Action) (t : Tcp observer)
      → (resume observer id answer t ≡ ok (resumed id answer t))
        ⊎ (resume observer id answer t ≡ err system_error)
  unfolding resume resumed
  resume-cases id (h, shared, actions) t = perform-cases actions _
