-- ===== src/Udp/Receiving.antt =====
-- What a started server hands to its observer.
use tv_cast.Prelude.{List, [], ◌∷◌, ◌≡◌, refl, Option, none, some, Bytes, Result, ok, err, ◌>>=◌}
use tv_cast.Udp.{
  Operation, async_receive_from, PacketObserver, Server, new, register_observer, receive,
  handle_receive, complete_operation, complete_first, complete_all,
}

module _ {A : Type 0} (observer : PacketObserver A) where
  -- The datagrams up to the first error, one after the other.
  abbrev pub until_error : List (Option Bytes) → A → Result A
  until_error [] a = ok a
  until_error (none ∷ outcomes) a = ok a
  until_error (some bytes ∷ outcomes) a = observer.handle_data a bytes >>= until_error outcomes

  -- Whether no receive failed, so that one still waits.
  abbrev pub receiving : List (Option Bytes) → List Operation
  receiving [] = async_receive_from ∷ []
  receiving (none ∷ outcomes) = []
  receiving (some bytes ∷ outcomes) = receiving outcomes

  abbrev server : List Operation → Server
  server pending = record (register_observer new) { pending = pending }

  complete_all-stopped :
      (outcomes : List (Option Bytes)) (a : A)
      → complete_all observer outcomes (server []) a ≡ ok (server [], a)
  unfolding complete_all complete_first
  complete_all-stopped [] a = refl
  complete_all-stopped (outcome ∷ outcomes) a = complete_all-stopped outcomes a

  received :
      (r : Result A) (outcomes : List (Option Bytes))
      → ((a' : A)
          → complete_all observer outcomes (server (async_receive_from ∷ [])) a'
            ≡ (until_error outcomes a' >>= λ a''. ok (server (receiving outcomes), a'')))
      → ((r >>= λ a'. ok (server (async_receive_from ∷ []), a')) >>= λ (s, a').
          complete_all observer outcomes s a')
        ≡ ((r >>= until_error outcomes) >>= λ a''. ok (server (receiving outcomes), a''))
  received (ok a') outcomes h = h a'
  received (err e) outcomes h = refl

  -- A server that is registered and started hands its observer the datagrams in their order, each
  -- once, up to the first receive that fails; behind that it waits for none and hands over none.
  pub complete_all-started :
      (outcomes : List (Option Bytes)) (a : A)
      → complete_all observer outcomes (receive (register_observer new)) a ≡ (
          until_error outcomes a >>= λ a'.
          ok (record (register_observer new) { pending = receiving outcomes }, a'))
  unfolding complete_all complete_first complete_operation handle_receive
  complete_all-started [] a = refl
  complete_all-started (none ∷ outcomes) a = complete_all-stopped outcomes a
  complete_all-started (some bytes ∷ outcomes) a =
      received (observer.handle_data a bytes) outcomes (complete_all-started outcomes)
