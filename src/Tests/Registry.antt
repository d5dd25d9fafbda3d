-- ===== src/Tests/Registry.antt =====
-- The pool of sessions as a map.
use tv_cast.Prelude.{◌+◌, refl, arith, ℕ, List, [], ◌∷◌, none, some, ok}
use tv_cast.Net.SessionHandler.Ids.{count_id}
use tv_cast.Tcp.{ObserverInterface, Tcp, new, find_session}
use tv_cast.Tcp.Registry.{Change, add, close, set, Registry, Reads, Refines, run-Refines}

-- An observer that counts what it reads.
abbrev counting : ObserverInterface ℕ ℕ
counting = record {
  handle_data = λ id h a bytes. ok (h + 1, a, []);
  handle_write_complete = λ id h a. ok (h, a, []);
  handle_close = λ id h a. ok a;
}

abbrev unused : Tcp counting
unused = new counting (some 8) 0 0

abbrev no_session : Registry ℕ
no_session = record { next = 0; session = λ id. none }

unused-Reads : Reads counting unused no_session
unfolding count_id find_session
unused-Reads = record {
  numbered = record { once = λ id. omega arith; below = λ id up. refl };
  next = refl;
  session = λ id. refl;
}

-- Two sessions, of which the first reads once and the second is closed.
abbrev changes : List (Change ℕ)
changes = add ∷ add ∷ set 0 9 ∷ close 1 ∷ []

run-Refines_example : Refines counting 8 changes unused no_session
run-Refines_example =
    run-Refines counting 8 changes unused no_session refl (omega arith) unused-Reads
