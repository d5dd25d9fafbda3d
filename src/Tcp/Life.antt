-- ===== src/Tcp/Life.antt =====
-- Whether a handler ever runs on a session that has been freed.
use tv_cast.Prelude.{
  ℕ, ◌+◌, ◌<◌, ◌≤◌, ◌^◌, ◌≡◌, ◌≢◌, refl, arith, List, [], ◌∷◌, Option, none, some, Bytes, Result,
  ok, err, ◌>>=◌, check_failed, use_after_free,
}
use tv_cast.Net.SessionHandler.Ids.{count_id}
use tv_cast.Tcp.{
  Operation, ObserverInterface, Tcp, new, create_session, pick, picked, complete, complete_all,
}
use tv_cast.Tcp.Uses.{session_of, uses, uses-pick}
use tv_cast.Tcp.Contract.{Promise, Keeps}
use tv_cast.Tcp.Live.{IsLive, Outcome}
use tv_cast.Tcp.Steps.{create_session-Outcome, complete_operation-Outcome}

module _ {H A : Type 0} (observer : ObserverInterface H A) where
  -- If this completion fails, no other operation waits on its session.
  abbrev pub Alone : Option (Operation × List Operation) → Option Bytes → Type 0
  Alone none outcome = Unit {0}
  Alone (some (o, rest)) outcome = outcome ≡ none → uses (session_of o) rest ≡ 0

  -- Each completion that fails is the only operation on its session when it does, and the ids of
  -- the sessions do not run out.
  abbrev pub IsOrderly : List (ℕ × Option Bytes) → Tcp observer → Type 0
  IsOrderly [] t = Unit {0}
  IsOrderly ((n, outcome) ∷ events) t =
      (t.index + 1 < 2 ^ 32)
      × Alone (pick n t.pending) outcome
      × ((t' : Tcp observer) → complete observer n outcome t ≡ ok t' → IsOrderly events t')

module _ {H A : Type 0} (observer : ObserverInterface H A) (promise : Promise H A) where
  pub picked-Outcome :
      (n : ℕ) (r : Option (Operation × List Operation)) (outcome : Option Bytes) (t : Tcp observer)
      → pick n t.pending ≡ r
      → Keeps promise observer
      → IsLive observer promise t
      → t.index + 1 < 2 ^ 32
      → Alone observer r outcome
      → Outcome observer promise (picked observer r outcome t)
  unfolding picked
  picked-Outcome n none outcome t e keeps live bound alone = live
  picked-Outcome n (some (o, rest)) outcome t e keeps live bound alone =
      let split = uses-pick n t.pending e in
      complete_operation-Outcome observer promise o outcome (record t { pending = rest }) keeps
        (record {
          owned = λ id used. live.owned id (omega (arith, split id));
          numbered = live.numbered;
          held = live.held;
          fixed = live.fixed;
          named = live.named;
          counted = live.counted;
          creates = live.creates;
        })
        bound (live.owned (session_of o) (ground (arith, split (session_of o)))) alone

  pub complete-Outcome :
      (n : ℕ) (outcome : Option Bytes) (t : Tcp observer)
      → Keeps promise observer
      → IsLive observer promise t
      → t.index + 1 < 2 ^ 32
      → Alone observer (pick n t.pending) outcome
      → Outcome observer promise (complete observer n outcome t)
  unfolding complete
  complete-Outcome n outcome t keeps live bound alone =
      picked-Outcome n (pick n t.pending) outcome t refl keeps live bound alone

  then-Outcome :
      (r : Result (Tcp observer)) (f : Tcp observer → Result (Tcp observer))
      → Outcome observer promise r
      → ((t' : Tcp observer)
          → r ≡ ok t'
          → IsLive observer promise t'
          → Outcome observer promise (f t'))
      → Outcome observer promise (r >>= f)
  then-Outcome (ok t') f live h = h t' refl live
  then-Outcome (err e) f keeps h = keeps

  complete_all-Outcome :
      (events : List (ℕ × Option Bytes)) (t : Tcp observer)
      → Keeps promise observer
      → IsLive observer promise t
      → IsOrderly observer events t
      → Outcome observer promise (complete_all observer events t)
  unfolding complete_all
  complete_all-Outcome [] t keeps live orderly = live
  complete_all-Outcome ((n, outcome) ∷ events) t keeps live (bound, alone, later) =
      then-Outcome (complete observer n outcome t) (complete_all observer events)
        (complete-Outcome n outcome t keeps live bound alone)
        (λ t' done live'. complete_all-Outcome events t' keeps live' (later t' done))

-- From the start of a server whose creator makes observers, with a shared state that names no
-- session, as long as every call of an observer keeps what is promised, the ids do not run out,
-- and each completion that fails is the only operation on its session when it does: no handler
-- runs on a session that has been freed, and no check of a pointer fails.
pub complete_all-defined :
    {H A : Type 0} (observer : ObserverInterface H A) (promise : Promise H A) (h : H) (index : ℕ)
    (shared : A) (events : List (ℕ × Option Bytes))
    → Keeps promise observer
    → promise.Holds h
    → promise.Fixed shared
    → ((id : ℕ) → ¬ promise.Names shared id)
    → promise.least ≤ index
    → index + 1 < 2 ^ 32
    → ((t : Tcp observer)
        → create_session observer (new observer (some h) index shared) ≡ ok t
        → IsOrderly observer events t)
    → let ends =
        create_session observer (new observer (some h) index shared)
        >>= complete_all observer events in
      (ends ≢ err use_after_free) × (ends ≢ err check_failed)
complete_all-defined observer promise h index shared events keeps holds fixed nameless least bound
      orderly =
    let t = new observer (some h) index shared in
    let live : IsLive observer promise t =
      unfold uses count_id in
      record {
        owned = λ id used. absurd (omega arith);
        numbered = record { once = λ id. omega arith; below = λ id up. refl };
        held = tt;
        fixed = fixed;
        named = λ id name. absurd (nameless id name);
        counted = least;
        creates = (h, refl, holds);
      } in
    let outcome : Outcome observer promise
        (create_session observer t >>= complete_all observer events) =
      then-Outcome observer promise (create_session observer t) (complete_all observer events)
        (create_session-Outcome observer promise t live bound)
        (λ t' done live'.
          complete_all-Outcome observer promise events t' keeps live' (orderly t' done)) in
    ((λ e. (rw e at outcome).1 refl), (λ e. (rw e at outcome).0 refl))
