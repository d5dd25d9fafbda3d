-- ===== src/Tcp/Live.antt =====
-- A state between two handlers, and what a session that is waited for or made leaves of it.
use tv_cast.Prelude.{
  List, ℕ, ◌+◌, ◌<◌, ◌≤◌, ◌^◌, ◌%◌, ◌≡◌, ap, arith, Option, some, Result, ok, err, IsExpected,
}
use tv_cast.Net.SessionHandler.{State, get_new_session_accessor, accessor_of, add_session}
use tv_cast.Net.SessionHandler.Ids.{IsNumbered, count_id, add_session-IsNumbered, count_id-append}
use tv_cast.Tcp.{Operation, ObserverInterface, Tcp, new_session, wait_for, checked}
use tv_cast.Tcp.Uses.{session_of, Owned, Owned-wait}
use tv_cast.Tcp.Contract.{Promise, Held, Held-append}

module _ {H A : Type 0} (observer : ObserverInterface H A) (promise : Promise H A) where
  open promise use {Holds, Fixed, Names, least}

  -- A state between two handlers: the waiting operations are on sessions of the pool, whose ids are
  -- numbered and which hold what is promised; the shared state names sessions of the pool only; and
  -- there is a creator of observers.
  pub record IsLive (t : Tcp observer) : Type 0 where
    pub owned : Owned t.sessions.session_pool t.pending
    pub numbered : IsNumbered t.index t.sessions.session_pool
    pub held : Held Holds t.sessions.session_pool
    pub fixed : Fixed t.shared
    pub named : (id : ℕ) → Names t.shared id → 0 < count_id id t.sessions.session_pool
    pub counted : least ≤ t.index
    pub creates : (h : H) × (t.sessions.creator ≡ some (some h)) × Holds h

  abbrev pub Outcome : Result (Tcp observer) → Type 0
  Outcome (ok t) = IsLive t
  Outcome (err e) = IsExpected e

  -- What is open is of no account.
  pub other_sockets :
      (sockets : List ℕ) (t : Tcp observer) → IsLive t → IsLive (record t { sockets = sockets })
  other_sockets sockets t live = record {
    owned = live.owned;
    numbered = live.numbered;
    held = live.held;
    fixed = live.fixed;
    named = live.named;
    counted = live.counted;
    creates = live.creates;
  }

  pub wait-IsLive :
      (o : Operation) (t : Tcp observer)
      → 0 < count_id (session_of o) t.sessions.session_pool
      → IsLive t
      → IsLive (wait_for observer o t)
  wait-IsLive o t here live = record {
    owned = Owned-wait t.sessions.session_pool t.pending o live.owned here;
    numbered = live.numbered;
    held = live.held;
    fixed = live.fixed;
    named = live.named;
    counted = live.counted;
    creates = live.creates;
  }

  -- A new session is added to the pool: it holds what its creator made.
  accessor_of-made :
      (creator : Option (Option H)) (index : ℕ) (h : H)
      → creator ≡ some (some h)
      → accessor_of H creator index
        ≡ (some (record { handler = h; k_id = index }), (index + 1) % 2 ^ 32)
  unfolding accessor_of
  accessor_of-made creator index h e = ap (λ c. accessor_of H c index) e

  pub added-IsLive :
      (t : Tcp observer) (h : H)
      → t.sessions.creator ≡ some (some h)
      → Holds h
      → IsLive t
      → t.index + 1 < 2 ^ 32
      → IsLive (record t {
        sessions =
            add_session H
              (new_session observer (record { handler = h; k_id = t.index }))
              t.sessions;
        index = (t.index + 1) % 2 ^ 32;
      })
  unfolding get_new_session_accessor add_session
  added-IsLive t h made holds live bound =
      let pool = t.sessions.session_pool in
      let s = new_session observer (record { handler = h; k_id = t.index }) in
      let (fresh, numbered) =
        add_session-IsNumbered t.sessions t.index State.run live.numbered bound
          (accessor_of-made t.sessions.creator t.index h made) in
      record {
        owned = λ id used. ground (arith, live.owned id used, count_id-append id pool s);
        numbered = unfold add_session in numbered;
        held = Held-append Holds pool s live.held holds;
        fixed = live.fixed;
        named = λ id name. ground (arith, live.named id name, count_id-append id pool s);
        counted = ground (arith, live.counted);
        creates = live.creates;
      }

  -- The id of the session that is made next is that of a session of the pool then.
  pub added-here :
      (t : Tcp observer) (h : H)
      → 0
        < count_id t.index
            (add_session H
              (new_session observer (record { handler = h; k_id = t.index }))
              t.sessions).session_pool
  unfolding add_session
  added-here t h = ground (
    arith,
    count_id-append t.index t.sessions.session_pool
        (new_session observer (record { handler = h; k_id = t.index })),
  )

  -- `CHECK_NOTNULL` passes, and what follows it starts with the grown pool.
  pub checked-made :
      (t : Tcp observer) (h : H)
      → t.sessions.creator ≡ some (some h)
      → checked observer (get_new_session_accessor H t.sessions t.index) t
        ≡ ok (
          record { handler = h; k_id = t.index },
          record t {
            sessions =
                add_session H
                  (new_session observer (record { handler = h; k_id = t.index }))
                  t.sessions;
            index = (t.index + 1) % 2 ^ 32;
          },
        )
  unfolding checked get_new_session_accessor
  checked-made t h made =
      ap (λ got. checked observer got t) (accessor_of-made t.sessions.creator t.index h made)
