-- ===== src/Tcp/Contract.antt =====
-- What an observer keeps in every call, and what the pool of its sessions keeps with it.
use tv_cast.Prelude.{
  ℕ, ◌<◌, ◌≡◌, ◌≢◌, refl, ap, ◌∙◌, arith, List, [], ◌∷◌, ◌++◌, some, ◌==◌, if◌then◌else◌, Bytes,
  Result, ok, err, IsExpected, ◌⊎◌, inl, inr, Bool-cases,
}
use tv_cast.Net.SessionHandler.{Session, State, erase_session}
use tv_cast.Net.SessionHandler.Ids.{count_id}
use tv_cast.Tcp.{
  Action, write_buffer, close, ObserverInterface, find_session, set_handler, set_state,
}

-- Every action is on the session with this id.
abbrev pub On : ℕ → List Action → Type 0
On id [] = Unit {0}
On id (write_buffer k buffer ∷ actions) = (k ≡ id) × On id actions
On id (close k ∷ actions) = (k ≡ id) × On id actions

-- `Holds` is kept of what each session holds, `Fixed` of what the observers share; the shared state
-- names a session by its id; and ids are handed out from `least` on.
pub record Promise (H A : Type 0) : Type 1 where
  pub Holds : H → Type 0
  pub Fixed : A → Type 0
  pub Names : A → ℕ → Type 0
  pub least : ℕ

module _ {H A : Type 0} (promise : Promise H A) where
  open promise use {Holds, Fixed, Names}

  -- A call with a session leaves what is promised, names no session but this one, and does nothing
  -- but to this one.
  abbrev pub Kept : ℕ → A → Result (H × A × List Action) → Type 0
  Kept id a (ok (h', a', actions)) =
      Holds h' × Fixed a' × ((k : ℕ) → Names a' k → (k ≡ id) ⊎ Names a k) × On id actions
  Kept id a (err e) = IsExpected e

  -- The session that is closed is named no more.
  abbrev pub Dropped : ℕ → A → Result A → Type 0
  Dropped id a (ok a') = Fixed a' × ((k : ℕ) → Names a' k → (k ≢ id) × Names a k)
  Dropped id a (err e) = IsExpected e

  pub record Keeps (observer : ObserverInterface H A) : Type 0 where
    pub handled :
        (id : ℕ) (h : H) (a : A) (bytes : Bytes)
        → Holds h
        → Fixed a
        → Kept id a (observer.handle_data id h a bytes)
    pub written :
        (id : ℕ) (h : H) (a : A)
        → Holds h
        → Fixed a
        → Kept id a (observer.handle_write_complete id h a)
    pub closed :
        (id : ℕ) (h : H) (a : A) → Holds h → Fixed a → Dropped id a (observer.handle_close id h a)

-- What every session of the pool holds.
module _ {H : Type 0} (Holds : H → Type 0) where
  abbrev pub Held : List (Session H) → Type 0
  Held [] = Unit {0}
  Held (s ∷ pool) = Holds s.accessor.handler × Held pool

  pub Held-append :
      (pool : List (Session H)) (s : Session H)
      → Held pool
      → Holds s.accessor.handler
      → Held (pool ++ (s ∷ []))
  Held-append [] s held holds = (holds, tt)
  Held-append (p ∷ pool) s (first, held) holds = (first, Held-append pool s held holds)

  pub Held-erase_session :
      (id : ℕ) (pool : List (Session H)) → Held pool → Held (erase_session H id pool)
  unfolding erase_session
  Held-erase_session id [] held = tt
  Held-erase_session id (s ∷ pool) (first, held) = elim (Bool-cases (s.accessor.k_id == id)) [
    | inl same ↦ rw same held
    | inr other ↦ rw other (first, Held-erase_session id pool held)
  ]

  module _ {A : Type 0} (observer : ObserverInterface H A) where
    pub Held-set_handler :
        (id : ℕ) (h : H) (pool : List (Session H))
        → Held pool
        → Holds h
        → Held (set_handler observer id h pool)
    unfolding set_handler
    Held-set_handler id h [] held holds = tt
    Held-set_handler id h (s ∷ pool) (first, held) holds =
        elim (Bool-cases (s.accessor.k_id == id)) [
          | inl same ↦ rw same (holds, held)
          | inr other ↦ rw other (first, Held-set_handler id h pool held holds)
        ]

    -- The session with an id of the pool.
    pub find_session-count :
        (id : ℕ) (pool : List (Session H))
        → 0 < count_id id pool
        → Held pool
        → (h : H) × (find_session observer id pool ≡ some h) × Holds h
    unfolding count_id find_session
    find_session-count id [] here held = absurd (omega arith)
    find_session-count id (s ∷ pool) here (first, held) =
        elim (Bool-cases (s.accessor.k_id == id)) [
          | inl same ↦ (s.accessor.handler, rw same refl, first)
          | inr other ↦
              let (h, found, holds) =
                find_session-count id pool (omega (arith, rw other at here)) held in
              (
                h,
                ap (λ b. if b then some s.accessor.handler else find_session observer id pool) other
                    ∙ found,
                holds,
              )
        ]

module _ {H A : Type 0} (observer : ObserverInterface H A) where
  pub count_id-set_handler :
      (id k : ℕ) (h : H) (pool : List (Session H))
      → count_id k (set_handler observer id h pool) ≡ count_id k pool
  unfolding count_id set_handler
  count_id-set_handler id k h [] = refl
  count_id-set_handler id k h (s ∷ pool) = ground (arith, count_id-set_handler id k h pool)

  -- The state of a session that is erased is of no account.
  pub erase_session-set_state :
      (id : ℕ) (state : State) (pool : List (Session H))
      → erase_session H id (set_state observer id state pool) ≡ erase_session H id pool
  unfolding erase_session set_state
  erase_session-set_state id state [] = refl
  erase_session-set_state id state (s ∷ pool) = elim (Bool-cases (s.accessor.k_id == id)) [
    | inl same ↦ rw (same, same) refl
    | inr other ↦ rw (other, other) (ap (s ∷◌) (erase_session-set_state id state pool))
  ]
