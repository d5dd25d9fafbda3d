-- ===== src/Net/SessionHandler/Ids.antt =====
-- The ids of the sessions in a pool.
use tv_cast.Prelude.{
  ℕ, ◌+◌, ◌<◌, ◌^◌, ◌%◌, ◌≡◌, ap, ◌∙◌, arith, List, [], ◌∷◌, ◌++◌, Option, none, some, ◌==◌,
  if◌then◌else◌, false,
}
use tv_cast.Net.SessionHandler.{
  SessionAccessor, Session, State, SessionHandler, erase_session, close_session,
  get_new_session_accessor, accessor_of, add_session,
}

-- How many sessions of a pool have this id.
unfoldable pub count_id : {H : Type 0} → ℕ → List (Session H) → ℕ
count_id id [] = 0
count_id id (a ∷ pool) = (if a.accessor.k_id == id then 1 else 0) + count_id id pool

-- Every id is that of one session at most, and none is from `index` on.
pub record IsNumbered {H : Type 0} (index : ℕ) (pool : List (Session H)) : Type 0 where
  pub once : (id : ℕ) → count_id id pool < 2
  pub below : (id : ℕ) → index < id + 1 → count_id id pool ≡ 0

pub count_id-append :
    {H : Type 0} (id : ℕ) (pool : List (Session H)) (a : Session H)
    → count_id id (pool ++ (a ∷ [])) ≡ count_id id pool + (if a.accessor.k_id == id then 1 else 0)
unfolding count_id
count_id-append id [] a = ground arith
count_id-append id (b ∷ pool) a = ground (arith, count_id-append id pool a)

pub count_id-erase_session :
    {H : Type 0} (id k : ℕ) (pool : List (Session H))
    → count_id k (erase_session H id pool)
        + (if k == id then (if count_id id pool == 0 then 0 else 1) else 0)
      ≡ count_id k pool
unfolding count_id erase_session
count_id-erase_session id k [] = ground arith
count_id-erase_session id k (a ∷ pool) = ground (arith, count_id-erase_session id k pool)

accessor_of-ids :
    {H : Type 0} (creator : Option (Option H)) (index : ℕ) {a : SessionAccessor H} {index' : ℕ}
    → accessor_of H creator index ≡ (some a, index')
    → (a.k_id ≡ index) × (index' ≡ (index + 1) % 2 ^ 32)
unfolding accessor_of
accessor_of-ids none index e = absurd (cc e)
accessor_of-ids (some none) index e = absurd (cc e)
accessor_of-ids (some (some h)) index e = (cc e, cc e)

-- A handler of sessions that are numbered below `index` goes on so: a new session gets an id that
-- no other has, as long as `index` does not wrap around.
pub add_session-IsNumbered :
    {H : Type 0} (s : SessionHandler H) (index : ℕ) (state : State) {a : SessionAccessor H}
    {index' : ℕ}
    → IsNumbered index s.session_pool
    → index + 1 < 2 ^ 32
    → get_new_session_accessor H s index ≡ (some a, index')
    → (count_id a.k_id s.session_pool ≡ 0)
      × IsNumbered index' (add_session H (record { accessor = a; state = state }) s).session_pool
unfolding get_new_session_accessor add_session
add_session-IsNumbered s index state {a} {index'} numbered bound e =
    let new : Session _ = record { accessor = a; state = state } in
    let (here, next) = accessor_of-ids s.creator index e in
    let grown : (id : ℕ)
        → count_id id (s.session_pool ++ (new ∷ []))
          ≡ count_id id s.session_pool + (if index == id then 1 else 0) =
      λ id.
        count_id-append id s.session_pool new
        ∙ ap (λ k. count_id id s.session_pool + (if k == id then 1 else 0)) here in
    (
      numbered.below a.k_id (omega arith),
      record {
        once = λ id. ground (arith, grown id, numbered.once id, numbered.below index (omega arith));
        below = λ id up. ground (arith, grown id, numbered.below id (omega arith));
      },
    )

-- Closing a session of a numbered pool takes out that session and no other, so its id is free.
pub close_session-IsNumbered :
    {H : Type 0} (s : SessionHandler H) (index id : ℕ)
    → IsNumbered index s.session_pool
    → (count_id id (close_session H id s).session_pool ≡ 0)
      × ((k : ℕ)
          → (k == id) ≡ false
          → count_id k (close_session H id s).session_pool ≡ count_id k s.session_pool)
      × IsNumbered index (close_session H id s).session_pool
unfolding close_session
close_session-IsNumbered s index id numbered = (
  ground (arith, count_id-erase_session id id s.session_pool, numbered.once id),
  (λ k other. ground (arith, count_id-erase_session id k s.session_pool)),
  record {
    once = λ k. ground (arith, count_id-erase_session id k s.session_pool, numbered.once k);
    below = λ k up. ground (arith, count_id-erase_session id k s.session_pool, numbered.below k up);
  },
)
