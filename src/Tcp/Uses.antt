-- ===== src/Tcp/Uses.antt =====
-- The operations that wait on a session.
use tv_cast.Prelude.{
  ℕ, zero, suc, ◌+◌, ◌<◌, ◌≡◌, ap, arith, List, [], ◌∷◌, ◌++◌, Option, none, some, ◌==◌,
  if◌then◌else◌, ==_iff,
}
use tv_cast.Net.SessionHandler.{Session}
use tv_cast.Net.SessionHandler.Ids.{count_id}
use tv_cast.Tcp.{Operation, async_read_some, async_write, async_accept, behind, pick}

abbrev pub session_of : Operation → ℕ
session_of (async_read_some id) = id
session_of (async_write id buffer) = id
session_of (async_accept id) = id

-- How many waiting operations were started on a session.
unfoldable pub uses : ℕ → List Operation → ℕ
uses id [] = 0
uses id (o ∷ os) = (if session_of o == id then 1 else 0) + uses id os

-- Every waiting operation is on a session of the pool.
abbrev pub Owned : {H : Type 0} → List (Session H) → List Operation → Type 0
Owned pool pending = (id : ℕ) → 0 < uses id pending → 0 < count_id id pool

pub uses-append :
    (id : ℕ) (os : List Operation) (o : Operation)
    → uses id (os ++ (o ∷ [])) ≡ uses id os + (if session_of o == id then 1 else 0)
unfolding uses
uses-append id [] o = ground arith
uses-append id (p ∷ os) o = ground (arith, uses-append id os o)

pub Owned-wait :
    {H : Type 0} (pool : List (Session H)) (os : List Operation) (o : Operation)
    → Owned pool os
    → 0 < count_id (session_of o) pool
    → Owned pool (os ++ (o ∷ []))
Owned-wait pool os o owned here id used =
    ground (arith, uses-append id os o, owned id, ==_iff (session_of o) id)

pub picked_later :
    (p : Operation) (r : Option (Operation × List Operation)) {o : Operation}
    {rest : List Operation}
    → behind p r ≡ some (o, rest)
    → (others : List Operation) × (r ≡ some (o, others)) × (rest ≡ p ∷ others)
picked_later p none e = absurd (cc e)
picked_later p (some (q, others)) e = (others, cc e, cc e)

pub uses-pick :
    (n : ℕ) (os : List Operation) {o : Operation} {rest : List Operation}
    → pick n os ≡ some (o, rest)
    → (id : ℕ) → uses id os ≡ (if session_of o == id then 1 else 0) + uses id rest
unfolding pick uses
uses-pick n [] e id = absurd (cc e)
uses-pick zero (p ∷ os) e id = cc e
uses-pick (suc n) (p ∷ os) {o} {rest} e id =
    let (others, found, split) = picked_later p (pick n os) e in
    let all : uses id rest ≡ uses id (p ∷ others) = ap (uses id) split in
    ground (arith, all, uses-pick n os found id)
