-- ===== src/Tcp/Registry.antt =====
-- The pool of sessions as a map from ids to what the sessions hold.
use tv_cast.Prelude.{
  ℕ, ◌+◌, ◌<◌, ◌^◌, ◌%◌, ◌≡◌, refl, sym, ap, ◌∙◌, arith, false, List, [], ◌∷◌, ◌++◌, Option, none,
  some, ◌==◌, ==_iff, if◌then◌else◌, Result, ok, ◌>>=◌, length, inl, inr, Bool-cases,
}
use mathlib.Core.Path.{subst}
use tv_cast.Net.SessionHandler.{
  Session, State, get_new_session_accessor, add_session, close_session, erase_session, accessor_of,
}
use tv_cast.Net.SessionHandler.Ids.{
  IsNumbered, count_id, add_session-IsNumbered, close_session-IsNumbered,
}
use tv_cast.Tcp.{ObserverInterface, Tcp, new_session, find_session, set_handler, checked}
use tv_cast.Tcp.Contract.{count_id-set_handler}
use tv_cast.Tcp.Freed.{find_session-none}

-- What a server or a client does with its pool.
pub data Change (H : Type 0) : Type 0 where
  add : Change H
  close : ℕ → Change H
  set : ℕ → H → Change H

-- The next id, and what the session with an id holds.
pub record Registry (H : Type 0) : Type 0 where
  pub next : ℕ
  pub session : ℕ → Option H

abbrev pub replace : {H : Type 0} → ℕ → Option H → (ℕ → Option H) → ℕ → Option H
replace id s f k = if k == id then s else f k

abbrev pub present : {H : Type 0} → H → Option H → Option H
present h none = none
present h (some old) = some h

-- The same on a map; a new session holds `h`.
abbrev pub change : {H : Type 0} → H → Change H → Registry H → Registry H
change h add r = record { next = r.next + 1; session = replace r.next (some h) r.session }
change h (close id) r = record r { session = replace id none r.session }
change h (set id k) r = record r { session = replace id (present k (r.session id)) r.session }

abbrev pub replay : {H : Type 0} → H → List (Change H) → Registry H → Registry H
replay h [] r = r
replay h (c ∷ changes) r = replay h changes (change h c r)

module _ {H A : Type 0} (observer : ObserverInterface H A) where
  unfoldable pub apply : Change H → Tcp observer → Result (Tcp observer)
  apply add t = do
    (a, t') ← checked observer (get_new_session_accessor H t.sessions t.index) t
    ok t'
  apply (close id) t = ok (record t { sessions = close_session H id t.sessions })
  apply (set id h) t = ok (record t {
    sessions = record t.sessions {
      session_pool = set_handler observer id h t.sessions.session_pool;
    };
  })

  unfoldable pub run : List (Change H) → Tcp observer → Result (Tcp observer)
  run [] t = ok t
  run (c ∷ changes) t = apply c t >>= run changes

  -- What the pool holds for an id.
  abbrev pub held : Tcp observer → ℕ → Option H
  held t id = find_session observer id t.sessions.session_pool

  -- The pool with these ids reads as the map.
  pub record Reads (t : Tcp observer) (r : Registry H) : Type 0 where
    pub numbered : IsNumbered t.index t.sessions.session_pool
    pub next : t.index ≡ r.next
    pub session : (id : ℕ) → held t id ≡ r.session id

  find_session-append :
      (k : ℕ) (pool : List (Session H)) (s : Session H)
      → count_id s.accessor.k_id pool ≡ 0
      → find_session observer k (pool ++ (s ∷ []))
        ≡ replace s.accessor.k_id (some s.accessor.handler) (λ i. find_session observer i pool) k
  unfolding count_id find_session
  find_session-append k [] s fresh = ground arith
  find_session-append k (p ∷ pool) s fresh =
      ground (arith, find_session-append k pool s (omega arith), ==_iff k s.accessor.k_id)

  find_session-erase_session :
      (id k : ℕ) (pool : List (Session H))
      → (k == id) ≡ false
      → find_session observer k (erase_session H id pool) ≡ find_session observer k pool
  unfolding find_session erase_session
  find_session-erase_session id k [] other = refl
  find_session-erase_session id k (p ∷ pool) other =
      ground (arith, find_session-erase_session id k pool other, ==_iff k id)

  find_session-set_handler :
      (id k : ℕ) (h : H) (pool : List (Session H))
      → find_session observer k (set_handler observer id h pool)
        ≡ replace id
            (present h (find_session observer id pool))
            (λ i. find_session observer i pool)
            k
  unfolding find_session set_handler
  find_session-set_handler id k h [] = ground arith
  find_session-set_handler id k h (p ∷ pool) =
      ground (arith, find_session-set_handler id k h pool, ==_iff k id)

  add-Reads :
      (h : H) (t : Tcp observer) (r : Registry H)
      → t.index + 1 < 2 ^ 32
      → Reads t r
      → Reads
          (record t {
            sessions =
                add_session H
                  (new_session observer (record { handler = h; k_id = t.index }))
                  t.sessions;
            index = (t.index + 1) % 2 ^ 32;
          })
          (change h add r)
  unfolding add_session get_new_session_accessor accessor_of
  add-Reads h t r bound reads =
      let pool = t.sessions.session_pool in
      let s = new_session observer (record { handler = h; k_id = t.index }) in
      let fresh : count_id t.index pool ≡ 0 = reads.numbered.below t.index (omega arith) in
      let (gone, numbered) =
        add_session-IsNumbered (record t.sessions { creator = some (some h) }) t.index State.run
          reads.numbered bound refl in
      record {
        numbered = unfold add_session in numbered;
        next = ground (arith, reads.next);
        session = λ id.
            find_session-append id pool s fresh
            ∙ ap (λ f. if id == t.index then some h else f) (reads.session id)
            ∙ ap (λ n. if id == n then some h else r.session id) reads.next;
      }

  close-Reads :
      (h : H) (id : ℕ) (t : Tcp observer) (r : Registry H)
      → Reads t r
      → Reads (record t { sessions = close_session H id t.sessions }) (change h (close id) r)
  unfolding close_session
  close-Reads h id t r reads =
      let pool = t.sessions.session_pool in
      let (gone, others, numbered) =
        close_session-IsNumbered t.sessions t.index id reads.numbered in
      record {
        numbered = numbered;
        next = reads.next;
        session = λ k. elim (Bool-cases (k == id)) [
          | inl same ↦ rw same (
              find_session-none observer k (erase_session H id pool) (
                subst (λ i. count_id i (erase_session H id pool) ≡ 0) (sym ((==_iff k id).0 same))
                  gone))
          | inr other ↦ rw other (find_session-erase_session id k pool other ∙ reads.session k)
        ];
      }

  set-Reads :
      (h : H) (id : ℕ) (k : H) (t : Tcp observer) (r : Registry H)
      → Reads t r
      → Reads
          (record t {
            sessions = record t.sessions {
              session_pool = set_handler observer id k t.sessions.session_pool;
            };
          })
          (change h (set id k) r)
  set-Reads h id k t r reads =
      let pool = t.sessions.session_pool in
      let sized = λ (i : ℕ). count_id-set_handler observer id i k pool in
      record {
        numbered = record {
          once = λ i. ground (arith, reads.numbered.once i, sized i);
          below = λ i up. ground (arith, reads.numbered.below i up, sized i);
        };
        next = reads.next;
        session = λ i.
            find_session-set_handler id i k pool
            ∙ ap (λ s. if i == id then present k s else find_session observer i pool)
                (reads.session id)
            ∙ ap (λ s. if i == id then present k (r.session id) else s) (reads.session i);
      }

  made-apply :
      (h : H) (t : Tcp observer)
      → t.sessions.creator ≡ some (some h)
      → apply add t
        ≡ ok (record t {
          sessions =
              add_session H
                (new_session observer (record { handler = h; k_id = t.index }))
                t.sessions;
          index = (t.index + 1) % 2 ^ 32;
        })
  unfolding apply checked get_new_session_accessor accessor_of
  made-apply h t made =
      ap (λ c. checked observer (accessor_of H c t.index) t >>= λ (a, t'). ok t') made

  abbrev pub Refines : H → List (Change H) → Tcp observer → Registry H → Type 0
  Refines h changes t r =
      (t' : Tcp observer) × (run changes t ≡ ok t') × Reads t' (replay h changes r)

  -- From a pool of numbered sessions that reads as a map from ids, with a creator of observers,
  -- and while the ids do not run out: any sequence of new sessions, closed sessions and calls
  -- that change what a session holds is carried out without a failed check, and the pool then
  -- reads as the map that the same sequence makes of the map.
  pub run-Refines :
      (h : H) (changes : List (Change H)) (t : Tcp observer) (r : Registry H)
      → t.sessions.creator ≡ some (some h)
      → t.index + length changes < 2 ^ 32
      → Reads t r
      → Refines h changes t r
  unfolding run apply close_session add_session
  run-Refines h [] t r made bound reads = (t, refl, reads)
  run-Refines h (add ∷ changes) t r made bound reads =
      let (t', done, reads') =
        run-Refines h changes _ (change h add r) made (ground arith)
          (add-Reads h t r (omega arith) reads) in
      (t', ap (λ m. m >>= run changes) (made-apply h t made) ∙ done, reads')
  run-Refines h (close id ∷ changes) t r made bound reads =
      run-Refines h changes _ (change h (close id) r) made (omega arith)
        (close-Reads h id t r reads)
  run-Refines h (set id k ∷ changes) t r made bound reads =
      run-Refines h changes _ (change h (set id k) r) made (omega arith)
        (set-Reads h id k t r reads)
