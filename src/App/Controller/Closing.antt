-- ===== src/App/Controller/Closing.antt =====
-- The session of the loop, when a session is closed.
use tv_cast.Prelude.{
  ℕ, ◌≡◌, ◌≢◌, refl, sym, ◌∙◌, arith, Option, none, some, ◌==◌, ==_iff, if◌then◌else◌, inl, inr,
  Bool-cases,
}
use tv_cast.App.Types.{App}
use tv_cast.App.Controller.{notify_loop_session_close, same_session}

kept-named :
    (id k : ℕ) (a : App) (l : Option ℕ)
    → a.loop_session ≡ l
    → (if same_session id l then record a { loop_session = none } else a).loop_session ≡ some k
    → (k ≢ id) × (a.loop_session ≡ some k)
unfolding same_session
kept-named id k a none e name = absurd (cc (sym e ∙ name))
kept-named id k a (some s) e name = elim (Bool-cases (id == s)) [
  | inl same ↦ absurd (let gone : none ≡ some k = rw same at name in cc gone)
  | inr other ↦
      let still : a.loop_session ≡ some k = rw other at name in
      let here : k ≡ s = cc (sym still ∙ e) in ((λ same. ground (arith, ==_iff id s)), still)
]

-- A session that is still the loop's when a session is closed is another one, and was the loop's.
pub notify_loop_session_close-named :
    (id k : ℕ) (a : App)
    → (notify_loop_session_close id a).loop_session ≡ some k
    → (k ≢ id) × (a.loop_session ≡ some k)
unfolding notify_loop_session_close
notify_loop_session_close-named id k a name = kept-named id k a a.loop_session refl name
