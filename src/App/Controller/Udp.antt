-- ===== src/App/Controller/Udp.antt =====
-- `HandleUdpData` over a sequence of datagrams.
use tv_cast.Prelude.{
  Bool, true, false, List, [], ◌∷◌, ◌++◌, ◌≡◌, refl, ap, sym, ◌∙◌, if◌then◌else◌, Option, none,
  some, ◌⊎◌, inl, inr, Bytes, Result, ok, ◌>>=◌, >>=-eq-ok,
}
use tv_cast.Http.CParser.{HttpParserLib}
use tv_cast.App.Types.{App}
use tv_cast.App.Interfaces.{Boost, Network}
use tv_cast.App.Notification.{parse_device_notification}
use tv_cast.App.Notification.Accepts.{IsAlive, parse_device_notification-IsAlive}
use tv_cast.App.Requests.{send_get_config_request}
use tv_cast.App.Controller.{after_notification, handle_tree, handle_udp_data}

module _ (lib : HttpParserLib) (boost : Boost) {W : Type 0} (net : Network W boost.Address) where
  open boost use {read_json, Tree}

  -- The datagrams in the order of their arrival.
  abbrev pub handle_all : List Bytes → App → W → Result (App × W)
  handle_all [] a w = ok (a, w)
  handle_all (b ∷ bs) a w = do (a', w') ← handle_udp_data lib boost net b a w; handle_all bs a' w'

  -- A datagram that changes nothing but what is known of the device.
  abbrev pub Passed : App → W → App → W → Type 0
  Passed a w a' w' = (a'.notification_received ≡ false) × (w' ≡ w)

  -- A datagram that is an accepted notification, and whose configuration request was sent.
  abbrev pub Answered : Bytes → W → App → W → Type 0
  Answered b w a' w' =
      (a'.notification_received ≡ true)
      × (send_get_config_request lib boost net a' w ≡ ok w')
      × ((tree : Tree) × (read_json b ≡ some tree) × IsAlive boost tree)

  after_notification-true :
      (a : App) (w : W) {a' : App} {w' : W}
      → after_notification lib boost net true a w ≡ ok (a', w')
      → (a'.notification_received ≡ true) × (send_get_config_request lib boost net a' w ≡ ok w')
  unfolding after_notification
  after_notification-true a w e =
      let (w1, es, eo) =
        >>=-eq-ok
          (send_get_config_request lib boost net (record a { notification_received = true }) w) _
          e in
      (cc, cc)

  after_notification-cases :
      (accepted : Bool) (a : App) (w : W) {a' : App} {w' : W}
      → a.notification_received ≡ false
      → after_notification lib boost net accepted a w ≡ ok (a', w')
      → ((accepted ≡ false) × Passed a w a' w')
        ⊎ ((accepted ≡ true)
            × (a'.notification_received ≡ true)
            × (send_get_config_request lib boost net a' w ≡ ok w'))
  unfolding after_notification
  after_notification-cases false a w f e = inl (refl, (cc, cc))
  after_notification-cases true a w f e =
      (let (got, sent) = after_notification-true a w e in inr (refl, got, sent))

  handle_tree-cases :
      (b : Bytes) (r : Option Tree) (a : App) (w : W) {a' : App} {w' : W}
      → read_json b ≡ r
      → a.notification_received ≡ false
      → handle_tree lib boost net r a w ≡ ok (a', w')
      → Passed a w a' w' ⊎ Answered b w a' w'
  unfolding handle_tree
  handle_tree-cases b none a w er f e = cc
  handle_tree-cases b (some tree) a w er f e =
      let ((accepted, n), ep, ea) =
        >>=-eq-ok (parse_device_notification lib boost tree a.notification) _ e in
      elim (after_notification-cases accepted (record a { notification = n }) w f ea) [
        | inl (refuses, passed) ↦ inl passed
        | inr (accepts, got, sent) ↦
            elim (parse_device_notification-IsAlive lib boost tree a.notification ep) [
              | inl (t, alive) ↦ inr (got, sent, (tree, er, alive))
              | inr (refuses, dead, same) ↦ absurd cc
            ]
      ]

  by_flag : Bool → Bytes → App → W → Result (App × W)
  by_flag received b a w =
      if received then ok (a, w) else handle_tree lib boost net (read_json b) a w

  handle_udp_data-flag :
      (b : Bytes) (a : App) (w : W) {received : Bool}
      → a.notification_received ≡ received
      → handle_udp_data lib boost net b a w ≡ by_flag received b a w
  unfolding handle_udp_data by_flag
  handle_udp_data-flag b a w f = ap (λ t. by_flag t b a w) f

  handle_udp_data-cases :
      (b : Bytes) (a : App) (w : W) {a' : App} {w' : W}
      → a.notification_received ≡ false
      → handle_udp_data lib boost net b a w ≡ ok (a', w')
      → Passed a w a' w' ⊎ Answered b w a' w'
  unfolding by_flag
  handle_udp_data-cases b a w f e =
      handle_tree-cases b (read_json b) a w refl f (sym (handle_udp_data-flag b a w f) ∙ e)

  handle_all-received :
      (bs : List Bytes) (a : App) (w : W)
      → a.notification_received ≡ true
      → handle_all bs a w ≡ ok (a, w)
  unfolding by_flag
  handle_all-received [] a w t = refl
  handle_all-received (b ∷ bs) a w t =
      ap (λ r. r >>= λ (a', w'). handle_all bs a' w') (handle_udp_data-flag b a w t)
      ∙ handle_all-received bs a w t

  -- Where datagrams are handled without an exception, from a state with no notification received,
  -- then either none was accepted and the network is as it was; or one of them is an alive
  -- notification, and what the network got is exactly the configuration request for the
  -- notification that is held at the end: one request, however many datagrams follow.
  pub handle_all-once :
      (bs : List Bytes) (a : App) (w : W) {a' : App} {w' : W}
      → a.notification_received ≡ false
      → handle_all bs a w ≡ ok (a', w')
      → Passed a w a' w'
        ⊎ ((before : List Bytes) × (b : Bytes) × (after : List Bytes) × (bs ≡ before ++ (b ∷ after))
            × Answered b w a' w')
  handle_all-once [] a w f e = inl (cc, cc)
  handle_all-once (b ∷ bs) a w {a'} {w'} f e =
      let ((a1, w1), eb, rest) = >>=-eq-ok (handle_udp_data lib boost net b a w) _ e in
      elim (handle_udp_data-cases b a w f eb) [
        | inl (still, same) ↦ elim (handle_all-once bs a1 w1 still rest) [
          | inl (still', same') ↦ inl (still', same' ∙ same)
          | inr (before, c, after, split, (got, sent, alive)) ↦
              inr (b ∷ before, c, after, ap (b ∷◌) split, (got, rw (sym same) sent, alive))
        ]
        | inr (got, sent, alive) ↦
            let last = sym (handle_all-received bs a1 w1 got) ∙ rest in
            inr ([], b, bs, refl, (cc, cc, alive))
      ]
