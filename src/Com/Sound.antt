-- ===== src/Com/Sound.antt =====
-- The communication controller between two handlers.
use tv_cast.Prelude.{ℕ, ◌≤◌, ◌≡◌, arith, true, List, Result, ok, err, ◌>>=◌, IsExpected}
use tv_cast.Http.CParser.{HttpParserLib}
use tv_cast.App.Interfaces.{Boost}
use tv_cast.Net.SessionHandler.{Session}
use tv_cast.Net.SessionHandler.Ids.{IsNumbered}
use tv_cast.Tcp.{Tcp, ObserverInterface}
use tv_cast.Tcp.Contract.{Promise}
use tv_cast.Tcp.Live.{IsLive, Outcome}
use tv_cast.Com.{Communication, server_of, with_server, client_of, with_client}
use tv_cast.Com.Bridges.{server_observer, client_observer}
use tv_cast.Com.Promises.{server_promise, client_promise}

IsNumbered-weaken :
    {H : Type 0} (m n : ℕ) (pool : List (Session H)) → m ≤ n → IsNumbered m pool → IsNumbered n pool
IsNumbered-weaken m n pool le numbered = record {
  once = numbered.once;
  below = λ id up. numbered.below id (omega arith);
}

module _ {H A : Type 0} (observer : ObserverInterface H A) (promise : Promise H A) where
  pub counted_from :
      (n : ℕ) (t : Tcp observer)
      → n ≤ t.index
      → IsLive observer promise t
      → IsLive observer (record promise { least = n }) t
  counted_from n t le live = record {
    owned = live.owned;
    numbered = live.numbered;
    held = live.held;
    fixed = live.fixed;
    named = live.named;
    counted = le;
    creates = live.creates;
  }

module _ (lib : HttpParserLib) (boost : Boost) where
  -- The server and the client are live beside each other, the session that the application names is
  -- one of the server's, and the server of datagrams has its observer.
  pub record IsSound (c : Communication lib boost) : Type 0 where
    pub server :
        IsLive (server_observer lib boost) (server_promise lib boost 0) (server_of lib boost c)
    pub client :
        IsLive
          (client_observer lib boost)
          (client_promise lib boost c.tcp_server.session_pool 0)
          (client_of lib boost c)
    pub registered : c.udp_server.observer ≡ true

  abbrev pub Ends : Result (Communication lib boost) → Type 0
  Ends (ok c) = IsSound c
  Ends (err e) = IsExpected e

  -- What a step of the server, and one of the client, leaves.
  pub with_server-IsSound :
      (c : Communication lib boost) (r : Result (Tcp (server_observer lib boost)))
      → Outcome (server_observer lib boost) (server_promise lib boost c.index) r
      → IsSound c
      → Ends (r >>= λ t. ok (with_server lib boost c t))
  with_server-IsSound c (err e) expected sound = expected
  with_server-IsSound c (ok t) live sound = record {
    server =
        counted_from (server_observer lib boost) (server_promise lib boost c.index) 0 t
          (omega arith) live;
    client = record {
      owned = sound.client.owned;
      numbered =
          IsNumbered-weaken c.index t.index c.tcp_client.session_pool live.counted
            sound.client.numbered;
      held = sound.client.held;
      fixed = live.named;
      named = λ id name. absurd name;
      counted = omega arith;
      creates = sound.client.creates;
    };
    registered = sound.registered;
  }

  pub with_client-IsSound :
      (c : Communication lib boost) (t : Tcp (client_observer lib boost))
      → IsLive
          (client_observer lib boost)
          (client_promise lib boost c.tcp_server.session_pool c.index)
          t
      → IsSound c
      → IsSound (with_client lib boost c t)
  with_client-IsSound c t live sound = record {
    server = record {
      owned = sound.server.owned;
      numbered =
          IsNumbered-weaken c.index t.index c.tcp_server.session_pool live.counted
            sound.server.numbered;
      held = sound.server.held;
      fixed = tt;
      named = live.fixed;
      counted = omega arith;
      creates = sound.server.creates;
    };
    client =
        counted_from (client_observer lib boost)
          (client_promise lib boost c.tcp_server.session_pool c.index) 0 t (omega arith) live;
    registered = sound.registered;
  }
