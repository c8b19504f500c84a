-- ===== src/Server/Invariant.antt =====
-- The receivers that are held, and what each phase of `serve_http_with_shutdown` stands for
-- (src/http.rs).
use hyper_server.Prelude.{
  ℕ, ◌+◌, ◌≡◌, refl, Bool, true, false, if◌then◌else◌, Option, none, some, List, [], ◌∷◌, ◌++◌,
  Result, arith,
}
use hyper_server.Stream.{Arrival}
use hyper_server.Errors.{BoxError}
use hyper_server.Watch.{IsWatch}
use hyper_server.Task.{Host, Task, spawned, finished}
use hyper_server.Server.{
  Phase, Server, start, spawn, shut_down, unwind, drain_round, drop_in, drop_main,
}

module _ {host : Host} where
  -- A task holds its receiver until it is gone.
  abbrev pub live : Task host → ℕ
  live finished = 0
  live _ = 1

  abbrev pub total_live : List (Task host) → ℕ
  total_live [] = 0
  total_live (t ∷ ts) = live t + total_live ts

  pub total_live-append :
      (ts us : List (Task host)) → total_live (ts ++ us) ≡ total_live ts + total_live us
  total_live-append [] us = omega arith
  total_live-append (t ∷ ts) us = omega (arith, total_live-append ts us)

  abbrev pub held : Server host → ℕ
  held s = if s.graceful then total_live s.tasks else 0

-- The server's own receiver, and whether its sender has sent or is gone.
abbrev pub own : Phase → ℕ
own Phase.accepting = 1
own _ = 0

abbrev pub is_sent : Phase → Bool
is_sent Phase.accepting = false
is_sent _ = true

-- The phases that only the caller's signal leads to.
abbrev pub follows_signal : Phase → Bool
follows_signal Phase.accepting = false
follows_signal Phase.dropped = false
follows_signal _ = true

module _ (host : Host) where
  open host use {IO, IE, Signal, watch}

  pub record Inv (s : Server host) : Type 0 where
    pub count : watch.receiver_count s.channel ≡ own s.phase + held s
    pub changed : watch.has_changed s.channel ≡ is_sent s.phase
    pub unsignalled : s.graceful ≡ false → s.sig.inner ≡ none
    pub open_ended : s.graceful ≡ false → follows_signal s.phase ≡ false
    pub emptied : s.phase ≡ Phase.returned → held s ≡ 0

  module _ (laws : IsWatch watch) where
    pub start-Inv :
        (signal : Option Signal) (tls : Bool) (incoming : List (Arrival (Result IE IO)))
        → Inv (start host signal tls incoming)
    unfolding start
    start-Inv none tls incoming = record {
      count = laws.count-channel;
      changed = laws.changed-channel;
      unsignalled = λ e. refl;
      open_ended = λ e. refl;
      emptied = λ e. cc;
    }
    start-Inv (some s) tls incoming = record {
      count = laws.count-channel;
      changed = laws.changed-channel;
      unsignalled = λ e. cc;
      open_ended = λ e. cc;
      emptied = λ e. cc;
    }

    abbrev pub Ready : Server host → Type 0
    Ready s = Inv s × (s.phase ≡ Phase.accepting)

    pub spawn-Inv : (r : Result BoxError IO) (s : Server host) → Ready s → Inv (spawn host r s)
    unfolding spawn
    spawn-Inv r s (v, e) = record {
      count = ground (
        arith,
        laws.count-clone s.channel,
        laws.count-drop (watch.clone_receiver s.channel),
        total_live-append s.tasks (spawned r ∷ []),
      );
      changed =
          ground (
            arith,
            laws.changed-clone s.channel,
            laws.changed-drop (watch.clone_receiver s.channel),
          );
      unsignalled = v.unsignalled;
      open_ended = v.open_ended;
      emptied = λ p. cc;
    }

    pub shut_down-Inv : (s : Server host) → Ready s → s.graceful ≡ true → Inv (shut_down host s)
    unfolding shut_down
    shut_down-Inv s (v, e) g = record {
      count = ground (arith, laws.count-send s.channel, laws.count-drop (watch.send s.channel));
      changed =
          ground (arith, laws.changed-send s.channel, laws.changed-drop (watch.send s.channel));
      unsignalled = ground arith;
      open_ended = ground arith;
      emptied = ground arith;
    }

    pub drain_round-Inv :
        (s : Server host) → Inv s → s.phase ≡ Phase.draining → Inv (drain_round host s)
    unfolding drain_round
    drain_round-Inv s v e = record {
      count = ground (arith, laws.count-drop_sender s.channel);
      changed = ground (arith, laws.changed-drop_sender s.channel);
      unsignalled = ground arith;
      open_ended = ground arith;
      emptied = ground (arith, (laws.closed_iff s.channel).0);
    }

    pub unwind-Inv : (s : Server host) → Ready s → s.graceful ≡ true → Inv (unwind host s)
    unfolding unwind
    unwind-Inv s (v, e) g = record {
      count =
          ground (
            arith,
            laws.count-drop_sender s.channel,
            laws.count-drop (watch.drop_sender s.channel),
          );
      changed = ground (
        arith,
        laws.changed-drop_sender s.channel,
        laws.changed-drop (watch.drop_sender s.channel),
      );
      unsignalled = v.unsignalled;
      open_ended = ground arith;
      emptied = ground arith;
    }

    pub drop_main-Inv : (s : Server host) → Inv s → Inv (drop_main host s)
    unfolding drop_main drop_in
    drop_main-Inv s v = go s.phase refl
      where
        go : (p : Phase) → s.phase ≡ p → Inv (drop_in host p s)
        go Phase.accepting e = record {
          count = ground (
            arith,
            laws.count-drop_sender s.channel,
            laws.count-drop (watch.drop_sender s.channel),
          );
          changed = ground (
            arith,
            laws.changed-drop_sender s.channel,
            laws.changed-drop (watch.drop_sender s.channel),
          );
          unsignalled = v.unsignalled;
          open_ended = λ p. refl;
          emptied = ground arith;
        }
        go Phase.draining e = record {
          count = ground (arith, laws.count-drop_sender s.channel);
          changed = laws.changed-drop_sender s.channel;
          unsignalled = v.unsignalled;
          open_ended = λ p. refl;
          emptied = ground arith;
        }
        go Phase.returned e = v
        go Phase.panicked e = v
        go Phase.dropped e = v
