-- ===== src/Server/Countdown.antt =====
-- A round of the accept loop of `serve_http_with_shutdown` brings its signal nearer (src/http.rs).
use hyper_server.Prelude.{
  ℕ, zero, suc, ◌+◌, ◌-◌, ◌≤◌, ◌<◌, ◌≡◌, refl, ◌∙◌, ◌⊎◌, inl, inr, ap, Bool, true, false,
  if◌then◌else◌, some, List, [], ◌∷◌, Result, length, arith,
}
use hyper_server.Future.{Polled, panics, waits, completes, Finishes}
use hyper_server.Fuse.{settle, poll_fuse}
use hyper_server.Stream.{Arrival, Next, crashes, yields, ended}
use hyper_server.Stream
use hyper_server.Tcp.{serve_tcp_incoming}
use hyper_server.Errors.{BoxError}
use hyper_server.Task.{Host}
use hyper_server.Server.Polls.{
  Kept, to_come, IsOver, IncomingOutcome, poll_incoming-IncomingOutcome,
}
use hyper_server.Server.{
  Phase, First, Server, poll_sig, poll_incoming, after_next, spawn, shut_down, unwind,
  after_incoming, accept_round,
}

module _ (host : Host) where
  open host use {IO, IE, Cx, Signal}

  -- In the loop, with a signal that fires after so many polls and a stream of so many arrivals.
  pub record Armed (n k : ℕ) (s : Server host) : Type 0 where
    pub phase : s.phase ≡ Phase.accepting
    pub graceful : s.graceful ≡ true
    pub signal : Signal
    pub waiting : s.sig.inner ≡ some signal
    pub finishes : Finishes host.signal n signal tt
    pub over : IsOver host s
    pub short : length s.incoming ≤ k

  abbrev Sig : ℕ → ℕ → Polled (Server host) (Unit {0}) → Type 0
  Sig n k panics = ⊥
  Sig n k (waits t) = (m : ℕ) × (m + 1 ≤ n) × Armed m k t
  Sig n k (completes u t) = t.graceful ≡ true

  poll_sig-Sig : (n k : ℕ) (s : Server host) (cx : Cx) → Armed n k s → Sig n k (poll_sig host s cx)
  unfolding poll_sig poll_fuse settle
  poll_sig-Sig zero k s cx a =
      let (f', e) = a.finishes cx in rw (a.waiting, poll_fuse, e, settle) a.graceful
  poll_sig-Sig (suc n) k s cx a =
      let (f', e, rest) = a.finishes cx in
      rw (a.waiting, poll_fuse, e, settle)
        (
          n,
          omega arith,
          record {
            phase = a.phase;
            graceful = a.graceful;
            signal = f';
            waiting = refl;
            finishes = rest;
            over = a.over;
            short = a.short;
          },
        )

  abbrev Unsignalled : Server host → Polled (Server host) (Result BoxError IO) → Type 0
  Unsignalled s panics = Unit
  Unsignalled s (waits t) = t.sig ≡ s.sig
  Unsignalled s (completes r t) = t.sig ≡ s.sig

  poll_incoming-Unsignalled : (s : Server host) → Unsignalled s (poll_incoming host s)
  unfolding poll_incoming after_next
  poll_incoming-Unsignalled s = go s.exhausted (serve_tcp_incoming host.into s.incoming)
    where
      go :
          (b : Bool) (n : Next (List (Arrival (Result IE IO))) (Result BoxError IO))
          → Unsignalled s (if b then waits s else after_next host s n)
      go true n = refl
      go false crashes = tt
      go false (Stream.waits rest) = refl
      go false (yields r rest) = refl
      go false ended = refl

  abbrev Brings : ℕ → ℕ → Polled (Server host) (Result BoxError IO) → Type 0
  Brings n k panics = ⊥
  Brings n k (waits t) = Armed n k t
  Brings n k (completes r t) = (m : ℕ) × (m + 1 ≤ k) × Armed n m t

  Kept-Armed :
      (n k m : ℕ) {s t : Server host}
      → Armed n k s
      → Kept host s t
      → t.sig ≡ s.sig
      → IsOver host t
      → length t.incoming ≤ m
      → Armed n m t
  Kept-Armed n k m a kept sig over short = record {
    phase = kept.phase ∙ a.phase;
    graceful = kept.graceful ∙ a.graceful;
    signal = a.signal;
    waiting = ap (λ g. g.inner) sig ∙ a.waiting;
    finishes = a.finishes;
    over = over;
    short = short;
  }

  -- Something is yielded only if there is an arrival.
  yields_arrival :
      (l : List (Arrival (Result IE IO))) (r : Result BoxError IO)
      (rest : List (Result BoxError IO))
      → to_come host l ≡ r ∷ rest
      → 1 ≤ length l
  yields_arrival [] r rest e = cc
  yields_arrival (a ∷ l) r rest e = omega arith

  poll_incoming-Brings :
      (n k : ℕ) (s : Server host) → Armed n k s → Brings n k (poll_incoming host s)
  poll_incoming-Brings n k s a =
      go (poll_incoming host s) (poll_incoming-IncomingOutcome host s) (poll_incoming-Unsignalled s)
    where
      go :
          (r : Polled (Server host) (Result BoxError IO))
          → IncomingOutcome host s r
          → Unsignalled s r
          → Brings n k r
      go panics h u = h
      go (waits t) (kept, left, advances) u =
          let (over, shorter) = advances a.over in
          Kept-Armed n k k a kept u over (omega (arith, shorter, a.short))
      go (completes r t) (kept, left, advances) u =
          let (over, shorter) = advances a.over in
          let some_arrival = yields_arrival s.incoming r (to_come host t.incoming) left in
          (
            k - 1,
            omega (arith, a.short, some_arrival),
            Kept-Armed n k (k - 1) a kept u over (omega (arith, shorter, a.short, some_arrival)),
          )

  -- The loop has been left by the signal, or goes on with so many polls and arrivals in all.
  abbrev pub Nearer : ℕ → Server host → Type 0
  Nearer most s = (s.phase ≡ Phase.draining) ⊎ ((n k : ℕ) × (n + k < most) × Armed n k s)

  phase-shut_down :
      (s : Server host) → s.graceful ≡ true → (shut_down host s).phase ≡ Phase.draining
  unfolding shut_down
  phase-shut_down s g = ground arith

  spawn-Armed :
      (n k : ℕ) (r : Result BoxError IO) (s : Server host)
      → Armed n k s
      → Armed n k (spawn host r s)
  unfolding spawn
  spawn-Armed n k r s a = record {
    phase = a.phase;
    graceful = a.graceful;
    signal = a.signal;
    waiting = a.waiting;
    finishes = a.finishes;
    over = a.over;
    short = a.short;
  }

  pub accept_round-Nearer :
      (n k most : ℕ) (first : First) (s : Server host) (cx : Cx)
      → n + k < suc most
      → Armed n k s
      → Nearer most (accept_round host first s cx)
  unfolding accept_round after_incoming
  accept_round-Nearer n k most First.sig_first s cx h a =
      go (poll_sig host s cx) (poll_sig-Sig n k s cx a)
    where
      after :
          (m : ℕ) (t : Server host) (r : Polled (Server host) (Result BoxError IO))
          → m + 1 ≤ n
          → Brings m k r
          → Nearer most (after_incoming host r t)
      after m t panics l q = absurd q
      after m t (waits u) l q = inr (m, k, omega (arith, h, l), q)
      after m t (completes r u) l (k', k_less, q) =
          inr (m, k', omega (arith, h, l, k_less), spawn-Armed m k' r u q)

      go :
          (r : Polled (Server host) (Unit {0}))
          → Sig n k r
          → Nearer most (elim r [
            | panics ↦ unwind host s
            | completes u s' ↦ shut_down host s'
            | waits s' ↦ after_incoming host (poll_incoming host s') s'
          ])
      go panics q = absurd q
      go (completes u t) g = inl (phase-shut_down t g)
      go (waits t) (m, l, q) = after m t (poll_incoming host t) l (poll_incoming-Brings m k t q)
  accept_round-Nearer n k most First.incoming_first s cx h a =
      go (poll_incoming host s) (poll_incoming-Brings n k s a)
    where
      after :
          (t : Server host) (r : Polled (Server host) (Unit {0}))
          → Sig n k r
          → Nearer most (elim r [
            | panics ↦ unwind host t
            | completes u s' ↦ shut_down host s'
            | waits s' ↦ s'
          ])
      after t panics q = absurd q
      after t (completes u t') g = inl (phase-shut_down t' g)
      after t (waits u) (m, l, q) = inr (m, k, omega (arith, h, l), q)

      go :
          (r : Polled (Server host) (Result BoxError IO))
          → Brings n k r
          → Nearer most (elim r [
            | panics ↦ unwind host s
            | completes io_result s' ↦ spawn host io_result s'
            | waits s' ↦ elim (poll_sig host s' cx) [
              | panics ↦ unwind host s'
              | completes u s'' ↦ shut_down host s''
              | waits s'' ↦ s''
            ]
          ])
      go panics q = absurd q
      go (completes r t) (k', k_less, q) =
          inr (n, k', omega (arith, h, k_less), spawn-Armed n k' r t q)
      go (waits t) q = after t (poll_sig host t cx) (poll_sig-Sig n k t cx q)
