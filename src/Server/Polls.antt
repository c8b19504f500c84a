-- ===== src/Server/Polls.antt =====
-- What the two polls of a round of `serve_http_with_shutdown` can come to (src/http.rs).
use hyper_server.Prelude.{
  ◌+◌, ◌-◌, ◌≤◌, ◌≡◌, refl, ◌∙◌, Bool, true, false, if◌then◌else◌, Option, none, some, List, [],
  ◌∷◌, Result, ok, err, length, arith,
}
use hyper_server.Future.{Polled, panics, waits, completes, map_polled}
use hyper_server.Fuse.{Fuse, settle, poll_fuse}
use hyper_server.Stream.{Arrival, later, item, items, Next, crashes, yields, ended}
use hyper_server.Stream
use hyper_server.Errors.{BoxError}
use hyper_server.Tcp.{serve_tcp_incoming}
use hyper_server.Tcp.Demux.{accepted}
use hyper_server.Task.{Host}
use hyper_server.Server.{Server, poll_sig, poll_incoming, after_next}

module _ (host : Host) where
  open host use {IO, IE, Cx, Signal}

  -- What the demultiplexer will still yield, in its order.
  abbrev pub to_come : List (Arrival (Result IE IO)) → List (Result BoxError IO)
  to_come incoming = accepted host.into (items incoming)

  -- One poll of the demultiplexer, which does not panic, by what it was polled on: it takes an arrival
  -- or more, and leaves what was to come or yields the first of it, or ends when there was nothing.
  abbrev Answers :
      List (Arrival (Result IE IO))
      → Next (List (Arrival (Result IE IO))) (Result BoxError IO)
      → Type 0
  Answers s crashes = ⊥
  Answers s (Stream.waits rest) = (to_come s ≡ to_come rest) × (length rest + 1 ≤ length s)
  Answers s (yields r rest) = (to_come s ≡ r ∷ to_come rest) × (length rest + 1 ≤ length s)
  Answers s ended = to_come s ≡ []

  serve_tcp_incoming-Answers :
      (s : List (Arrival (Result IE IO))) → Answers s (serve_tcp_incoming host.into s)
  unfolding serve_tcp_incoming
  serve_tcp_incoming-Answers [] = refl
  serve_tcp_incoming-Answers (later ∷ s) = (refl, omega arith)
  serve_tcp_incoming-Answers (item (ok stream) ∷ s) = (refl, omega arith)
  serve_tcp_incoming-Answers (item (err e) ∷ s) = ground (arith, serve_tcp_incoming-Answers s)

  -- All but the signal's future and the stream is as it was.
  pub record Kept (s t : Server host) : Type 0 where
    pub graceful : t.graceful ≡ s.graceful
    pub channel : t.channel ≡ s.channel
    pub tasks : t.tasks ≡ s.tasks
    pub phase : t.phase ≡ s.phase
    pub unsignalled : s.sig.inner ≡ none → t.sig.inner ≡ none

  -- The signal is still polled, and its poll does not wait.
  abbrev pub Fires : Server host → Cx → Type 0
  Fires s cx =
      (f : Signal) × (s.sig.inner ≡ some f) × ((f' : Signal) → ¬ (host.signal.poll f cx ≡ waits f'))

  -- The incoming stream is not polled.
  abbrev pub Unpolled : Server host → Server host → Type 0
  Unpolled s t = Kept s t × (t.incoming ≡ s.incoming) × (t.exhausted ≡ s.exhausted)

  -- A stream that has ended is empty.
  abbrev pub IsOver : Server host → Type 0
  IsOver s = s.exhausted ≡ true → s.incoming ≡ []

  -- The stream has lost an arrival, unless it had none.
  abbrev pub Advances : Server host → Server host → Type 0
  Advances s t = IsOver s → IsOver t × (length t.incoming ≤ length s.incoming - 1)

  -- Nothing is yielded.
  abbrev pub Still : Server host → Server host → Type 0
  Still s t = Kept s t × (to_come s.incoming ≡ to_come t.incoming)

  -- The incoming stream is polled, and yields nothing, or the first that was to come.
  abbrev pub Pauses : Server host → Server host → Type 0
  Pauses s t = Kept s t × (to_come s.incoming ≡ to_come t.incoming) × Advances s t

  abbrev pub Yields : Result BoxError IO → Server host → Server host → Type 0
  Yields r s t = Kept s t × (to_come s.incoming ≡ r ∷ to_come t.incoming) × Advances s t

  pub Kept-refl : (s : Server host) → Kept s s
  Kept-refl s = record {
    graceful = refl;
    channel = refl;
    tasks = refl;
    phase = refl;
    unsignalled = λ e. e;
  }

  pub Kept-trans : {s t u : Server host} → Kept s t → Kept t u → Kept s u
  Kept-trans k l = record {
    graceful = l.graceful ∙ k.graceful;
    channel = l.channel ∙ k.channel;
    tasks = l.tasks ∙ k.tasks;
    phase = l.phase ∙ k.phase;
    unsignalled = λ e. l.unsignalled (k.unsignalled e);
  }

  abbrev pub SigOutcome : Server host → Cx → Polled (Server host) (Unit {0}) → Type 0
  SigOutcome s cx panics = Fires s cx
  SigOutcome s cx (waits t) = Unpolled s t
  SigOutcome s cx (completes u t) = Fires s cx × Unpolled s t

  pub poll_sig-SigOutcome : (s : Server host) (cx : Cx) → SigOutcome s cx (poll_sig host s cx)
  unfolding poll_sig poll_fuse
  poll_sig-SigOutcome s cx = go s.sig.inner refl
    where
      kept :
          (g : Fuse Signal)
          → (s.sig.inner ≡ none → g.inner ≡ none)
          → Unpolled s (record s { sig = g })
      kept g h = (
        record { graceful = refl; channel = refl; tasks = refl; phase = refl; unsignalled = h },
        refl,
        refl,
      )

      watched :
          (f : Signal) (r : Polled Signal (Unit {0}))
          → s.sig.inner ≡ some f
          → host.signal.poll f cx ≡ r
          → SigOutcome s cx (map_polled (λ g. record s { sig = g }) (λ u. u) (settle r))
      watched f panics a e = (f, a, λ f' w. cc)
      watched f (waits f') a e = kept (record { inner = some f' }) (λ n. cc)
      watched f (completes u f') a e =
          ((f, a, λ f'' w. cc), kept (record { inner = none }) (λ n. refl))

      go :
          (o : Option Signal)
          → s.sig.inner ≡ o
          → SigOutcome s cx (
              map_polled
                (λ g. record s { sig = g })
                (λ u. u)
                (poll_fuse host.signal (record { inner = o }) cx))
      go none e = kept (record { inner = none }) (λ _. refl)
      go (some f) e = watched f (host.signal.poll f cx) e refl

  abbrev pub IncomingOutcome : Server host → Polled (Server host) (Result BoxError IO) → Type 0
  IncomingOutcome s panics = ⊥
  IncomingOutcome s (waits t) = Pauses s t
  IncomingOutcome s (completes r t) = Yields r s t

  pub poll_incoming-IncomingOutcome : (s : Server host) → IncomingOutcome s (poll_incoming host s)
  unfolding poll_incoming
  poll_incoming-IncomingOutcome s =
      go s.exhausted refl (serve_tcp_incoming host.into s.incoming)
        (serve_tcp_incoming-Answers s.incoming)
    where
      kept :
          (incoming : List (Arrival (Result IE IO))) (exhausted : Bool)
          → Kept s (record s { incoming = incoming; exhausted = exhausted })
      kept incoming exhausted = record {
        graceful = refl;
        channel = refl;
        tasks = refl;
        phase = refl;
        unsignalled = λ e. e;
      }

      go :
          (b : Bool)
          → s.exhausted ≡ b
          → (n : Next (List (Arrival (Result IE IO))) (Result BoxError IO)) → Answers s.incoming n
          → IncomingOutcome s (if b then waits s else after_next host s n)
      go true e n h = (Kept-refl s, refl, λ over. (over, rw (over e) (omega arith)))
      go false e crashes h = h
      go false e (Stream.waits rest) (h, l) =
          (kept rest s.exhausted, h, λ over. (λ o. cc, omega arith))
      go false e (yields r rest) (h, l) = (kept rest s.exhausted, h, λ over. (λ o. cc, omega arith))
      go false e ended h = (kept [] true, h, λ over. (λ o. refl, omega arith))
