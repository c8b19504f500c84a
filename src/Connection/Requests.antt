-- ===== src/Connection/Requests.antt =====
-- The requests that a connection has taken when `serve_http_connection` ends (src/http.rs).
use mathlib.Core.Path.{subst}
use hyper_server.Prelude.{ℕ, ◌≤◌, ◌≡◌, List, [], ◌∷◌, Result, ok, err, arith, ◌⊎◌, inl, inr}
use hyper_server.Future.{Polled, panics, waits, completes, map_polled}
use hyper_server.Fuse.{poll_fuse}
use hyper_server.Connection.Select.{Round, Ends}
use hyper_server.Connection.Rounds.{armed, poll_serving-Ends}
use hyper_server.Connection.ServedOut.{Drawn}
use hyper_server.Connection.{
  Branch, conn_branch, sleep_branch, sig_branch, Fired, conn_ended, age_reached, signal_received,
  Serving, Parts, poll_sleep, poll_branch, age_handler, sig_handler, poll_serving,
}

-- What has become of the function's future after some polls.
pub data Fate (S : Type 0) : Type 0 where
  panicked : Fate S
  goes_on : S → Fate S
  returned : S → Fate S

module _ {Cx C E Duration Timer W : Type 0} (parts : Parts Cx C E Duration Timer W) where
  abbrev pub fate_of :
      Polled (Serving C Duration Timer W) (Unit {0})
      → (Serving C Duration Timer W → Fate (Serving C Duration Timer W))
      → Fate (Serving C Duration Timer W)
  fate_of panics rest = panicked
  fate_of (waits t) rest = rest t
  fate_of (completes u t) rest = returned t

  -- With the locals as they are when the function returns.
  unfoldable pub fate :
      List (Drawn parts) → Serving C Duration Timer W → Fate (Serving C Duration Timer W)
  fate [] s = goes_on s
  fate ((cx, draws) ∷ polls) s = fate_of (poll_serving parts draws s cx) (fate polls)

module _ {Cx C E Duration Timer W : Type 0} (parts : Parts Cx C E Duration Timer W)
    (taken answered : C → ℕ) (Failed : C → Type 0) where
  -- hyper's side: the numbers of requests that a connection has taken and of those that it has answered
  -- only grow. A graceful shutdown leaves them as they are. A connection that ends without an error has
  -- answered each.
  abbrev pub Ended : Result E (Unit {0}) → C → Type 0
  Ended (ok u) c = answered c ≡ taken c
  Ended (err e) c = Failed c

  pub record Answers : Type 0 where
    pub on_poll :
        (c : C) (cx : Cx)
        → Round Unit
            (λ c'. (taken c ≤ taken c') × (answered c ≤ answered c'))
            (λ r c'. (taken c ≤ taken c') × Ended r c')
            (parts.connection.poll c cx)
    pub on_shutdown :
        (c : C)
        → (taken (parts.graceful_shutdown c) ≡ taken c)
          × (answered (parts.graceful_shutdown c) ≡ answered c)

  -- So many requests have been taken and so many answered, at least.
  abbrev Past : ℕ → ℕ → Serving C Duration Timer W → Type 0
  Past m n s = (m ≤ taken s.conn) × (n ≤ answered s.conn)

  abbrev Done : ℕ → Serving C Duration Timer W → Type 0
  Done m t = Failed t.conn ⊎ ((m ≤ taken t.conn) × (answered t.conn ≡ taken t.conn))

  abbrev AfterFired : ℕ → ℕ → Fired E → Serving C Duration Timer W → Type 0
  AfterFired m n (conn_ended r) t = Done m t
  AfterFired m n age_reached t = Past m n t
  AfterFired m n signal_received t = Past m n t

  module _ (answers : Answers) where
    branch-Past :
        (m n : ℕ) (cx : Cx) (b : Branch) (s : Serving C Duration Timer W)
        → Past m n s
        → Round Unit (Past m n) (AfterFired m n) (poll_branch parts b s cx)
    unfolding poll_branch
    branch-Past m n cx conn_branch s h =
        go (parts.connection.poll s.conn cx) (answers.on_poll s.conn cx)
      where
        go :
            (r : Polled C (Result E (Unit {0})))
            → Round Unit
                (λ c'. (taken s.conn ≤ taken c') × (answered s.conn ≤ answered c'))
                (λ q c'. (taken s.conn ≤ taken c') × Ended q c')
                r
            → Round Unit
                (Past m n)
                (AfterFired m n)
                (map_polled (λ c. record s { conn = c }) conn_ended r)
        go panics k = tt
        go (waits c) k = (omega (arith, h.0, k.0), omega (arith, h.1, k.1))
        go (completes (ok u) c) (k, e) = inr (omega (arith, h.0, k), e)
        go (completes (err e) c) (k, f) = inl f
    branch-Past m n cx sleep_branch s h = go (poll_sleep parts s.sleep cx)
      where
        go :
            (r : Polled _ (Unit {0}))
            → Round Unit
                (Past m n)
                (AfterFired m n)
                (map_polled (λ z. record s { sleep = z }) (λ _. age_reached) r)
        go panics = tt
        go (waits z) = h
        go (completes u z) = h
    branch-Past m n cx sig_branch s h = go (poll_fuse parts.changed s.sig cx)
      where
        go :
            (r : Polled _ (Unit {0}))
            → Round Unit
                (Past m n)
                (AfterFired m n)
                (map_polled (λ g. record s { sig = g }) (λ _. signal_received) r)
        go panics = tt
        go (waits g) = h
        go (completes u g) = h

    asked :
        (m n : ℕ) (t : Serving C Duration Timer W)
        → Past m n t
        → (m ≤ taken (parts.graceful_shutdown t.conn))
          × (n ≤ answered (parts.graceful_shutdown t.conn))
    asked m n t h =
        let (e, f) = answers.on_shutdown t.conn in (omega (arith, h.0, e), omega (arith, h.1, f))

    poll_serving-Past :
        (m n : ℕ) (draws : ℕ → List Branch) (s : Serving C Duration Timer W) (cx : Cx)
        → Past m n s
        → Round Unit (Past m n) (λ u t. Done m t) (poll_serving parts draws s cx)
    unfolding age_handler sig_handler
    poll_serving-Past m n draws s cx h =
        ended (poll_serving parts draws s cx)
          (poll_serving-Ends parts Unit (Past m n) (Done m) (AfterFired m n) (λ r t q. q)
            (asked m n) (asked m n) cx (branch-Past m n cx) draws s h).1
      where
        ended :
            (r : Polled (Serving C Duration Timer W) (Unit {0}))
            → Ends parts Unit cx (λ k t. (armed t ≤ k) × Past m n t) (Done m) r
            → Round Unit (Past m n) (λ u t. Done m t) r
        ended panics k = tt
        ended (waits t) k = k.1.1
        ended (completes u t) k = k

    abbrev Fated : ℕ → ℕ → Fate (Serving C Duration Timer W) → Type 0
    Fated m n panicked = Unit
    Fated m n (goes_on t) = Past m n t
    Fated m n (returned t) = Done m t

    fate-Fated :
        (m n : ℕ) (polls : List (Drawn parts)) (s : Serving C Duration Timer W)
        → Past m n s
        → Fated m n (fate parts polls s)
    unfolding fate
    fate-Fated m n [] s h = h
    fate-Fated m n ((cx, draws) ∷ polls) s h =
        go (poll_serving parts draws s cx) (poll_serving-Past m n draws s cx h)
          (fate-Fated m n polls)
      where
        go :
            (r : Polled (Serving C Duration Timer W) (Unit {0}))
            → Round Unit (Past m n) (λ u t. Done m t) r
            → ((t : Serving C Duration Timer W) → Past m n t → Fated m n (fate parts polls t))
            → Fated m n (fate_of parts r (fate parts polls))
        go panics k next = tt
        go (waits t) k next = next t k
        go (completes u t) k next = k

    -- If hyper answers each request that a connection has taken before the connection ends without an
    -- error, also after a graceful shutdown: whenever the age and the signal ask the connection to shut
    -- down, and in whatever order the branches are polled, when `serve_http_connection` returns the
    -- connection has failed, or each request is answered that it had taken before the polls or took in
    -- them. While it has not returned, no request that was taken or answered is lost.
    pub requests_are_answered :
        (polls : List (Drawn parts)) (s t : Serving C Duration Timer W)
        → ((fate parts polls s ≡ returned t)
            → Failed t.conn ⊎ ((taken s.conn ≤ taken t.conn) × (answered t.conn ≡ taken t.conn)))
          × ((fate parts polls s ≡ goes_on t)
              → (taken s.conn ≤ taken t.conn) × (answered s.conn ≤ answered t.conn))
    requests_are_answered polls s t = (λ e. subst fated e held, λ e. subst fated e held)
      where
        fated : Fate (Serving C Duration Timer W) → Type 0
        fated = Fated (taken s.conn) (answered s.conn)

        held : Fated (taken s.conn) (answered s.conn) (fate parts polls s)
        held = fate-Fated (taken s.conn) (answered s.conn) polls s (omega arith, omega arith)
