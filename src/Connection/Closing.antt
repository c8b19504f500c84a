-- ===== src/Connection/Closing.antt =====
-- A connection that has been asked to shut down, in `serve_http_connection` (src/http.rs).
use hyper_server.Prelude.{ℕ, ◌+◌, ◌≤◌, ◌<◌, List, Result, arith}
use hyper_server.Future.{Polled, panics, waits, completes, map_polled}
use hyper_server.Fuse.{poll_fuse}
use hyper_server.Connection.Select.{Round}
use hyper_server.Connection.Listed.{Listed, poll_serving-Listed}
use hyper_server.Connection.{
  Branch, conn_branch, sleep_branch, sig_branch, Fired, conn_ended, age_reached, signal_received,
  Serving, Parts, poll_sleep, poll_branch, age_handler, sig_handler, poll_serving,
}

module _ {Cx C E Duration Timer W : Type 0} (parts : Parts Cx C E Duration Timer W)
    (Closing : C → Type 0) (left : C → ℕ) where
  -- hyper's side of a graceful shutdown: a connection that is asked is closing and stays so, each of its
  -- polls that is not ready leaves fewer to come, and to ask once more puts nothing off.
  pub record Closes : Type 0 where
    pub on_poll :
        (c : C) (cx : Cx)
        → Closing c
        → Round Unit
            (λ c'. Closing c' × (left c' < left c))
            (λ _ _. Unit {0})
            (parts.connection.poll c cx)
    pub on_shutdown : (c : C) → Closing (parts.graceful_shutdown c)
    pub on_again : (c : C) → Closing c → left (parts.graceful_shutdown c) ≤ left c

  abbrev pub Near : ℕ → Serving C Duration Timer W → Type 0
  Near n s = Closing s.conn × (left s.conn < n)

  -- With a poll of the connection, or without one.
  abbrev Fires : ℕ → Fired E → Serving C Duration Timer W → Type 0
  Fires n (conn_ended r) t = Unit
  Fires n age_reached t = Near n t
  Fires n signal_received t = Near n t

  abbrev Stepped : ℕ → ℕ → Polled (Serving C Duration Timer W) (Fired E) → Type 0
  Stepped m n = Round Unit (Near m) (Fires n)

  module _ (closes : Closes) (cx : Cx) where
    conn_branch-Stepped :
        (n : ℕ) (s : Serving C Duration Timer W)
        → Near (n + 1) s
        → Stepped n (n + 1) (poll_branch parts conn_branch s cx)
    unfolding poll_branch
    conn_branch-Stepped n s h = go (parts.connection.poll s.conn cx) (closes.on_poll s.conn cx h.0)
      where
        go :
            (r : Polled C (Result E (Unit {0})))
            → Round Unit (λ c'. Closing c' × (left c' < left s.conn)) (λ _ _. Unit {0}) r
            → Stepped n (n + 1) (map_polled (λ c. record s { conn = c }) conn_ended r)
        go panics k = tt
        go (waits c) k = (k.0, omega (arith, h.1, k.1))
        go (completes r c) k = tt

    -- Any branch, with `m` polls left before it.
    branch-Stepped :
        (m n : ℕ) (b : Branch) (s : Serving C Duration Timer W)
        → m ≤ n
        → Near m s
        → Stepped m n (poll_branch parts b s cx)
    unfolding poll_branch
    branch-Stepped m n conn_branch s le h =
        go (parts.connection.poll s.conn cx) (closes.on_poll s.conn cx h.0)
      where
        go :
            (r : Polled C (Result E (Unit {0})))
            → Round Unit (λ c'. Closing c' × (left c' < left s.conn)) (λ _ _. Unit {0}) r
            → Stepped m n (map_polled (λ c. record s { conn = c }) conn_ended r)
        go panics k = tt
        go (waits c) k = (k.0, omega (arith, h.1, k.1))
        go (completes r c) k = tt
    branch-Stepped m n sleep_branch s le h = go (poll_sleep parts s.sleep cx)
      where
        go :
            (r : Polled _ (Unit {0}))
            → Stepped m n (map_polled (λ z. record s { sleep = z }) (λ _. age_reached) r)
        go panics = tt
        go (waits z) = h
        go (completes a z) = (h.0, omega (arith, h.1, le))
    branch-Stepped m n sig_branch s le h = go (poll_fuse parts.changed s.sig cx)
      where
        go :
            (r : Polled _ (Unit {0}))
            → Stepped m n (map_polled (λ g. record s { sig = g }) (λ _. signal_received) r)
        go panics = tt
        go (waits g) = h
        go (completes a g) = (h.0, omega (arith, h.1, le))

    asked :
        (n : ℕ) (t : Serving C Duration Timer W)
        → Near n t
        → Closing (parts.graceful_shutdown t.conn) × (left (parts.graceful_shutdown t.conn) < n)
    asked n t k = (closes.on_shutdown t.conn, omega (arith, closes.on_again t.conn k.0, k.1))

    pub poll_serving-Rested :
        (n : ℕ) (draws : ℕ → List Branch) (s : Serving C Duration Timer W)
        → ((i : ℕ) → Listed conn_branch (draws i))
        → Near (n + 1) s
        → Round Unit (Near n) (λ _ _. Unit {0}) (poll_serving parts draws s cx)
    unfolding age_handler sig_handler
    poll_serving-Rested n =
        poll_serving-Listed parts cx conn_branch (Near (n + 1)) (Near n) (Fires (n + 1))
          (conn_branch-Stepped n) (λ b s. branch-Stepped (n + 1) (n + 1) b s (omega arith))
          (λ b s. branch-Stepped n (n + 1) b s (omega arith)) (asked (n + 1)) (asked (n + 1))
