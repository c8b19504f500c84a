-- ===== src/Connection/Shutdowns.antt =====
-- How often `serve_http_connection` asks for a graceful shutdown (src/http.rs).
use hyper_server.Prelude.{ℕ, ◌+◌, ◌≤◌, ◌≡◌, refl, some, List, Result, arith}
use hyper_server.Future.{Polled, panics, waits, completes, map_polled}
use hyper_server.Fuse.{poll_fuse}
use hyper_server.Connection.Select.{Round, Round-map, Round-zip, Ends}
use hyper_server.Connection.Rounds.{armed, Spent, poll_branch-Spends, poll_serving-Ends}
use hyper_server.Connection.{
  Branch, conn_branch, sleep_branch, sig_branch, Fired, conn_ended, age_reached, signal_received,
  Serving, Parts, poll_sleep, poll_branch, age_handler, sig_handler, run_loop, poll_serving,
}

module _ {Cx C E Duration Timer W : Type 0} (parts : Parts Cx C E Duration Timer W) where
  Round-trivial :
      (r : Polled (Serving C Duration Timer W) (Fired E))
      → Round Unit (λ _. Unit {0}) (λ _ _. Unit {0}) r
  Round-trivial panics = tt
  Round-trivial (waits t) = tt
  Round-trivial (completes f t) = tt

  -- Three rounds of `select!` are enough for one poll, whatever the connection, the timer and the
  -- signal do: the loop does not run out of fuel.
  pub run_loop_suffices :
      (draws : ℕ → List Branch) (s : Serving C Duration Timer W) (cx : Cx)
      → run_loop parts 3 draws s cx ≡ some (poll_serving parts draws s cx)
  run_loop_suffices draws s cx =
      (poll_serving-Ends parts Unit (λ _. Unit) (λ _. Unit) (λ _ _. Unit) (λ r t q. tt) (λ t q. tt)
        (λ t q. tt) cx (λ b t h. Round-trivial (poll_branch parts b t cx)) draws s tt).0

  module _ (asked : C → ℕ) where
    -- A poll of the connection leaves the count alone.
    abbrev pub KeptBy : C → Polled C (Result E (Unit {0})) → Type 0
    KeptBy c = Round Unit (λ c'. asked c' ≡ asked c) (λ r c'. asked c' ≡ asked c)

    -- `asked` counts the requests for a graceful shutdown that a connection has had.
    pub record Counts : Type 0 where
      pub on_poll : (c : C) (cx : Cx) → KeptBy c (parts.connection.poll c cx)
      pub on_shutdown : (c : C) → asked (parts.graceful_shutdown c) ≡ asked c + 1

    module _ (counts : Counts) where
      abbrev SameCount :
          Serving C Duration Timer W → Polled (Serving C Duration Timer W) (Fired E) → Type 0
      SameCount s =
          Round Unit (λ t. asked t.conn ≡ asked s.conn) (λ _ t. asked t.conn ≡ asked s.conn)

      poll_branch-SameCount :
          (b : Branch) (s : Serving C Duration Timer W) (cx : Cx)
          → SameCount s (poll_branch parts b s cx)
      unfolding poll_branch
      poll_branch-SameCount conn_branch s cx =
          go (parts.connection.poll s.conn cx) (counts.on_poll s.conn cx)
        where
          go :
              (r : Polled C (Result E (Unit {0})))
              → KeptBy s.conn r
              → SameCount s (map_polled (λ c. record s { conn = c }) conn_ended r)
          go panics h = tt
          go (waits c) h = h
          go (completes r c) h = h
      poll_branch-SameCount sleep_branch s cx = go (poll_sleep parts s.sleep cx)
        where
          go :
              (r : Polled _ (Unit {0}))
              → SameCount s (map_polled (λ z. record s { sleep = z }) (λ _. age_reached) r)
          go panics = tt
          go (waits z) = refl
          go (completes a z) = refl
      poll_branch-SameCount sig_branch s cx = go (poll_fuse parts.changed s.sig cx)
        where
          go :
              (r : Polled _ (Unit {0}))
              → SameCount s (map_polled (λ g. record s { sig = g }) (λ _. signal_received) r)
          go panics = tt
          go (waits g) = refl
          go (completes a g) = refl

      -- Requests made and sources left, in all.
      abbrev pub budget : Serving C Duration Timer W → ℕ
      budget s = asked s.conn + armed s

      abbrev Owes : ℕ → Fired E → Serving C Duration Timer W → Type 0
      Owes k (conn_ended r) t = budget t ≡ k
      Owes k age_reached t = asked t.conn + armed (age_handler parts t) + 1 ≡ k
      Owes k signal_received t = asked t.conn + armed (sig_handler parts t) + 1 ≡ k

      owes :
          (k : ℕ) (s : Serving C Duration Timer W) (f : Fired E) (t : Serving C Duration Timer W)
          → budget s ≡ k
          → Spent parts s f t
          → asked t.conn ≡ asked s.conn
          → Owes k f t
      owes k s (conn_ended r) t h p q = omega arith
      owes k s age_reached t h p q = omega arith
      owes k s signal_received t h p q = omega arith

      -- After a poll, on every outcome.
      abbrev pub Balanced : ℕ → Polled (Serving C Duration Timer W) (Unit {0}) → Type 0
      Balanced k = Round Unit (λ t. budget t ≡ k) (λ _ t. budget t ≡ k)

      -- On every outcome of a poll but a panic: the requests for a graceful shutdown that the connection
      -- has had, and those of the age timer and the signal that have not fired, are together as many as
      -- before the poll. The condition is that hyper's connection is asked by nobody else.
      pub poll_serving-Balanced :
          (draws : ℕ → List Branch) (s : Serving C Duration Timer W) (cx : Cx)
          → Balanced (budget s) (poll_serving parts draws s cx)
      unfolding age_handler sig_handler
      poll_serving-Balanced draws s cx =
          ended (poll_serving parts draws s cx)
            (poll_serving-Ends parts Unit In In (Owes k) (λ r t q. q)
              (λ t q. omega (arith, q, counts.on_shutdown t.conn))
              (λ t q. omega (arith, q, counts.on_shutdown t.conn)) cx branch draws s refl).1
        where
          k : ℕ
          k = budget s

          In : Serving C Duration Timer W → Type 0
          In t = budget t ≡ k

          branch :
              (b : Branch) (t : Serving C Duration Timer W)
              → In t
              → Round Unit In (Owes k) (poll_branch parts b t cx)
          branch b t h =
              Round-map (λ u. (armed u ≡ armed t) × (asked u.conn ≡ asked t.conn)) In
                (λ f u. Spent parts t f u × (asked u.conn ≡ asked t.conn)) (Owes k)
                (poll_branch parts b t cx) (λ _. tt) (λ u q. omega arith)
                (λ f u q. owes k t f u h q.0 q.1)
                (Round-zip Unit Unit (λ u. armed u ≡ armed t) (λ u. asked u.conn ≡ asked t.conn)
                  (Spent parts t) (λ _ u. asked u.conn ≡ asked t.conn) (poll_branch parts b t cx)
                  (poll_branch-Spends parts b t cx) (poll_branch-SameCount b t cx))

          ended :
              (r : Polled (Serving C Duration Timer W) (Unit {0}))
              → Ends parts Unit cx (λ n t. (armed t ≤ n) × In t) In r
              → Balanced k r
          ended panics h = tt
          ended (waits t) h = h.1.1
          ended (completes a t) h = h
