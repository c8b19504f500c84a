-- ===== src/Connection/Signal.antt =====
-- A shutdown signal that has been sent, at the next poll of a connection (src/http.rs).
use mathlib.Core.Path.{subst}
use hyper_server.Prelude.{ℕ, ◌+◌, ◌≡◌, refl, Option, none, some, List, Result, arith}
use hyper_server.Future.{Polled, panics, waits, completes, map_polled}
use hyper_server.Fuse.{settle, poll_fuse}
use hyper_server.Connection.Select.{Round}
use hyper_server.Connection.Listed.{Listed, poll_serving-Listed}
use hyper_server.Connection.Rounds.{sleep_armed, sig_armed}
use hyper_server.Connection.Shutdowns.{Counts, budget, Balanced, poll_serving-Balanced}
use hyper_server.Connection.{
  SleepOrPending, Branch, conn_branch, sleep_branch, sig_branch, Fired, conn_ended, age_reached,
  signal_received, Serving, Parts, poll_sleep, poll_branch, poll_serving,
}

module _ {Cx C E Duration Timer W : Type 0} (parts : Parts Cx C E Duration Timer W) (cx : Cx) where
  -- At this moment every receiver has a change to report.
  abbrev pub Delivered : Type 0
  Delivered = (w : W) → (w' : W) × (parts.changed.poll w cx ≡ completes tt w')

  abbrev pub Quiet : Serving C Duration Timer W → Type 0
  Quiet t = t.sig.inner ≡ none

  -- If it waits, the signal has been taken.
  abbrev pub Rests : {A : Type 0} → Polled (Serving C Duration Timer W) A → Type 0
  Rests = Round Unit Quiet (λ _ _. Unit {0})

  branch-Quiet :
      (b : Branch) (s : Serving C Duration Timer W) → Quiet s → Rests (poll_branch parts b s cx)
  unfolding poll_branch poll_fuse
  branch-Quiet conn_branch s q = go (parts.connection.poll s.conn cx)
    where
      go :
          (r : Polled C (Result E (Unit {0})))
          → Rests (map_polled {B = Fired E} (λ c. record s { conn = c }) conn_ended r)
      go panics = tt
      go (waits c) = q
      go (completes r c) = tt
  branch-Quiet sleep_branch s q = go (poll_sleep parts s.sleep cx)
    where
      go :
          (r : Polled (SleepOrPending Duration Timer) (Unit {0}))
          → Rests (map_polled {B = Fired E} (λ z. record s { sleep = z }) (λ _. age_reached) r)
      go panics = tt
      go (waits z) = q
      go (completes a z) = tt
  branch-Quiet sig_branch s q = go s.sig.inner q
    where
      go :
          (o : Option W)
          → o ≡ none
          → Rests (
              map_polled {B = Fired E}
                (λ g. record s { sig = g })
                (λ _. signal_received)
                (poll_fuse parts.changed (record { inner = o }) cx))
      go none e = refl
      go (some w) e = cc

  module _ (delivered : Delivered) where
    sig_branch-Rests : (s : Serving C Duration Timer W) → Rests (poll_branch parts sig_branch s cx)
    unfolding poll_branch poll_fuse
    sig_branch-Rests s = go s.sig.inner
      where
        go :
            (o : Option W)
            → Rests (
                map_polled {B = Fired E}
                  (λ g. record s { sig = g })
                  (λ _. signal_received)
                  (poll_fuse parts.changed (record { inner = o }) cx))
        go none = refl
        go (some w) = let (w', e) = delivered w in rw (e, poll_fuse, settle) tt

    pub poll_serving-Rests :
        (draws : ℕ → List Branch) (s : Serving C Duration Timer W)
        → ((n : ℕ) → Listed sig_branch (draws n))
        → Rests (poll_serving parts draws s cx)
    poll_serving-Rests draws s among =
        poll_serving-Listed parts cx sig_branch (λ _. Unit) Quiet (λ _ _. Unit)
          (λ t h. sig_branch-Rests t) (λ b t h. any_branch (poll_branch parts b t cx)) branch-Quiet
          (λ t q. tt) (λ t q. tt) draws s among tt
      where
        any_branch :
            (r : Polled (Serving C Duration Timer W) (Fired E))
            → Round Unit (λ _. Unit {0}) (λ _ _. Unit {0}) r
        any_branch panics = tt
        any_branch (waits t) = tt
        any_branch (completes fired t) = tt

    -- A connection that has been polled with the signal's branch among the rest, and waits, has taken the
    -- signal.
    pub signal_is_taken :
        (asked : C → ℕ)
        → Counts parts asked
        → (draws : ℕ → List Branch) (s t : Serving C Duration Timer W)
        → ((n : ℕ) → Listed sig_branch (draws n))
        → poll_serving parts draws s cx ≡ waits t
        → (t.sig.inner ≡ none)
          × (asked t.conn + sleep_armed t.sleep
              ≡ asked s.conn + sleep_armed s.sleep + sig_armed s.sig)
    signal_is_taken asked counts draws s t listed e = (quiet, omega (arith, balanced, spent))
      where
        quiet : Quiet t
        quiet = subst Rests e (poll_serving-Rests draws s listed)

        spent : sig_armed t.sig ≡ 0
        spent = ground (arith, quiet)

        balanced : budget parts asked counts t ≡ budget parts asked counts s
        balanced =
            subst (Balanced parts asked counts (budget parts asked counts s)) e
              (poll_serving-Balanced parts asked counts draws s cx)
