-- ===== src/Connection/Rounds.antt =====
-- What the rounds of `select!` in `serve_http_connection` add up to (src/http.rs).
use mathlib.Core.Path.{subst}
use hyper_server.Prelude.{
  ℕ, zero, suc, ◌+◌, ◌≤◌, ◌≡◌, refl, sym, ap, ◌∙◌, Option, none, some, List, Result, arith,
}
use hyper_server.Future.{Polled, panics, waits, completes, map_polled}
use hyper_server.Fuse.{Fuse, settle, poll_fuse}
use hyper_server.Connection.Select.{Round, Round-map, Round-zip, Goes, Ends, run_loop-Ends}
use hyper_server.Connection.{
  SleepOrPending, created, sleeping, pending_for_ever, returned, Branch, conn_branch, sleep_branch,
  sig_branch, Fired, conn_ended, age_reached, signal_received, Serving, Parts, after_timer,
  poll_sleep, poll_branch, age_handler, sig_handler, run_loop, poll_serving,
}

-- The sources of a graceful shutdown that have not been used up: the age timer and the signal.
abbrev pub sleep_armed {ℓ κ} :
    {Duration : Type ℓ} {Timer : Type κ} → SleepOrPending Duration Timer → ℕ
sleep_armed (created (some wait)) = 1
sleep_armed (sleeping t) = 1
sleep_armed _ = 0

abbrev pub sig_armed {ℓ} : {W : Type ℓ} → Fuse W → ℕ
sig_armed sig = elim sig.inner [ some w ↦ 1 | none ↦ 0 ]

module _ {C Duration Timer W : Type 0} where
  abbrev pub armed : Serving C Duration Timer W → ℕ
  armed s = sleep_armed s.sleep + sig_armed s.sig

  armed-le : (s : Serving C Duration Timer W) → armed s ≤ 2
  armed-le s = go s.sleep s.sig.inner
    where
      go :
          (z : SleepOrPending Duration Timer) (o : Option W)
          → sleep_armed z + sig_armed (record { inner = o }) ≤ 2
      go (created (some wait)) o = ground arith
      go z o = ground arith

module _ {Cx C E Duration Timer W : Type 0} (parts : Parts Cx C E Duration Timer W) where
  -- A branch that fires leaves one source fewer behind its handler.
  abbrev pub Spent : Serving C Duration Timer W → Fired E → Serving C Duration Timer W → Type 0
  Spent s (conn_ended r) t = armed t ≡ armed s
  Spent s age_reached t = armed (age_handler parts t) + 1 ≡ armed s
  Spent s signal_received t = armed (sig_handler parts t) + 1 ≡ armed s

  abbrev pub Spends :
      Serving C Duration Timer W → Polled (Serving C Duration Timer W) (Fired E) → Type 0
  Spends s = Round Unit (λ t. armed t ≡ armed s) (Spent s)

  conn_branch-Spends :
      (s : Serving C Duration Timer W) (cx : Cx) → Spends s (poll_branch parts conn_branch s cx)
  unfolding poll_branch
  conn_branch-Spends s cx = go (parts.connection.poll s.conn cx)
    where
      go :
          (r : Polled C (Result E (Unit {0})))
          → Spends s (map_polled (λ c. record s { conn = c }) conn_ended r)
      go panics = tt
      go (waits c) = refl
      go (completes r c) = refl

  sleep_branch-Spends :
      (s : Serving C Duration Timer W) (cx : Cx) → Spends s (poll_branch parts sleep_branch s cx)
  unfolding poll_branch poll_sleep age_handler
  sleep_branch-Spends s cx = go s.sleep
    where
      timed :
          (r : Polled Timer (Unit {0})) (before : SleepOrPending Duration Timer)
          → sleep_armed before ≡ 1
          → Spends
              (record s { sleep = before })
              (map_polled (λ z. record s { sleep = z }) (λ _. age_reached) (after_timer parts r))
      timed panics before h = tt
      timed (waits t) before h = omega arith
      timed (completes a t) before h = omega arith

      go :
          (z : SleepOrPending Duration Timer)
          → Spends
              (record s { sleep = z })
              (poll_branch parts sleep_branch (record s { sleep = z }) cx)
      go (created (some wait)) =
          timed (parts.timer.poll (parts.start_sleep wait cx) cx) (created (some wait)) refl
      go (created none) = refl
      go (sleeping t) = timed (parts.timer.poll t cx) (sleeping t) refl
      go pending_for_ever = refl
      go returned = tt

  sig_branch-Spends :
      (s : Serving C Duration Timer W) (cx : Cx) → Spends s (poll_branch parts sig_branch s cx)
  unfolding poll_branch poll_fuse sig_handler
  sig_branch-Spends s cx = go s.sig.inner
    where
      watched :
          (r : Polled W (Unit {0})) (w : W)
          → Spends
              (record s { sig = record { inner = some w } })
              (map_polled (λ g. record s { sig = g }) (λ _. signal_received) (settle r))
      watched panics w = tt
      watched (waits w') w = refl
      watched (completes a w') w = omega arith

      go :
          (o : Option W)
          → Spends
              (record s { sig = record { inner = o } })
              (poll_branch parts sig_branch (record s { sig = record { inner = o } }) cx)
      go (some w) = watched (parts.changed.poll w cx) w
      go none = refl

  pub poll_branch-Spends :
      (b : Branch) (s : Serving C Duration Timer W) (cx : Cx) → Spends s (poll_branch parts b s cx)
  poll_branch-Spends conn_branch s cx = conn_branch-Spends s cx
  poll_branch-Spends sleep_branch s cx = sleep_branch-Spends s cx
  poll_branch-Spends sig_branch s cx = sig_branch-Spends s cx

  -- A property of states that the branches keep is kept by the whole poll.
  module _ (Crash : Type 0) (I Done : Serving C Duration Timer W → Type 0)
      (Q : Fired E → Serving C Duration Timer W → Type 0)
      (leaves : (r : Result E (Unit {0})) (t : Serving C Duration Timer W)
        → Q (conn_ended r) t
        → Done t)
      (ages : (t : Serving C Duration Timer W) → Q age_reached t → I (age_handler parts t))
      (hears : (t : Serving C Duration Timer W) → Q signal_received t → I (sig_handler parts t))
      (cx : Cx)
      (branch : (b : Branch) (s : Serving C Duration Timer W)
        → I s
        → Round Crash I Q (poll_branch parts b s cx)) where
    abbrev pub Within : ℕ → Serving C Duration Timer W → Type 0
    Within n t = (armed t ≤ n) × I t

    fired-Goes :
        (n : ℕ) (s : Serving C Duration Timer W) (f : Fired E) (t : Serving C Duration Timer W)
        → armed s ≤ n
        → Spent s f t
        → Q f t
        → Goes parts Crash cx Within Done n f t
    fired-Goes n s (conn_ended r) t h k q = leaves r t q
    fired-Goes zero s age_reached t h k q = absurd (omega arith)
    fired-Goes zero s signal_received t h k q = absurd (omega arith)
    fired-Goes (suc n) s age_reached t h k q = (omega arith, ages t q)
    fired-Goes (suc n) s signal_received t h k q = (omega arith, hears t q)

    branch-Within :
        (n : ℕ) (b : Branch) (s : Serving C Duration Timer W)
        → Within n s
        → Round Crash (Within n) (Goes parts Crash cx Within Done n) (poll_branch parts b s cx)
    branch-Within n b s h =
        Round-map (λ t. (armed t ≡ armed s) × I t) (Within n) (λ f t. Spent s f t × Q f t)
          (Goes parts Crash cx Within Done n) (poll_branch parts b s cx) (λ c. c.1)
          (λ t k. (omega arith, k.1)) (λ f t k. fired-Goes n s f t h.0 k.0 k.1)
          (Round-zip Unit Crash (λ t. armed t ≡ armed s) I (Spent s) Q (poll_branch parts b s cx)
            (poll_branch-Spends b s cx) (branch b s h.1))

    -- Three rounds are enough, whatever is drawn.
    pub poll_serving-Ends :
        (draws : ℕ → List Branch) (s : Serving C Duration Timer W)
        → I s
        → (run_loop parts 3 draws s cx ≡ some (poll_serving parts draws s cx))
          × Ends parts Crash cx Within Done (poll_serving parts draws s cx)
    unfolding poll_serving
    poll_serving-Ends draws s h =
        let (r, e, b) =
          run_loop-Ends parts Crash cx Within Done branch-Within 2 draws s (armed-le s, h) in
        let polled : poll_serving parts draws s cx ≡ r = rw (e, poll_serving) in
        (e ∙ ap some (sym polled), subst (Ends parts Crash cx Within Done) (sym polled) b)
