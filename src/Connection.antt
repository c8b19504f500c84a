-- ===== src/Connection.antt =====
-- src/http.rs: `sleep_or_pending` and `serve_http_connection`, the life of one HTTP connection.
pub mod Select
pub mod Rounds
pub mod Listed
pub mod Shutdowns
pub mod Safety
pub mod Signal
pub mod Closing
pub mod ServedOut
pub mod Aging
pub mod Requests
pub mod Heeding
use mathlib.Core.Option
use hyper_server.Prelude.{ℕ, zero, suc, Option, none, some, List, [], ◌∷◌, Result}
use hyper_server.Future.{Future, Polled, panics, waits, completes, map_polled}
use hyper_server.Fuse.{Fuse, poll_fuse}

-- The future of `sleep_or_pending`, by where it stands: not polled yet, in the `.await` of a timer or
-- of `pending()`, or returned.
pub data SleepOrPending {ℓ κ} (Duration : Type ℓ) (Timer : Type κ) : Type (ℓ ⊔ κ) where
  created : Option Duration → SleepOrPending Duration Timer
  sleeping : Timer → SleepOrPending Duration Timer
  pending_for_ever : SleepOrPending Duration Timer
  returned : SleepOrPending Duration Timer

abbrev pub sleep_or_pending {ℓ κ} :
    {Duration : Type ℓ} {Timer : Type κ} → Option Duration → SleepOrPending Duration Timer
sleep_or_pending wait_for = created wait_for

-- The branches of `select!`, and what the one that completes brings.
pub data Branch : Type 0 where
  conn_branch sleep_branch sig_branch : Branch

pub data Fired {ℓ} (E : Type ℓ) : Type ℓ where
  conn_ended : Result E (Unit {0}) → Fired E
  age_reached : Fired E
  signal_received : Fired E

-- The local variables of `serve_http_connection`.
pub record Serving (C Duration Timer W : Type 0) : Type 0 where
  pub conn : C
  pub sleep : SleepOrPending Duration Timer
  pub sig : Fuse W

-- The code that is not here: hyper's connection and its `graceful_shutdown`, tokio's `sleep` and
-- timer, and the future of `watch::Receiver::changed`.
pub record Parts (Cx C E Duration Timer W : Type 0) : Type 0 where
  pub connection : Future Cx C (Result E (Unit {0}))
  pub graceful_shutdown : C → C
  pub start_sleep : Duration → Cx → Timer
  pub timer : Future Cx Timer (Unit {0})
  pub changed : Future Cx W (Unit {0})

module _ {Cx C E Duration Timer W : Type 0} (parts : Parts Cx C E Duration Timer W) where
  after_timer : Polled Timer (Unit {0}) → Polled (SleepOrPending Duration Timer) (Unit {0})
  after_timer panics = panics
  after_timer (waits t) = waits (sleeping t)
  after_timer (completes a t) = completes tt returned

  -- A poll of `sleep_or_pending`. The timer starts at the first poll; an `async fn` that has returned
  -- panics when it is polled again.
  unfoldable pub poll_sleep :
      SleepOrPending Duration Timer → Cx → Polled (SleepOrPending Duration Timer) (Unit {0})
  unfolding after_timer
  poll_sleep (created (some wait)) cx =
      after_timer (parts.timer.poll (parts.start_sleep wait cx) cx)
  poll_sleep (created none) cx = waits pending_for_ever
  poll_sleep (sleeping t) cx = after_timer (parts.timer.poll t cx)
  poll_sleep pending_for_ever cx = waits pending_for_ever
  poll_sleep returned cx = panics

  unfoldable pub poll_branch :
      Branch → Serving C Duration Timer W → Cx → Polled (Serving C Duration Timer W) (Fired E)
  poll_branch conn_branch s cx =
      map_polled (λ c. record s { conn = c }) conn_ended (parts.connection.poll s.conn cx)
  poll_branch sleep_branch s cx =
      map_polled (λ z. record s { sleep = z }) (λ _. age_reached) (poll_sleep s.sleep cx)
  poll_branch sig_branch s cx =
      map_polled (λ g. record s { sig = g }) (λ _. signal_received)
        (poll_fuse parts.changed s.sig cx)

  -- `tokio::select!`: the branches are polled in the order that it draws, until one completes.
  unfoldable pub select :
      List Branch → Serving C Duration Timer W → Cx → Polled (Serving C Duration Timer W) (Fired E)
  select [] s cx = waits s
  select (b ∷ bs) s cx = elim (poll_branch b s cx) [
    | panics ↦ panics
    | waits s' ↦ select bs s' cx
    | completes fired s' ↦ completes fired s'
  ]

  -- The handlers of the branches that do not leave the loop.
  unfoldable pub age_handler : Serving C Duration Timer W → Serving C Duration Timer W
  age_handler s = record s { conn = parts.graceful_shutdown s.conn; sleep = sleep_or_pending none }

  unfoldable pub sig_handler : Serving C Duration Timer W → Serving C Duration Timer W
  sig_handler s = record s { conn = parts.graceful_shutdown s.conn }

  -- The loop, for one poll of the function's future: `draws` gives the order of each round of
  -- `select!`. `none` if the fuel does not suffice.
  unfoldable pub run_loop :
      ℕ
      → (ℕ → List Branch)
      → Serving C Duration Timer W
      → Cx
      → Option (Polled (Serving C Duration Timer W) (Unit {0}))
  run_loop zero draws s cx = none
  run_loop (suc fuel) draws s cx = elim (select (draws fuel) s cx) [
    | panics ↦ some panics
    | waits s' ↦ some (waits s')
    | completes (conn_ended result) s' ↦ some (completes tt s')
    | completes age_reached s' ↦ run_loop fuel draws (age_handler s') cx
    | completes signal_received s' ↦ run_loop fuel draws (sig_handler s') cx
  ]

  -- One poll of `serve_http_connection`: three rounds are enough, so the last case does not arise.
  unfoldable pub poll_serving :
      (ℕ → List Branch)
      → Serving C Duration Timer W
      → Cx
      → Polled (Serving C Duration Timer W) (Unit {0})
  poll_serving draws s cx = elim (run_loop 3 draws s cx) [ some r ↦ r | none ↦ panics ]

-- The locals before the loop: `changed_of` is `|w| w.changed()`.
unfoldable pub start_serving :
    {C Duration Timer W R : Type 0}
    → (R → W)
    → C
    → Option R
    → Option Duration
    → Serving C Duration Timer W
start_serving changed_of conn watcher max_connection_age = record {
  conn = conn;
  sleep = sleep_or_pending max_connection_age;
  sig = record { inner = Option.map changed_of watcher };
}
