-- ===== src/Server/Covers.antt =====
-- The polls that the tasks of a server may need, and those that they have (src/http.rs).
use hyper_server.Prelude.{
  ℕ, zero, suc, ◌+◌, ◌-◌, ◌≤◌, ◌≡◌, refl, Bool, true, List, [], ◌∷◌, All, arith,
}
use hyper_server.Future.{Polled, panics, waits, completes}
use hyper_server.Connection.Select.{Round}
use hyper_server.Connection.Listed.{Listed}
use hyper_server.Connection.{Branch, conn_branch, sig_branch}
use hyper_server.Task.{Host, Task, spawned, handshaking, serving, finished, poll_task}
use hyper_server.Task.Finishing.{Prompt, HeedsSignal, task_need, poll_task-Within}
use hyper_server.Server.Invariant.{live, total_live}
use hyper_server.Server.Broadcast.{delivered}
use hyper_server.Server.{Server, Turn, main, task, after_task, poll_unfinished, poll_at}

-- Whether a turn's index is this one, as a number.
abbrev pub hits : ℕ → ℕ → ℕ
hits zero zero = 1
hits (suc i) (suc j) = hits i j
hits _ _ = 0

-- How often the task at an index is polled.
abbrev pub polls_of : {host : Host} → ℕ → List (Turn host) → ℕ
polls_of i [] = 0
polls_of i (main first cx ∷ ts) = polls_of i ts
polls_of i (task j draws cx ∷ ts) = hits i j + polls_of i ts

-- Every poll of a task has the branches of the connection and of the signal in its rounds.
abbrev pub IsOpen : {host : Host} → Turn host → Type 0
IsOpen (main first cx) = Unit
IsOpen (task i draws cx) =
    ((n : ℕ) → Listed sig_branch (draws n)) × ((n : ℕ) → Listed conn_branch (draws n))

module _ (host : Host) (Closing : host.Conn → Type 0) (left : host.Conn → ℕ)
    (rounds : host.Handshake → ℕ) (most_left most_rounds : ℕ) where
  open host use {IO, IE, Cx, Signal, watch}

  abbrev pub need_of : Task host → ℕ
  need_of = task_need host Closing left rounds most_left most_rounds

  abbrev pub Heed : Task host → Type 0
  Heed = HeedsSignal host Closing left rounds most_left most_rounds

  -- Each task has as many polls to come as it may need.
  abbrev pub Covers : (ℕ → ℕ) → List (Task host) → Type 0
  Covers polls [] = Unit
  Covers polls (t ∷ ts) = (need_of t ≤ polls 0) × Covers (λ i. polls (suc i)) ts

  Covers-monotone :
      (p q : ℕ → ℕ) (ts : List (Task host)) → ((i : ℕ) → p i ≤ q i) → Covers p ts → Covers q ts
  Covers-monotone p q [] le h = tt
  Covers-monotone p q (t ∷ ts) le h = (
    omega (arith, le 0, h.0),
    Covers-monotone (λ i. p (suc i)) (λ i. q (suc i)) ts (λ i. le (suc i)) h.1,
  )

  pub poll_at-Covers :
      (poll : Task host → Task host × Bool)
      → ((t : Task host) → Heed t → need_of (poll t).0 ≤ need_of t - 1)
      → (j : ℕ) (ts : List (Task host)) (c : ℕ → ℕ) → All Heed ts
      → Covers (λ i. hits i j + c i) ts
      → Covers c (poll_at host poll j ts).0
  unfolding poll_at
  poll_at-Covers poll fewer j [] c heed h = tt
  poll_at-Covers poll fewer zero (t ∷ ts) c heed h =
      (omega (arith, fewer t heed.0, h.0), Covers-monotone _ _ ts (λ i. omega arith) h.1)
  poll_at-Covers poll fewer (suc j) (t ∷ ts) c heed h =
      (omega (arith, h.0), poll_at-Covers poll fewer j ts (λ i. c (suc i)) heed.1 h.1)

  live-le-need_of : (t : Task host) → live t ≤ need_of t
  live-le-need_of finished = omega arith
  live-le-need_of (spawned r) = omega arith
  live-le-need_of (handshaking h) = omega arith
  live-le-need_of (serving s) = ground arith

  pub Covers-total_live :
      (c : ℕ → ℕ) (ts : List (Task host)) → ((i : ℕ) → c i ≡ 0) → Covers c ts → total_live ts ≡ 0
  Covers-total_live c [] z h = refl
  Covers-total_live c (t ∷ ts) z h = omega (
    arith,
    live-le-need_of t,
    h.0,
    z 0,
    Covers-total_live (λ i. c (suc i)) ts (λ i. z (suc i)) h.1,
  )

  after_task-need_of :
      (n : ℕ) (r : Polled (Task host) (Unit {0}))
      → Round Unit (λ t. need_of t + 1 ≤ n) (λ _ _. Unit {0}) r
      → need_of (after_task host r).0 ≤ n - 1
  unfolding after_task
  after_task-need_of n panics h = omega arith
  after_task-need_of n (waits t) h = omega (arith, h)
  after_task-need_of n (completes a t) h = omega arith

  module _ (prompt : Prompt host Closing left rounds most_left most_rounds) where
    pub poll_unfinished-need_of :
        (s : Server host) (draws : ℕ → List Branch) (cx : Cx)
        → s.graceful ≡ true
        → watch.has_changed s.channel ≡ true
        → IsOpen {host = host} (task 0 draws cx)
        → (t : Task host) → Heed t
        → need_of (poll_unfinished host s draws cx t).0 ≤ need_of t - 1
    unfolding poll_unfinished
    poll_unfinished-need_of s draws cx g sent opened t h = go t h
      where
        polled :
            (u : Task host)
            → Heed u
            → need_of (after_task host (poll_task host s.graceful s.tls draws u (cx, s.channel))).0
              ≤ need_of u - 1
        polled u k = rw g (
            after_task-need_of (need_of u) _ (
              poll_task-Within host Closing left rounds most_left most_rounds prompt draws
                (cx, s.channel) (delivered host (cx, s.channel) sent) opened.0 opened.1 s.tls u k))

        go :
            (u : Task host) → Heed u → need_of (poll_unfinished host s draws cx u).0 ≤ need_of u - 1
        go finished k = omega arith
        go (spawned r) k = polled (spawned r) k
        go (handshaking x) k = polled (handshaking x) k
        go (serving c) k = polled (serving c) k
