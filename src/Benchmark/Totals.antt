-- ===== src/Benchmark/Totals.antt =====
-- What `concurrent_benchmark` adds up (benches/hello_world_tower_hyper_tls_tcp.rs).
use hyper_server.Prelude.{ℕ, suc, ◌+◌, ◌*◌, ◌≤◌, ◌≡◌, ok, some, List, [], ◌∷◌, length, All}
use hyper_server.Benchmark.Bodies.{greeting_size, IsHandle}
use hyper_server.Benchmark.{Client, Handle, running, joined, Bench}

module _ (client : Client) where
  open client use {Cx, Url, Duration}

  -- The requests that have succeeded, of those that have ended.
  abbrev pub successes : List (Handle client) → ℕ
  successes [] = 0
  successes (joined (some (ok r)) ∷ handles) = suc (successes handles)
  successes (h ∷ handles) = successes handles

  abbrev pub IsJoined : Handle client → Type 0
  IsJoined (running s) = ⊥
  IsJoined (joined r) = Unit

  -- The handles that are left and the totals, of so many requests.
  record Adds (n : ℕ) (handles : List (Handle client)) (times : List Duration) (total : ℕ)
      : Type 0 where
    sized : All (IsHandle client) handles
    totals : total ≡ length times * greeting_size client
    counted : length times + length handles ≤ n

  abbrev IsAdding : ℕ → Bench client → Type 0
  IsAdding n b = Adds n b.handles b.request_times b.total_bytes
