-- ===== src/Benchmark/Bodies.antt =====
-- The sizes of the bodies that `send_request` returns (benches/hello_world_tower_hyper_tls_tcp.rs).
use hyper_server.Prelude.{
  ℕ, ◌≡◌, refl, ap, Bool, true, false, if◌then◌else◌, Result, ok, err, none, some, List, same_bytes,
  same_bytes_sound, length,
}
use hyper_server.Future.{Polled, panics, waits, completes}
use hyper_server.Benchmark.{
  Client, Sending, called, getting, collecting, sent, Sent, Handle, running, joined, after_body,
  after_get, poll_send_request, after_poll, poll_handle,
}

module _ (client : Client) where
  open client use {Cx, Url, Getting, Response, Collecting, Failure, Instant, Duration}

  -- The length of the body that `send_request` asserts.
  abbrev pub greeting_size : ℕ
  greeting_size = length (client.bytes "Hello, World!")

  abbrev IsSize : Sent client → Type 0
  IsSize (err e) = Unit
  IsSize (ok (duration, bytes)) = bytes ≡ greeting_size

  abbrev Sized : Polled (Sending client) (Sent client) → Type 0
  Sized panics = Unit
  Sized (waits s) = Unit
  Sized (completes r s) = IsSize r

  abbrev pub IsHandle : Handle client → Type 0
  IsHandle (running s) = Unit
  IsHandle (joined none) = Unit
  IsHandle (joined (some r)) = IsSize r

  after_body-Sized :
      (start : Instant) (cx : Cx) (r : Polled Collecting (Result Failure (List ℕ)))
      → Sized (after_body client start cx r)
  unfolding after_body
  after_body-Sized start cx panics = tt
  after_body-Sized start cx (waits c) = tt
  after_body-Sized start cx (completes (err e) c) = tt
  after_body-Sized start cx (completes (ok body) c) =
      go (same_bytes body (client.bytes "Hello, World!")) refl
    where
      go :
          (b : Bool)
          → same_bytes body (client.bytes "Hello, World!") ≡ b
          → Sized (if b then completes (ok (client.elapsed start cx, length body)) sent else panics)
      go true e = ap (λ xs. length xs) (same_bytes_sound body (client.bytes "Hello, World!") e)
      go false e = tt

  after_get-Sized :
      (start : Instant) (cx : Cx) (r : Polled Getting (Result Failure Response))
      → Sized (after_get client start cx r)
  unfolding after_get
  after_get-Sized start cx panics = tt
  after_get-Sized start cx (waits g) = tt
  after_get-Sized start cx (completes (err e) g) = tt
  after_get-Sized start cx (completes (ok res) g) = go (client.is_ok res)
    where
      go :
          (b : Bool)
          → Sized (
              if b
              then after_body client start cx (client.collecting.poll (client.collect res) cx)
              else panics)
      go true = after_body-Sized start cx (client.collecting.poll (client.collect res) cx)
      go false = tt

  poll_send_request-Sized : (s : Sending client) (cx : Cx) → Sized (poll_send_request client s cx)
  unfolding poll_send_request
  poll_send_request-Sized (called url) cx =
      after_get-Sized (client.now cx) cx (client.getting.poll (client.get url) cx)
  poll_send_request-Sized (getting start g) cx = after_get-Sized start cx (client.getting.poll g cx)
  poll_send_request-Sized (collecting start c) cx =
      after_body-Sized start cx (client.collecting.poll c cx)
  poll_send_request-Sized sent cx = tt

  pub poll_handle-IsHandle :
      (cx : Cx) (h : Handle client) → IsHandle h → IsHandle (poll_handle client cx h)
  unfolding poll_handle after_poll
  poll_handle-IsHandle cx (joined r) k = k
  poll_handle-IsHandle cx (running s) k =
      go (poll_send_request client s cx) (poll_send_request-Sized s cx)
    where
      go : (r : Polled (Sending client) (Sent client)) → Sized r → IsHandle (after_poll client r)
      go panics z = tt
      go (waits s') z = tt
      go (completes r s') z = z
