-- ===== src/Trust/Incoming.antt =====
-- The tests of src/tls.rs: a client connects to a listener, whose stream goes through
-- `serve_tcp_incoming` and `serve_tls_incoming`, and a server task awaits the first item.
pub mod Trials
use hyper_server.Prelude.{
  ℕ, zero, suc, ◌≡◌, String, Option, none, some, List, [], ◌∷◌, ◌++◌, Result, ok, err, ◌>>=◌,
  length,
}
use hyper_server.Future.{Future, Finishes}
use hyper_server.Stream.{
  Arrival, item, Awaited, crashed, unanswered, answered, await_next, polled_out, nobody,
}
use hyper_server.Errors.{BoxError, IoError, io}
use hyper_server.Tcp.{serve_tcp_incoming}
use hyper_server.Tls.{TlsIncoming, at_head, serve_tls_incoming}
use hyper_server.Tls.Promises.{same, Stalls}
use hyper_server.Deploy.{StartError, panicked, or_panic}
use hyper_server.Trust.{Pki, create_test_tls_acceptor, untrusted_client_config}

-- The code that is not here: the sockets, and the server's side of a handshake.
pub record Link (pki : Pki) : Type 1 where
  pub Tcp : Type 0
  pub TlsStream : Type 0
  pub H : Type 0
  pub Cx : Type 0
  -- The connection as it is accepted: from a client that starts a handshake for a name, and from one
  -- that sends nothing.
  pub from_client : pki.ClientConfig → String → Tcp
  pub from_silent : Tcp
  pub accept : pki.ServerConfig → Tcp → H
  pub handshake : Future Cx H (Result IoError TlsStream)

-- The handshake fails.
abbrev pub Fails {ℓ κ} : {E : Type ℓ} {A : Type κ} → Result E A → Type 0
Fails (err e) = Unit
Fails (ok a) = ⊥

-- How a test ends: its assertions hold, or it panics, or it is still waiting for the server's task.
pub data Verdict : Type 0 where
  passes fails waits_on : Verdict

abbrev pub verdict : Result StartError Verdict → Verdict
verdict (ok v) = v
verdict (err e) = fails

module _ (pki : Pki) (link : Link pki) where
  open pki use {ServerConfig, ClientConfig}
  open link use {Tcp, TlsStream, H, Cx}

  -- One client connects, after so many polls of the listener and with so many more to come.
  abbrev pub one_client : ℕ → Tcp → ℕ → List (Arrival (Result IoError Tcp))
  one_client before tcp more = nobody before ++ item (ok tcp) ∷ nobody more

  abbrev pub tcp_incoming :
      List (Arrival (Result IoError Tcp)) → List (Arrival (Result BoxError Tcp))
  tcp_incoming incoming = polled_out (serve_tcp_incoming io) (length incoming) incoming

  -- The server's task: `tls_stream.next()`, awaited for as long as it is polled.
  pub server_task :
      ServerConfig
      → List (Arrival (Result IoError Tcp))
      → List Cx
      → Awaited (Result BoxError TlsStream)
  unfolding await_next polled_out
  server_task server incoming cxs =
      await_next (serve_tls_incoming same (link.accept server) link.handshake) cxs
        (at_head (tcp_incoming incoming))

  -- `server_task.await?.ok_or(..)?` and `assert!(result.is_ok())`
  abbrev pub assert_accepted : Awaited (Result BoxError TlsStream) → Verdict
  assert_accepted crashed = fails
  assert_accepted unanswered = waits_on
  assert_accepted (answered none) = fails
  assert_accepted (answered (some (ok tls_stream))) = passes
  assert_accepted (answered (some (err e))) = fails

  -- The `match` on what the task brings in 1 ms: only a connection fails the test.
  abbrev pub assert_not_accepted : Awaited (Result BoxError TlsStream) → Verdict
  assert_not_accepted crashed = fails
  assert_not_accepted (answered (some (ok tls_stream))) = fails
  assert_not_accepted _ = passes

  -- `assert!(result.is_err())` on what the task brings in 1 ms, the error being the timeout.
  abbrev pub assert_timeout : Awaited (Result BoxError TlsStream) → Verdict
  assert_timeout unanswered = passes
  assert_timeout _ = fails

  -- `assert!(client_result.is_err())`
  abbrev pub client_fails : Result pki.E (Unit {0}) → Verdict → Verdict
  client_fails (ok connected) rest = fails
  client_fails (err e) rest = rest

  -- The tests, once the listener is bound and the client's TCP connection is made. `before`, `more` and `cxs` are the polls of the listener and of the server's task: all of
  -- them, or those within 1 ms.
  pub test_tls_incoming_success : ℕ → ℕ → List Cx → Verdict
  unfolding server_task
  test_tls_incoming_success before more cxs = verdict (do
    (server, client) ← create_test_tls_acceptor pki
    connected ← or_panic (pki.connect client "localhost" server)
    ok (
        assert_accepted
          (server_task server (one_client before (link.from_client client "localhost") more) cxs)))

  pub test_tls_incoming_invalid_cert : ℕ → ℕ → List Cx → Verdict
  unfolding server_task
  test_tls_incoming_invalid_cert before more cxs = verdict (do
    (server, client) ← create_test_tls_acceptor pki
    ok (
        client_fails (pki.connect (untrusted_client_config pki) "localhost" server) (
          assert_not_accepted (
            server_task server
              (one_client before (link.from_client (untrusted_client_config pki) "localhost") more)
              cxs))))

  pub test_tls_incoming_client_hello_timeout : ℕ → ℕ → List Cx → Verdict
  unfolding server_task
  test_tls_incoming_client_hello_timeout before more cxs = verdict (do
    (server, client) ← create_test_tls_acceptor pki
    ok (assert_timeout (server_task server (one_client before link.from_silent more) cxs)))

  -- What TLS promises of the two ends: the server's handshake succeeds if the client's has, and fails
  -- if the client's has failed, and does not end for a client that sends nothing.
  pub record IsLink : Type 1 where
    pub agrees :
        (client : ClientConfig) (name : String) (server : ServerConfig)
        → pki.connect client name server ≡ ok tt
        → (n : ℕ) × (tls_stream : TlsStream) × Finishes link.handshake n
            (link.accept server (link.from_client client name))
            (ok tls_stream)
    pub refuses :
        (client : ClientConfig) (name : String) (server : ServerConfig)
        → Fails (pki.connect client name server)
        → (n : ℕ) × (e : IoError) × Finishes link.handshake n
            (link.accept server (link.from_client client name))
            (err e)
    pub Silent : H → Type 0
    pub silent : (server : ServerConfig) → Silent (link.accept server link.from_silent)
    pub stalls :
        (server : ServerConfig)
        → Stalls {IE = BoxError} same (link.accept server) link.handshake Silent
