-- ===== src/Trust/Incoming/Trials.antt =====
-- Why the tests of src/tls.rs pass, by polls of the server's task.
use hyper_server.Prelude.{
  ℕ, zero, suc, ◌+◌, ◌<◌, ◌≡◌, refl, ap, none, some, List, ◌∷◌, ◌++◌, Result, ok, err, length,
}
use hyper_server.Stream.{later, item, Awaited, crashed, unanswered, answered, polled_out, nobody}
use hyper_server.Errors.{BoxError, IoError, io}
use hyper_server.Tcp.{serve_tcp_incoming}
use hyper_server.Tls.{at_head}
use hyper_server.Tls.FirstItem.{
  awaited, NotAccepted, awaited-ok_after, awaited-err_after, awaited-silent_after,
}
use hyper_server.Trust.{Pki, create_test_tls_acceptor, untrusted_client_config}
use hyper_server.Trust.Incoming.{
  Fails, Link, IsLink, passes, one_client, server_task, assert_not_accepted, client_fails,
  test_tls_incoming_success, test_tls_incoming_invalid_cert, test_tls_incoming_client_hello_timeout,
}

polled_out-nobody :
    {Tcp : Type 0} (m : ℕ)
    → polled_out
        (serve_tcp_incoming {IO = Tcp} io)
        (length {0} (nobody {A = Result IoError Tcp} m))
        (nobody m)
      ≡ nobody m
unfolding polled_out serve_tcp_incoming
polled_out-nobody zero = refl
polled_out-nobody (suc m) = ap (λ l. later ∷ l) (polled_out-nobody m)

-- The stream of a listener to which one client connects goes through `serve_tcp_incoming` unchanged.
polled_out-one_client :
    {Tcp : Type 0} (before m : ℕ) (tcp : Tcp)
    → polled_out
        (serve_tcp_incoming io)
        (length (nobody {A = Result IoError Tcp} before ++ item (ok tcp) ∷ nobody m))
        (nobody before ++ item (ok tcp) ∷ nobody m)
      ≡ nobody before ++ item (ok tcp) ∷ nobody m
unfolding polled_out serve_tcp_incoming
polled_out-one_client zero m tcp = ap (λ l. item (ok tcp) ∷ l) (polled_out-nobody m)
polled_out-one_client (suc before) m tcp = ap (λ l. later ∷ l) (polled_out-one_client before m tcp)

module _ (pki : Pki) (link : Link pki) where
  open pki use {ServerConfig, ClientConfig}
  open link use {Tcp, TlsStream, Cx}

  -- What the server's task awaits.
  server_task-awaited :
      (server : ServerConfig) (before m : ℕ) (tcp : Tcp) (cxs : List Cx)
      → server_task pki link server (one_client pki link before tcp m) cxs
        ≡ awaited
            (link.accept server)
            link.handshake
            cxs
            (at_head (nobody before ++ item (ok tcp) ∷ nobody m))
  unfolding server_task
  server_task-awaited server before m tcp cxs = rw (polled_out-one_client before m tcp) refl

  passes_of-NotAccepted :
      (r : Result pki.E (Unit {0})) (a : Awaited (Result BoxError TlsStream))
      → Fails r
      → NotAccepted a
      → client_fails pki link r (assert_not_accepted pki link a) ≡ passes
  passes_of-NotAccepted (ok u) a f n = absurd f
  passes_of-NotAccepted (err e) crashed f n = absurd n
  passes_of-NotAccepted (err e) unanswered f n = refl
  passes_of-NotAccepted (err e) (answered none) f n = refl
  passes_of-NotAccepted (err e) (answered (some (ok t))) f n = absurd n
  passes_of-NotAccepted (err e) (answered (some (err b))) f n = refl

  module _ (tls : IsLink pki link) {server : ServerConfig} {client : ClientConfig}
      (created : create_test_tls_acceptor pki ≡ ok (server, client))
      (trusted : pki.connect client "localhost" server ≡ ok tt)
      (untrusted : Fails (pki.connect (untrusted_client_config pki) "localhost" server)) where
    -- If the acceptor is created, the client that has its certificate among its roots completes the
    -- handshake with it, one without roots does not, and the two ends of a handshake agree: the test of
    -- a connection passes when the server's task is polled often enough, wherever the client comes in
    -- between; the test of an untrusted certificate and that of a client that sends nothing pass however
    -- often the task is polled before its time is over.
    pub tls_stream_tests_pass :
        ((n : ℕ) × ((before more : ℕ) (cxs : List Cx)
            → n + before < length cxs
            → test_tls_incoming_success pki link before more cxs ≡ passes))
        × ((before more : ℕ) (cxs : List Cx)
            → test_tls_incoming_invalid_cert pki link before more cxs ≡ passes)
        × ((before more : ℕ) (cxs : List Cx)
            → test_tls_incoming_client_hello_timeout pki link before more cxs ≡ passes)
    unfolding test_tls_incoming_success test_tls_incoming_invalid_cert
        test_tls_incoming_client_hello_timeout
    tls_stream_tests_pass =
        let (n, t, finishes) = tls.agrees client "localhost" server trusted in
        let (m, e, failing) =
          tls.refuses (untrusted_client_config pki) "localhost" server untrusted in
        (
          (
            n,
            λ before more cxs fits.
                rw
                  (
                    created,
                    trusted,
                    server_task-awaited server before more (link.from_client client "localhost")
                        cxs,
                    awaited-ok_after (link.accept server) link.handshake before n _ t (nobody more)
                        cxs finishes fits,
                  )
                  refl,
          ),
          λ before more cxs.
              rw (created, server_task-awaited server before more _ cxs)
                (passes_of-NotAccepted _ _ untrusted (
                  awaited-err_after (link.accept server) link.handshake before m _ e more cxs
                    failing)),
          λ before more cxs.
              rw
                (
                  created,
                  server_task-awaited server before more link.from_silent cxs,
                  awaited-silent_after (link.accept server) link.handshake tls.Silent
                      (tls.stalls server) before link.from_silent (nobody more) cxs
                      (tls.silent server),
                )
                refl,
        )
