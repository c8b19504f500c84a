-- ===== src/Trust/Samples.antt =====
-- The clients of the TLS tests of src/http.rs, which trust the sample certificates, and the tests of
-- clients that do not take the server.
use hyper_server.Prelude.{String, List, Result, ok, err, ◌>>=◌}
use hyper_server.Errors.{IoError}
use hyper_server.Deploy.{StartError, panicked, Platform, or_panic}
use hyper_server.Deploy.Programs.{sample_certs, install_provider, tls_test_server}

-- The code that is not here, at the client: rustls, sockets, hyper's client and the sender of the
-- `oneshot` channel.
pub record Peer (platform : Platform) : Type 1 where
  pub RootStore : Type 0
  pub ClientConfig : Type 0
  pub Name : Type 0
  pub Tcp : Type 0
  pub TlsStream : Type 0
  pub Sender : Type 0
  pub E : Type 0
  pub empty_store : RootStore
  pub add_parsable_certificates : List platform.Cert → RootStore → RootStore
  pub with_root_certificates : RootStore → ClientConfig
  pub server_name : String → Result E Name
  -- Once the test server has been started.
  pub connect_tcp : platform.Address → Result IoError Tcp
  pub connect : ClientConfig → Name → Tcp → Result IoError TlsStream
  pub handshake : TlsStream → Result E Sender
  pub send_shutdown : Result (Unit {0}) (Unit {0})

-- `assert!(result.is_err())`
abbrev pub assert_err {ℓ κ} : {E : Type ℓ} {A : Type κ} → Result E A → Result StartError (Unit {0})
assert_err (err e) = ok tt
assert_err (ok a) = err panicked

module _ (platform : Platform) (peer : Peer platform) where
  open platform use {Cert, Key, Config, Address}
  open peer use {ClientConfig, Name, Tcp, TlsStream, Sender}

  -- A client that trusts the given certificates.
  abbrev pub trusting : List Cert → ClientConfig
  trusting certs =
      peer.with_root_certificates (peer.add_parsable_certificates certs peer.empty_store)

  unfoldable pub setup_test_client : Result StartError (ClientConfig × Name)
  setup_test_client = do
    certs ← or_panic (sample_certs platform)
    domain ← or_panic (peer.server_name "localhost")
    ok (trusting certs, domain)

  -- Up to the sender; the task that drives its connection is left out.
  unfoldable pub connect_tls_client : Address → ClientConfig → Name → Result StartError Sender
  connect_tls_client addr connector domain = do
    tcp ← or_panic (peer.connect_tcp addr)
    tls_stream ← or_panic (peer.connect connector domain tcp)
    or_panic (peer.handshake tls_stream)

  unfoldable pub test_invalid_client_cert : Result StartError (Unit {0})
  test_invalid_client_cert = do
    installed ← install_provider platform
    (addr, server) ← tls_test_server platform
    domain ← or_panic (peer.server_name "localhost")
    tcp ← or_panic (peer.connect_tcp addr)
    asserted ← assert_err (peer.connect (peer.with_root_certificates peer.empty_store) domain tcp)
    or_panic peer.send_shutdown

  unfoldable pub test_wrong_hostname : Result StartError (Unit {0})
  unfolding setup_test_client
  test_wrong_hostname = do
    installed ← install_provider platform
    (addr, server) ← tls_test_server platform
    (connector, domain) ← setup_test_client
    wrong_domain ← or_panic (peer.server_name "wronghost")
    tcp ← or_panic (peer.connect_tcp addr)
    asserted ← assert_err (peer.connect connector wrong_domain tcp)
    or_panic peer.send_shutdown
