-- ===== src/Deploy/Programs.antt =====
-- The programs, up to their call of `serve_http_with_shutdown` (examples/tower_service_fn.rs,
-- examples/tonic.rs, benches/hello_world_tower_hyper_tls_tcp.rs, tests/main.rs, src/http.rs).
use hyper_server.Prelude.{ℕ, if◌then◌else◌, Result, ok, err, ◌>>=◌, none, some, List, [], ◌∷◌}
use hyper_server.Errors.{IoError}
use hyper_server.Tls.Load.{load_certs, load_private_key}
use hyper_server.Deploy.Settings.{SocketOption, example_builder, bench_builder, bench_socket}
use hyper_server.Deploy.{
  tonic_health, tonic_types, tonic_reflection, StartError, panicked, Platform, Deployment,
  io_or_return, or_return, or_panic, other,
}

-- `SocketAddr::from(([127, 0, 0, 1], port))`
abbrev pub localhost : List ℕ
localhost = 127 ∷ 0 ∷ 0 ∷ 1 ∷ []

module _ (platform : Platform) where
  open platform use {Listener, Socket, Address, Cert, Key, Config, Reflection}

  abbrev pub sample_certs : Result IoError (List Cert)
  sample_certs = load_certs platform.open_file platform.certs "examples/sample.pem"

  abbrev pub sample_key : Result IoError Key
  sample_key = load_private_key platform.open_file platform.private_key "examples/sample.rsa"

  -- `default_provider().install_default().expect(..)`
  unfoldable pub install_provider : Result StartError (Unit {0})
  install_provider = if platform.installs then ok tt else err panicked

  -- `main` of examples/tower_service_fn.rs. The task that it spawns to send on its first channel is left
  -- out: the channel that the server waits for is a second one of the same name.
  unfoldable pub tower_main : Result StartError (Deployment platform)
  unfolding install_provider
  tower_main = do
    listener ← io_or_return (platform.bind localhost 8443)
    installed ← install_provider
    certs ← io_or_return sample_certs
    key ← io_or_return sample_key
    config ← io_or_return (other (platform.with_single_cert certs key))
    ok (record {
      service = platform.hello_service;
      incoming = listener;
      builder = example_builder;
      tls_config = some (platform.set_alpn_protocols ("h2" ∷ "http/1.1" ∷ "http/1.0" ∷ []) config);
      signal = some platform.shutdown_rx;
    })

  -- `main` of examples/tonic.rs
  unfoldable pub tonic_main : Result StartError (Deployment platform)
  unfolding install_provider
  tonic_main = do
    reflection ←
        or_return (platform.build_reflection (tonic_health ∷ tonic_types ∷ tonic_reflection ∷ []))
    listener ← io_or_return (platform.bind localhost 8443)
    installed ← install_provider
    certs ← io_or_return sample_certs
    key ← io_or_return sample_key
    config ← or_return (platform.with_single_cert certs key)
    ok (record {
      service = platform.grpc_service reflection;
      incoming = listener;
      builder = [];
      tls_config = some (platform.set_alpn_protocols ("h2" ∷ []) config);
      signal = some platform.shutdown_rx;
    })

  -- `setup_test_server` of tests/main.rs
  unfoldable pub grpc_test_server : Result StartError (Address × Deployment platform)
  unfolding install_provider
  grpc_test_server = do
    installed ← install_provider
    listener ← io_or_return (platform.bind localhost 0)
    server_addr ← io_or_return (platform.local_addr listener)
    certs ← io_or_return sample_certs
    key ← io_or_return sample_key
    config ← or_return (platform.with_single_cert certs key)
    reflection ← or_return (platform.build_reflection (tonic_health ∷ []))
    ok (
      server_addr,
      record {
        service = platform.grpc_service reflection;
        incoming = listener;
        builder = [];
        tls_config = some (platform.set_alpn_protocols ("h2" ∷ []) config);
        signal = some platform.shutdown_rx;
      },
    )

  -- `setup_test_server` of the tests of src/http.rs
  unfoldable pub http_test_server : Result StartError (Address × Deployment platform)
  http_test_server = do
    listener ← or_panic (platform.bind localhost 0)
    server_addr ← or_panic (platform.local_addr listener)
    ok (
      server_addr,
      record {
        service = platform.test_service;
        incoming = listener;
        builder = [];
        tls_config = none;
        signal = some platform.shutdown_rx;
      },
    )

  -- `setup_test_tls_config` and `setup_tls_test_server` of the tests of src/http.rs
  unfoldable pub setup_test_tls_config : Result StartError Config
  setup_test_tls_config = do
    certs ← or_panic sample_certs
    key ← or_panic sample_key
    or_panic (platform.with_single_cert certs key)

  unfoldable pub tls_test_server : Result StartError (Address × Deployment platform)
  unfolding setup_test_tls_config
  tls_test_server = do
    listener ← or_panic (platform.bind localhost 0)
    server_addr ← or_panic (platform.local_addr listener)
    tls_config ← setup_test_tls_config
    ok (
      server_addr,
      record {
        service = platform.test_service;
        incoming = listener;
        builder = [];
        tls_config = some tls_config;
        signal = some platform.shutdown_rx;
      },
    )

  -- The `set_` calls of `setup_server`, each with `?`.
  pub set_options : List SocketOption → Socket → Result IoError Socket
  set_options [] socket = ok socket
  set_options (option ∷ options) socket = do
    socket ← platform.set_option option socket
    set_options options socket

  -- `setup_server` of the benchmark
  pub setup_server : Result IoError (Listener × Address)
  unfolding set_options
  setup_server = do
    socket ← platform.new_v4
    socket ← set_options bench_socket socket
    socket ← platform.bind_socket localhost 0 socket
    listener ← platform.listen 8192 socket
    server_addr ← platform.local_addr listener
    ok (listener, server_addr)

  -- `start_server` of the benchmark
  unfoldable pub start_server : Config → Result StartError (Address × Deployment platform)
  unfolding setup_server
  start_server tls_config = do
    (listener, server_addr) ← io_or_return setup_server
    ok (
      server_addr,
      record {
        service = platform.echo_service;
        incoming = listener;
        builder = bench_builder;
        tls_config = some tls_config;
        signal = some platform.shutdown_rx;
      },
    )
