-- ===== src/Tests/Deploys.antt =====
-- The programs on a platform of lists and numbers (examples/tower_service_fn.rs, src/http.rs).
use hyper_server.Prelude.{ℕ, ◌≡◌, refl, true, ok, err, String, Option, none, some, List, [], ◌∷◌}
use hyper_server.Errors.{ErrorKind, io, io_error, message}
use hyper_server.Tls.Load.{collect, load_certs, load_private_key}
use hyper_server.Deploy.Settings.{example_builder}
use hyper_server.Deploy.Programs.{tower_main}
use hyper_server.Deploy.Starts.{tower, deploy}
use hyper_server.Deploy.{returned, Platform, Deployment}

-- Everything succeeds, the key file having the given key; a configuration is what was put into it.
abbrev pub working : Option ℕ → Platform
working key = record {
  Listener = ℕ;
  Socket = ℕ;
  Address = ℕ;
  File = String;
  Cert = String;
  Key = ℕ;
  Config = List String × ℕ;
  Reflection = Unit;
  Service = ℕ;
  Signal = ℕ;
  bind = λ address port. ok port;
  local_addr = λ listener. ok listener;
  new_v4 = ok 0;
  set_option = λ option socket. ok socket;
  bind_socket = λ address port socket. ok port;
  listen = λ backlog socket. ok socket;
  installs = true;
  open_file = λ name. ok name;
  certs = λ file. ok file ∷ [];
  private_key = λ file. ok key;
  with_single_cert = λ certs key. ok (certs, key);
  set_alpn_protocols = λ protocols (certs, key). (protocols, key);
  build_reflection = λ sets. ok tt;
  hello_service = 1;
  echo_service = 2;
  test_service = 3;
  grpc_service = λ reflection. 4;
  shutdown_rx = 5;
}

abbrev tower_deployment : Deployment (working (some 6))
tower_deployment = record {
  service = 1;
  incoming = 8443;
  builder = example_builder;
  tls_config = some ("h2" ∷ "http/1.1" ∷ "http/1.0" ∷ [], 6);
  signal = some 5;
}

tower_starts : deploy (working (some 6)) tower ≡ ok tower_deployment
unfolding deploy tower_main load_certs load_private_key collect
tower_starts = refl

-- Without a key in its file the program ends with the error of `load_private_key`.
tower_without_key :
    tower_main (working none)
    ≡ err (returned (io (io_error ErrorKind.invalid_data (message "No private key found in file"))))
unfolding tower_main load_certs load_private_key collect
tower_without_key = refl
