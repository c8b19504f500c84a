-- ===== src/Trust.antt =====
-- The TLS configurations that are generated for a server and its client: `generate_dynamic_tls_config`
-- and `create_test_tls_acceptor` of the tests of src/tls.rs, and `generate_shared_ecdsa_config` of
-- benches/hello_world_tower_hyper_tls_tcp.rs.
pub mod Samples
pub mod Incoming
use hyper_server.Prelude.{
  ℕ, String, Bool, true, false, Option, none, some, List, [], ◌∷◌, Result, ok, err, ◌>>=◌,
}
use hyper_server.Deploy.{StartError, or_panic}

-- The fields that are set on a `ServerConfig`, and on a `ClientConfig`.
pub data ServerSetting (Ticketer : Type 0) : Type 0 where
  alpn_protocols : List String → ServerSetting Ticketer
  max_fragment_size : Option ℕ → ServerSetting Ticketer
  send_tls13_tickets : ℕ → ServerSetting Ticketer
  session_storage : (entries : ℕ) → ServerSetting Ticketer
  ticketer : Ticketer → ServerSetting Ticketer
  max_early_data_size : ℕ → ServerSetting Ticketer

pub data ClientSetting : Type 0 where
  enable_sni : Bool → ClientSetting
  max_fragment : Option ℕ → ClientSetting
  enable_early_data : Bool → ClientSetting
  resumption : (sessions : ℕ) → ClientSetting

-- The code that is not here: rcgen and rustls.
pub record Pki : Type 1 where
  pub KeyPair : Type 0
  pub Params : Type 0
  pub Cert : Type 0
  pub Key : Type 0
  pub ServerConfig : Type 0
  pub ClientConfig : Type 0
  pub RootStore : Type 0
  pub Ticketer : Type 0
  pub E : Type 0
  pub generate : Result E KeyPair
  pub certificate_params : (names : List String) → Result E Params
  -- `params.distinguished_name = DistinguishedName::new()`
  pub clear_distinguished_name : Params → Params
  pub self_signed : Params → KeyPair → Result E Cert
  pub serialize_der : KeyPair → Key
  pub with_single_cert : List Cert → Key → Result E ServerConfig
  pub set_server : ServerSetting Ticketer → ServerConfig → ServerConfig
  pub new_ticketer : Result E Ticketer
  pub empty_store : RootStore
  pub add : Cert → RootStore → Result E RootStore
  pub with_root_certificates : RootStore → ClientConfig
  pub set_client : ClientSetting → ClientConfig → ClientConfig
  -- What a handshake of the client with the server brings at the client, which asks for a name.
  pub connect : ClientConfig → String → ServerConfig → Result E (Unit {0})

module _ (pki : Pki) where
  open pki use {Cert, Key, ServerConfig, ClientConfig, Ticketer, E}

  pub record TlsConfig : Type 0 where
    pub server_config : ServerConfig
    pub client_config : ClientConfig

  -- A self-signed certificate for "localhost", and its key.
  pub generate_cert : Result StartError (Cert × Key)
  generate_cert = do
    key_pair ← or_panic pki.generate
    params ← or_panic (pki.certificate_params ("localhost" ∷ []))
    cert ← or_panic (pki.self_signed (pki.clear_distinguished_name params) key_pair)
    ok (cert, pki.serialize_der key_pair)

  abbrev pub set_all_server : List (ServerSetting Ticketer) → ServerConfig → ServerConfig
  set_all_server [] server = server
  set_all_server (s ∷ settings) server = set_all_server settings (pki.set_server s server)

  abbrev pub set_all_client : List ClientSetting → ClientConfig → ClientConfig
  set_all_client [] client = client
  set_all_client (s ∷ settings) client = set_all_client settings (pki.set_client s client)

  -- The settings of the tests, and those of the benchmark.
  abbrev pub dynamic_settings : List (ServerSetting Ticketer)
  dynamic_settings = alpn_protocols ("h2" ∷ "http/1.1" ∷ []) ∷ []

  abbrev pub shared_server_settings : Ticketer → List (ServerSetting Ticketer)
  shared_server_settings new_ticketer =
      alpn_protocols ("h2" ∷ "http/1.1" ∷ [])
      ∷ max_fragment_size (some 16384)
      ∷ send_tls13_tickets 8
      ∷ session_storage 10240
      ∷ ticketer new_ticketer
      ∷ max_early_data_size 16384
      ∷ []

  abbrev pub shared_client_settings : List ClientSetting
  shared_client_settings =
      enable_sni false ∷ max_fragment (some 16384) ∷ enable_early_data true ∷ resumption 10240 ∷ []

  -- `generate_dynamic_tls_config`
  unfoldable pub generate_dynamic_tls_config : Result StartError TlsConfig
  unfolding generate_cert
  generate_dynamic_tls_config = do
    (cert, key) ← generate_cert
    server_config ← or_panic (pki.with_single_cert (cert ∷ []) key)
    root_store ← or_panic (pki.add cert pki.empty_store)
    ok (record {
      server_config = set_all_server dynamic_settings server_config;
      client_config = pki.with_root_certificates root_store;
    })

  -- `generate_shared_ecdsa_config`
  unfoldable pub generate_shared_ecdsa_config : Result StartError TlsConfig
  unfolding generate_cert
  generate_shared_ecdsa_config = do
    (cert, key) ← generate_cert
    server_config ← or_panic (pki.with_single_cert (cert ∷ []) key)
    new_ticketer ← or_panic pki.new_ticketer
    root_store ← or_panic (pki.add cert pki.empty_store)
    ok (record {
      server_config = set_all_server (shared_server_settings new_ticketer) server_config;
      client_config = set_all_client shared_client_settings (pki.with_root_certificates root_store);
    })

  -- `create_test_tls_acceptor`
  unfoldable pub create_test_tls_acceptor : Result StartError (ServerConfig × ClientConfig)
  unfolding generate_dynamic_tls_config
  create_test_tls_acceptor = do
    tls_config ← generate_dynamic_tls_config
    ok (tls_config.server_config, tls_config.client_config)

  -- The client of `test_tls_incoming_invalid_cert`.
  abbrev pub untrusted_client_config : ClientConfig
  untrusted_client_config = pki.with_root_certificates pki.empty_store
