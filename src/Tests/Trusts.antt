-- ===== src/Tests/Trusts.antt =====
-- The generated configurations, with certificates that are the name that they cover (src/tls.rs).
use text.Mathlib.Text.{◌==◌}
use hyper_server.Prelude.{if◌then◌else◌, String, Option, none, some, List, [], ◌∷◌, Result, ok, err}
use hyper_server.Trust.{Pki}

-- The reasons for which a handshake fails.
pub data Alert : Type 0 where
  unknown_issuer bad_name malformed : Alert

abbrev pub first_name : List String → Result Alert String
first_name [] = err malformed
first_name (name ∷ names) = ok name

abbrev pub only_one : List String → Unit {0} → Result Alert String
only_one (cert ∷ []) key = ok cert
only_one certs key = err malformed

abbrev pub add_root : String → Option String → Result Alert (Option String)
add_root cert none = ok (some cert)
add_root cert (some root) = err malformed

abbrev pub handshake : Option String → String → String → Result Alert (Unit {0})
handshake none name cert = err unknown_issuer
handshake (some root) name cert =
    if name == cert then (if root == cert then ok tt else err unknown_issuer) else err bad_name

abbrev pub pki : Pki
pki = record {
  KeyPair = Unit {0};
  Params = String;
  Cert = String;
  Key = Unit {0};
  ServerConfig = String;
  ClientConfig = Option String;
  RootStore = Option String;
  Ticketer = Unit {0};
  E = Alert;
  generate = ok tt;
  certificate_params = first_name;
  clear_distinguished_name = λ params. params;
  self_signed = λ params key_pair. ok params;
  serialize_der = λ key_pair. key_pair;
  with_single_cert = only_one;
  set_server = λ s server. server;
  new_ticketer = ok tt;
  empty_store = none;
  add = add_root;
  with_root_certificates = λ roots. roots;
  set_client = λ s client. client;
  connect = handshake;
}
