-- ===== src/Deploy.antt =====
-- The programs that start a server: examples/tower_service_fn.rs, examples/tonic.rs,
-- benches/hello_world_tower_hyper_tls_tcp.rs, tests/main.rs and the set-up of the tests of src/http.rs.
-- Each is modelled up to its call of `serve_http_with_shutdown`, with the arguments of that call as its
-- result.
pub mod Settings
pub mod Programs
pub mod Starts
use hyper_server.Prelude.{
  ℕ, Bool, if◌then◌else◌, Result, ok, err, ◌>>=◌, String, Option, List, [], ◌∷◌,
}
use hyper_server.Errors.{ErrorKind, BoxError, IoError, io, io_error, custom}
use hyper_server.Deploy.Settings.{Setting, SocketOption}

-- What ends a program before it serves: an error that `?` returns, or a panic of `expect` or `unwrap`.
pub data StartError : Type 0 where
  returned : BoxError → StartError
  panicked : StartError

-- The file descriptor sets that the reflection service is built from.
pub data DescriptorSet : Type 0 where
  tonic_health tonic_types tonic_reflection : DescriptorSet

-- The code that is not here: sockets, the files and their parsers, rustls, and the gRPC services.
pub record Platform : Type 1 where
  pub Listener : Type 0
  pub Socket : Type 0
  pub Address : Type 0
  pub File : Type 0
  pub Cert : Type 0
  pub Key : Type 0
  pub Config : Type 0
  pub Reflection : Type 0
  pub Service : Type 0
  pub Signal : Type 0
  pub bind : List ℕ → ℕ → Result IoError Listener
  pub local_addr : Listener → Result IoError Address
  pub new_v4 : Result IoError Socket
  pub set_option : SocketOption → Socket → Result IoError Socket
  pub bind_socket : List ℕ → ℕ → Socket → Result IoError Socket
  pub listen : ℕ → Socket → Result IoError Listener
  -- Whether `install_default` of the crypto provider succeeds.
  pub installs : Bool
  pub open_file : String → Result IoError File
  pub certs : File → List (Result IoError Cert)
  pub private_key : File → Result IoError (Option Key)
  pub with_single_cert : List Cert → Key → Result BoxError Config
  pub set_alpn_protocols : List String → Config → Config
  pub build_reflection : List DescriptorSet → Result BoxError Reflection
  -- The services, once they are built: `hello` below `AddHeaderLayer`, `EchoService`, `test_handler`,
  -- and the router of the health service and the reflection service.
  pub hello_service : Service
  pub echo_service : Service
  pub test_service : Service
  pub grpc_service : Reflection → Service
  -- The receiver of a fresh `oneshot` channel, as a future.
  pub shutdown_rx : Signal

module _ (platform : Platform) where
  open platform use {Listener, Config, Service, Signal}

  -- The arguments of `serve_http_with_shutdown`.
  pub record Deployment : Type 0 where
    pub service : Service
    pub incoming : Listener
    pub builder : List Setting
    pub tls_config : Option Config
    pub signal : Option Signal

-- `?` on an I/O error, and `unwrap` or `expect`.
abbrev pub io_or_return {ℓ} : {A : Type ℓ} → Result IoError A → Result StartError A
io_or_return (err e) = err (returned (io e))
io_or_return (ok a) = ok a

abbrev pub or_return {ℓ} : {A : Type ℓ} → Result BoxError A → Result StartError A
or_return (err e) = err (returned e)
or_return (ok a) = ok a

abbrev pub or_panic {ℓ κ} : {E : Type κ} {A : Type ℓ} → Result E A → Result StartError A
or_panic (err e) = err panicked
or_panic (ok a) = ok a

-- `.map_err(std::io::Error::other)`
abbrev pub other {ℓ} : {A : Type ℓ} → Result BoxError A → Result IoError A
other (err e) = err (io_error ErrorKind.other (custom e))
other (ok a) = ok a
