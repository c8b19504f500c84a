-- ===== src/Errors.antt =====
-- src/error.rs: the errors of the crate, and the decision of the accept loop.
pub mod Accept
pub mod Sources
use Prim.Native.String.{◌++◌}
use hyper_server.Prelude.{ℕ, String, Option, none, some}

-- `std::io::ErrorKind`, the stable kinds.
pub data ErrorKind : Type 0 where
  not_found permission_denied connection_refused connection_reset : ErrorKind
  connection_aborted not_connected addr_in_use addr_not_available : ErrorKind
  broken_pipe already_exists would_block invalid_input invalid_data : ErrorKind
  timed_out write_zero interrupted unsupported unexpected_eof : ErrorKind
  out_of_memory other : ErrorKind

-- `Kind`
pub data Kind : Type 0 where
  transport : Kind

-- `Box<dyn std::error::Error + Send + Sync>` is told apart by the concrete type that it holds, which
-- `downcast_ref` reads: a `std::io::Error`, the crate's own `Error`, or another type.
mutual
  pub data BoxError : Type 0 where
    io : IoError → BoxError
    server : Error → BoxError
    foreign : (id : ℕ) → BoxError

  -- `std::io::Error`: a kind, and what it was made from.
  pub data IoError : Type 0 where
    io_error : ErrorKind → Payload → IoError

  pub data Payload : Type 0 where
    nothing : Payload
    message : String → Payload
    custom : BoxError → Payload

  -- `Error` with its `ErrorImpl`: the kind, and the source, an `Option<Source>`.
  pub data Error : Type 0 where
    error_impl : Kind → Source → Error

  pub data Source : Type 0 where
    no_source : Source
    source_of : BoxError → Source

-- `Error::new`
pub new : Kind → Error
new kind = error_impl kind no_source

-- `Error::with`
pub with_source : Error → BoxError → Error
with_source (error_impl kind _) source = error_impl kind (source_of source)

-- `Error::from_source`
unfoldable pub from_source : BoxError → Error
unfolding new with_source
from_source source = with_source (new transport) source

-- `Error::description`
description : Error → String
description (error_impl transport _) = "transport error"

-- `Display::fmt`: what is written.
pub display : Error → String
unfolding description
display e = description e

-- `#[derive(Debug)]` of `Kind`.
debug_kind : Kind → String
debug_kind transport = "Transport"

-- `Debug::fmt`: `debug_tuple` writes the name and the fields in parentheses. What the source itself
-- writes is a parameter.
module _ (debug_source : BoxError → String) where
  debug_fields : Error → String
  debug_fields (error_impl kind no_source) = debug_kind kind
  debug_fields (error_impl kind (source_of source)) = debug_kind kind ++ ", " ++ debug_source source

  pub debug : Error → String
  unfolding debug_kind debug_fields
  debug e = "tonic::transport::Error(" ++ debug_fields e ++ ")"

-- `StdError::source`
pub source : Error → Option BoxError
source (error_impl kind no_source) = none
source (error_impl kind (source_of cause)) = some cause
