-- ===== src/Transport.antt =====
-- src/io.rs: one type for plain and TLS connections, which forwards all it is asked to the stream in it.
pub mod Forward
use hyper_server.Prelude.{ℕ, Bool, Result, List}
use hyper_server.Future.{Poll}
use hyper_server.Errors.{IoError}

-- `tokio::io::ReadBuf`: what has been read so far, and the room there is in all.
pub record ReadBuf : Type 0 where
  pub filled : List ℕ
  pub capacity : ℕ

-- `AsyncRead` and `AsyncWrite`; each call hands back the stream as it left it.
pub record AsyncIo {ℓ κ} (Cx : Type κ) (IO : Type ℓ) : Type (ℓ ⊔ κ) where
  pub poll_read : IO → Cx → ReadBuf → Poll (Result IoError (Unit {0})) × IO × ReadBuf
  pub poll_write : IO → Cx → List ℕ → Poll (Result IoError ℕ) × IO
  pub poll_flush : IO → Cx → Poll (Result IoError (Unit {0})) × IO
  pub poll_shutdown : IO → Cx → Poll (Result IoError (Unit {0})) × IO
  pub poll_write_vectored : IO → Cx → List (List ℕ) → Poll (Result IoError ℕ) × IO
  pub is_write_vectored : IO → Bool

pub data Transport {ℓ κ} (IO : Type ℓ) (TlsStream : Type κ) : Type (ℓ ⊔ κ) where
  plain : IO → Transport IO TlsStream
  tls : TlsStream → Transport IO TlsStream

-- `Transport::new_plain`, `Transport::new_tls`
abbrev pub new_plain {ℓ κ} : {IO : Type ℓ} {TlsStream : Type κ} → IO → Transport IO TlsStream
new_plain io = plain io

abbrev pub new_tls {ℓ κ} : {IO : Type ℓ} {TlsStream : Type κ} → TlsStream → Transport IO TlsStream
new_tls io = tls io

module _ {ℓ κ μ} {Cx : Type μ} {IO : Type ℓ} {TlsStream : Type κ} (p : AsyncIo Cx IO)
    (t : AsyncIo Cx TlsStream) where
  poll_read :
      Transport IO TlsStream
      → Cx
      → ReadBuf
      → Poll (Result IoError (Unit {0})) × Transport IO TlsStream × ReadBuf
  poll_read (plain io) cx buf = let (r, io', buf') = p.poll_read io cx buf in (r, plain io', buf')
  poll_read (tls io) cx buf = let (r, io', buf') = t.poll_read io cx buf in (r, tls io', buf')

  poll_write :
      Transport IO TlsStream → Cx → List ℕ → Poll (Result IoError ℕ) × Transport IO TlsStream
  poll_write (plain io) cx buf = let (r, io') = p.poll_write io cx buf in (r, plain io')
  poll_write (tls io) cx buf = let (r, io') = t.poll_write io cx buf in (r, tls io')

  poll_flush :
      Transport IO TlsStream → Cx → Poll (Result IoError (Unit {0})) × Transport IO TlsStream
  poll_flush (plain io) cx = let (r, io') = p.poll_flush io cx in (r, plain io')
  poll_flush (tls io) cx = let (r, io') = t.poll_flush io cx in (r, tls io')

  poll_shutdown :
      Transport IO TlsStream → Cx → Poll (Result IoError (Unit {0})) × Transport IO TlsStream
  poll_shutdown (plain io) cx = let (r, io') = p.poll_shutdown io cx in (r, plain io')
  poll_shutdown (tls io) cx = let (r, io') = t.poll_shutdown io cx in (r, tls io')

  poll_write_vectored :
      Transport IO TlsStream → Cx → List (List ℕ) → Poll (Result IoError ℕ) × Transport IO TlsStream
  poll_write_vectored (plain io) cx bufs =
      let (r, io') = p.poll_write_vectored io cx bufs in (r, plain io')
  poll_write_vectored (tls io) cx bufs =
      let (r, io') = t.poll_write_vectored io cx bufs in (r, tls io')

  is_write_vectored : Transport IO TlsStream → Bool
  is_write_vectored (plain io) = p.is_write_vectored io
  is_write_vectored (tls io) = t.is_write_vectored io

  -- `impl AsyncRead for Transport`, `impl AsyncWrite for Transport`
  unfoldable pub transport_io : AsyncIo Cx (Transport IO TlsStream)
  unfolding poll_read poll_write poll_flush poll_shutdown poll_write_vectored is_write_vectored
  transport_io = record {
    poll_read = poll_read;
    poll_write = poll_write;
    poll_flush = poll_flush;
    poll_shutdown = poll_shutdown;
    poll_write_vectored = poll_write_vectored;
    is_write_vectored = is_write_vectored;
  }
