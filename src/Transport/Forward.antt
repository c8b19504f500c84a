-- ===== src/Transport/Forward.antt =====
-- Sessions over a `Transport` and over the stream in it (src/io.rs).
use hyper_server.Prelude.{ℕ, Bool, Result, List, [], ◌∷◌, ◌≡◌, refl}
use hyper_server.Future.{Poll}
use hyper_server.Errors.{IoError}
use hyper_server.Transport.{ReadBuf, AsyncIo, plain, tls, new_plain, new_tls, transport_io}

pub data Call : Type 0 where
  reads : ReadBuf → Call
  writes : List ℕ → Call
  writes_vectored : List (List ℕ) → Call
  flushes shuts_down asks_vectored : Call

pub data Reply : Type 0 where
  did_read : Poll (Result IoError (Unit {0})) → ReadBuf → Reply
  wrote : Poll (Result IoError ℕ) → Reply
  finished : Poll (Result IoError (Unit {0})) → Reply
  is_vectored : Bool → Reply

module _ {ℓ κ} {Cx : Type κ} {S : Type ℓ} (stream : AsyncIo Cx S) where
  abbrev pub call : S → Cx → Call → Reply × S
  call s cx (reads buf) = let (r, s', buf') = stream.poll_read s cx buf in (did_read r buf', s')
  call s cx (writes bytes) = let (r, s') = stream.poll_write s cx bytes in (wrote r, s')
  call s cx (writes_vectored bufs) =
      let (r, s') = stream.poll_write_vectored s cx bufs in (wrote r, s')
  call s cx flushes = let (r, s') = stream.poll_flush s cx in (finished r, s')
  call s cx shuts_down = let (r, s') = stream.poll_shutdown s cx in (finished r, s')
  call s cx asks_vectored = (is_vectored (stream.is_write_vectored s), s)

  -- The replies of a sequence of calls, and the stream after them.
  unfoldable pub session : S → List (Cx × Call) → List Reply × S
  session s [] = ([], s)
  session s ((cx, c) ∷ cs) =
      let (r, s') = call s cx c in let (rs, s'') = session s' cs in (r ∷ rs, s'')

module _ {ℓ κ μ} {Cx : Type μ} {IO : Type ℓ} {TlsStream : Type κ} (p : AsyncIo Cx IO)
    (t : AsyncIo Cx TlsStream) where
  call-plain :
      (io : IO) (cx : Cx) (c : Call)
      → call (transport_io p t) (plain io) cx c ≡ ((call p io cx c).0, plain (call p io cx c).1)
  unfolding transport_io
  call-plain io cx (reads buf) = refl
  call-plain io cx _ = refl

  call-tls :
      (io : TlsStream) (cx : Cx) (c : Call)
      → call (transport_io p t) (tls io) cx c ≡ ((call t io cx c).0, tls (call t io cx c).1)
  unfolding transport_io
  call-tls io cx (reads buf) = refl
  call-tls io cx _ = refl

  session-plain :
      (io : IO) (cs : List (Cx × Call))
      → session (transport_io p t) (plain io) cs ≡ ((session p io cs).0, plain (session p io cs).1)
  unfolding session
  session-plain io [] = refl
  session-plain io ((cx, c) ∷ cs) =
      rw (call-plain io cx c) (rw (session-plain (call p io cx c).1 cs))

  session-tls :
      (io : TlsStream) (cs : List (Cx × Call))
      → session (transport_io p t) (tls io) cs ≡ ((session t io cs).0, tls (session t io cs).1)
  unfolding session
  session-tls io [] = refl
  session-tls io ((cx, c) ∷ cs) = rw (call-tls io cx c) (rw (session-tls (call t io cx c).1 cs))

  -- Any sequence of reads, writes, flushes and shutdowns on a transport, plain or TLS, has the replies
  -- of the same calls on the stream in it, and leaves that stream in the same state.
  pub session-transport :
      (io : IO) (tls_stream : TlsStream) (cs : List (Cx × Call))
      → (session (transport_io p t) (new_plain io) cs
          ≡ ((session p io cs).0, plain (session p io cs).1))
        × (session (transport_io p t) (new_tls tls_stream) cs
            ≡ ((session t tls_stream cs).0, tls (session t tls_stream cs).1))
  session-transport io tls_stream cs = (session-plain io cs, session-tls tls_stream cs)
