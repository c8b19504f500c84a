-- ===== src/Tests/Sessions.antt =====
-- A session over a mock stream (src/io.rs, and the mock of src/tcp.rs).
use hyper_server.Prelude.{◌≡◌, ok, some, List, [], ◌∷◌}
use hyper_server.Transport.{plain, tls, new_plain, new_tls, transport_io}
use hyper_server.Transport.Forward.{
  Call, reads, writes, writes_vectored, flushes, shuts_down, asks_vectored, session,
  session-transport,
}
use hyper_server.Tests.MockIo.{MockIo, mock_io}

abbrev fresh : MockIo
fresh = record { read_result = some (ok tt); write_result = some (ok 5) }

abbrev calls : List (Unit {0} × Call)
calls =
    (tt, writes (104 ∷ 105 ∷ []))
    ∷ (tt, writes_vectored ([] ∷ (104 ∷ []) ∷ []))
    ∷ (tt, reads (record { filled = []; capacity = 8 }))
    ∷ (tt, asks_vectored)
    ∷ (tt, flushes)
    ∷ (tt, shuts_down)
    ∷ []

session-transport_example :
    (session (transport_io mock_io mock_io) (new_plain fresh) calls
      ≡ ((session mock_io fresh calls).0, plain (session mock_io fresh calls).1))
    × (session (transport_io mock_io mock_io) (new_tls fresh) calls
        ≡ ((session mock_io fresh calls).0, tls (session mock_io fresh calls).1))
session-transport_example = session-transport mock_io mock_io fresh fresh calls
