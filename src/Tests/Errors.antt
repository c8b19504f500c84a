-- ===== src/Tests/Errors.antt =====
-- Errors that the accept loop meets (src/error.rs).
use hyper_server.Prelude.{◌≡◌, ◌↔◌}
use hyper_server.Errors.{ErrorKind, io}
use hyper_server.Errors.Accept.{
  handle_accept_error, continues, IsNonFatalIo, handle_accept_error-continues_iff,
}
use hyper_server.Tests.Fixtures.{error_of}

handle_accept_error-continues_iff_example :
    (handle_accept_error io (error_of ErrorKind.would_block) ≡ continues)
    ↔ IsNonFatalIo (io (error_of ErrorKind.would_block))
handle_accept_error-continues_iff_example =
    handle_accept_error-continues_iff io (error_of ErrorKind.would_block)
