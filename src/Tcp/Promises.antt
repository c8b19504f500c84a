-- ===== src/Tcp/Promises.antt =====
-- What a client of `serve_tcp_incoming` can rely on (src/tcp.rs).
use hyper_server.Prelude.{◌<◌, ◌≡◌, Result, err, some, List, ◌∷◌, ◌++◌, length, All}
use hyper_server.Stream.{Arrival, item, items, items-append, drain}
use hyper_server.Errors.{BoxError}
use hyper_server.Errors.Accept.{handle_accept_error, breaks}
use hyper_server.Tcp.{serve_tcp_incoming}
use hyper_server.Tcp.Demux.{
  oks, IsFatal, accepted, accepted-append, accepted-fatal_error, oks-accepted, accepted-IsFatal,
  drain-serve_tcp_incoming,
}

module _ {ℓ κ μ} {IO : Type ℓ} {IE : Type κ} {Cx : Type μ} (into : IE → BoxError)
    (cxs : List Cx) where
  -- Polled once more than the incoming stream has arrivals, or oftener, the stream ends without a
  -- panic; it has yielded every connection, in order, and besides them only errors that are fatal.
  pub serve_tcp_incoming_keeps_connections :
      (incoming : List (Arrival (Result IE IO)))
      → length incoming < length cxs
      → (served : List (Result BoxError IO)) × (drain
            (λ s _. serve_tcp_incoming into s)
            cxs
            incoming
          ≡ some served)
        × (oks served ≡ oks (items incoming))
        × All IsFatal served
  serve_tcp_incoming_keeps_connections incoming h = (
    accepted into (items incoming),
    drain-serve_tcp_incoming into cxs incoming h,
    oks-accepted into (items incoming),
    accepted-IsFatal into (items incoming),
  )

  -- A fatal error does not end the stream: it is yielded, and so is what comes after it.
  pub fatal_error_does_not_end :
      (before after : List (Arrival (Result IE IO))) (e : IE) (b : BoxError)
      → handle_accept_error into e ≡ breaks b
      → length (before ++ item (err e) ∷ after) < length cxs
      → drain (λ s _. serve_tcp_incoming into s) cxs (before ++ item (err e) ∷ after)
        ≡ some (accepted into (items before) ++ err b ∷ accepted into (items after))
  fatal_error_does_not_end before after e b fatal h = rw (
    drain-serve_tcp_incoming into cxs (before ++ item (err e) ∷ after) h,
    items-append before (item (err e) ∷ after),
    accepted-append into (items before) (err e ∷ items after),
    accepted-fatal_error into e b (items after) fatal,
  )
