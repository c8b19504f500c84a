-- ===== src/Deploy/Settings.antt =====
-- The settings of the HTTP connection builder and of the listening socket
-- (examples/tower_service_fn.rs, benches/hello_world_tower_hyper_tls_tcp.rs).
use hyper_server.Prelude.{ℕ, ◌*◌, Bool, true, false, Option, some, List, [], ◌∷◌}

-- One call of the builder; those after `http1` or `http2` are of that protocol. A duration is in
-- seconds.
pub data Setting : Type 0 where
  http1 http2 tokio_timer enable_connect_protocol : Setting
  half_close keep_alive pipeline_flush preserve_header_case title_case_headers : Bool → Setting
  max_buf_size max_send_buf_size max_header_list_size : ℕ → Setting
  adaptive_window : Bool → Setting
  initial_stream_window_size initial_connection_window_size : Option ℕ → Setting
  max_frame_size max_concurrent_streams keep_alive_interval : Option ℕ → Setting
  keep_alive_timeout : ℕ → Setting

-- The builder of the example.
abbrev pub example_builder : List Setting
example_builder =
    http1
    ∷ half_close true
    ∷ keep_alive true
    ∷ max_buf_size (1024 * 1024)
    ∷ pipeline_flush true
    ∷ preserve_header_case true
    ∷ title_case_headers false
    ∷ http2
    ∷ tokio_timer
    ∷ initial_stream_window_size (some (4 * 1024 * 1024))
    ∷ initial_connection_window_size (some (8 * 1024 * 1024))
    ∷ adaptive_window true
    ∷ max_frame_size (some (1024 * 1024))
    ∷ max_concurrent_streams (some 1024)
    ∷ max_send_buf_size (4 * 1024 * 1024)
    ∷ enable_connect_protocol
    ∷ max_header_list_size (64 * 1024)
    ∷ keep_alive_interval (some 30)
    ∷ keep_alive_timeout 60
    ∷ []

-- The builder of the benchmark: the same calls.
abbrev pub bench_builder : List Setting
bench_builder =
    http1
    ∷ half_close true
    ∷ keep_alive true
    ∷ max_buf_size (1024 * 1024)
    ∷ pipeline_flush true
    ∷ preserve_header_case true
    ∷ title_case_headers false
    ∷ http2
    ∷ tokio_timer
    ∷ initial_stream_window_size (some (4 * 1024 * 1024))
    ∷ initial_connection_window_size (some (8 * 1024 * 1024))
    ∷ adaptive_window true
    ∷ max_frame_size (some (1024 * 1024))
    ∷ max_concurrent_streams (some 1024)
    ∷ max_send_buf_size (4 * 1024 * 1024)
    ∷ enable_connect_protocol
    ∷ max_header_list_size (64 * 1024)
    ∷ keep_alive_interval (some 30)
    ∷ keep_alive_timeout 60
    ∷ []

pub data SocketOption : Type 0 where
  send_buffer_size recv_buffer_size : ℕ → SocketOption
  nodelay reuseaddr reuseport keepalive : Bool → SocketOption

-- The options of the benchmark's socket, in order.
abbrev pub bench_socket : List SocketOption
bench_socket =
    send_buffer_size 262144
    ∷ recv_buffer_size 262144
    ∷ nodelay true
    ∷ reuseaddr true
    ∷ reuseport true
    ∷ keepalive true
    ∷ []
