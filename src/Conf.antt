-- ===== src/Conf.antt =====
-- conf/conf.go: the configuration of servers and clients. A duration is a number of nanoseconds, an
-- int64; `runtime.NumCPU()` is given.
mod Tests
use fabrica_net.Base.{ℕ, ◌*◌, ◌^◌, Bool, true, false, List, [], ◌∷◌, ℤ, pos}

pub record Tcp : Type 0 where
  pub keep_alive : Bool
  pub write_buf_size : ℤ
  pub read_buf_size : ℤ

-- `WindowSize` is the pair of its last two fields.
pub record Kcp : Type 0 where
  pub write_buf_size : ℤ
  pub read_buf_size : ℤ
  pub data_shards : ℤ
  pub parity_shards : ℤ
  pub no_delay : List ℤ  -- nodelay, interval, resend, nc
  pub send_window : ℤ
  pub receive_window : ℤ
  pub mtu : ℤ
  pub ack_no_delay : Bool
  pub write_delay : Bool
  pub dscp : ℤ
  pub smux : Bool
  pub smux_stream_size : ℤ
  pub keep_alive_interval : ℤ
  pub keep_alive_timeout : ℤ
  pub max_frame_size : ℤ
  pub max_receive_buffer : ℤ

pub record Worker : Type 0 where
  pub worker_size : ℤ
  pub reply_chan_size : ℤ
  pub handshake_timeout : ℤ
  pub request_idle_timeout : ℤ
  pub stop_timeout : ℤ
  pub tunnel_group_size : ℤ
  pub tick_interval : ℤ

pub record WebSocket : Type 0 where
  pub read_buf_size : ℤ
  pub write_buf_size : ℤ
  pub allow_origins : List (List ℕ)
  pub read_timeout : ℤ
  pub write_timeout : ℤ

pub record Config : Type 0 where
  pub worker : Worker
  pub bucket_size : ℤ  -- the only field of `Bucket`
  pub websocket : WebSocket
  pub tcp : Tcp
  pub kcp : Kcp

abbrev pub second : ℕ
second = 10 ^ 9

abbrev pub default_worker : ℕ → Worker
default_worker cpus = record {
  worker_size = pos (cpus * 2);
  reply_chan_size = pos 1024;
  handshake_timeout = pos (second * 10);
  request_idle_timeout = pos (second * 60);
  stop_timeout = pos (second * 3);
  tunnel_group_size = pos 32;
  tick_interval = pos (second * 10);
}

abbrev pub default_websocket : WebSocket
default_websocket = record {
  read_buf_size = pos 8192;
  write_buf_size = pos 8192;
  allow_origins = (b'*' ∷ []) ∷ [];
  read_timeout = pos (second * 5);
  write_timeout = pos (second * 5);
}

abbrev pub default_tcp : Tcp
default_tcp = record { keep_alive = true; write_buf_size = pos 8192; read_buf_size = pos 8192 }

abbrev pub default_kcp : Kcp
default_kcp = record {
  write_buf_size = pos 8192;
  read_buf_size = pos 8192;
  data_shards = pos 10;
  parity_shards = pos 3;
  no_delay = pos 1 ∷ pos 10 ∷ pos 2 ∷ pos 1 ∷ [];
  send_window = pos 128;
  receive_window = pos 128;
  mtu = pos 1400;
  ack_no_delay = true;
  write_delay = false;
  dscp = pos 46;
  smux = true;
  smux_stream_size = pos 4;
  keep_alive_interval = pos (10 * second);
  keep_alive_timeout = pos (30 * second);
  max_frame_size = pos 4096;
  max_receive_buffer = pos (4 * 1024 * 1024);
}

-- `Default`
unfoldable pub default_config : ℕ → Config
default_config cpus = record {
  worker = default_worker cpus;
  bucket_size = pos 256;
  websocket = default_websocket;
  tcp = default_tcp;
  kcp = default_kcp;
}

abbrev pub moba_kcp : Kcp → Kcp
moba_kcp c = record c {
  write_buf_size = pos 16384;
  read_buf_size = pos 16384;
  data_shards = pos 8;
  parity_shards = pos 2;
  no_delay = pos 1 ∷ pos 5 ∷ pos 2 ∷ pos 1 ∷ [];
  send_window = pos 256;
  receive_window = pos 256;
  mtu = pos 1200;
  keep_alive_interval = pos (5 * second);
  keep_alive_timeout = pos (15 * second);
  max_frame_size = pos 2048;
  max_receive_buffer = pos (8 * 1024 * 1024);
}

abbrev pub moba_worker : Worker → Worker
moba_worker c = record c {
  reply_chan_size = pos 2048;
  handshake_timeout = pos (5 * second);
  request_idle_timeout = pos (30 * second);
  stop_timeout = pos (5 * second);
  tunnel_group_size = pos 64;
  tick_interval = pos (5 * second);
}

-- `MOBAConfig`
pub moba_config : ℕ → Config
unfolding default_config
moba_config cpus =
    let config = default_config cpus in
    record config { kcp = moba_kcp config.kcp; worker = moba_worker config.worker }
