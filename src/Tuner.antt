-- ===== src/Tuner.antt =====
-- kcp/util/config.go: the validation of a KCP configuration, and its tuning. A duration is a number of
-- nanoseconds.
pub mod Valid
mod Tests
use fabrica_net.Base.{
  ℕ, zero, suc, ◌+◌, ◌-◌, ◌*◌, ◌/◌, ◌^◌, ◌<◌, Bool, true, false, ◌||◌, ◌&&◌, Option, none, some,
  List, [], ◌∷◌, ◌++◌, ltb, leb, ◌==◌, if◌then◌else◌, ℤ, pos, negsuc, ◌+ℤ◌, ◌-ℤ◌, ltb_ℤ, leb_ℤ,
  length, drop,
}
use fabrica_net.Conf.{Kcp}

pub data ConfigError : Type 0 where
  invalid_mtu invalid_data_shards invalid_parity_shards invalid_window_size : ConfigError
  invalid_smux_stream_size invalid_keep_alive_interval invalid_keep_alive_timeout : ConfigError

-- `nil` is none.
pub validate : Kcp → Option ConfigError
validate c =
    if ltb_ℤ c.mtu (pos 576) || ltb_ℤ (pos 1500) c.mtu
    then some invalid_mtu
    else if ltb_ℤ c.data_shards (pos 0) || ltb_ℤ (pos 255) c.data_shards
    then some invalid_data_shards
    else if ltb_ℤ c.parity_shards (pos 0) || ltb_ℤ (pos 255) c.parity_shards
    then some invalid_parity_shards
    else if leb_ℤ c.send_window (pos 0) || leb_ℤ c.receive_window (pos 0)
    then some invalid_window_size
    else if leb_ℤ c.smux_stream_size (pos 0)
    then some invalid_smux_stream_size
    else if leb_ℤ c.keep_alive_interval (pos 0)
    then some invalid_keep_alive_interval
    else if leb_ℤ c.keep_alive_timeout c.keep_alive_interval
    then some invalid_keep_alive_timeout
    else none

-- `ConfigureConnection`, the settings in their order.
pub data Setting : Type 0 where
  sets_no_delay : List ℤ → Setting
  sets_window_size : (send receive : ℤ) → Setting
  sets_mtu : ℤ → Setting
  sets_ack_no_delay sets_write_delay : Bool → Setting

pub configure_connection : Kcp → List Setting
configure_connection c =
    sets_no_delay c.no_delay
    ∷ sets_window_size c.send_window c.receive_window
    ∷ sets_mtu c.mtu
    ∷ sets_ack_no_delay c.ack_no_delay
    ∷ sets_write_delay c.write_delay
    ∷ []

-- What `CreateSmuxConfig` sets of the default configuration of smux, which is given.
pub record SmuxConfig : Type 0 where
  pub version : ℤ
  pub keep_alive_interval : ℤ
  pub keep_alive_timeout : ℤ
  pub max_frame_size : ℤ
  pub max_receive_buffer : ℤ

pub create_smux_config : SmuxConfig → Kcp → SmuxConfig
create_smux_config default c = record default {
  version = pos 2;
  keep_alive_interval = c.keep_alive_interval;
  keep_alive_timeout = c.keep_alive_timeout;
  max_frame_size = c.max_frame_size;
  max_receive_buffer = c.max_receive_buffer;
}

abbrev pub min_int : ℤ → ℤ → ℤ
min_int a b = if ltb_ℤ a b then a else b

abbrev pub max_int : ℤ → ℤ → ℤ
max_int a b = if ltb_ℤ b a then a else b

-- A float64 is known by the tests that the tuner makes of it.
pub record Loss : Type 0 where
  pub above_5_percent : Bool
  pub below_1_percent : Bool

pub record Tuner : Type 0 where
  pub base_config : Kcp
  pub current_config : Kcp
  pub last_tuned : ℕ
  pub rtt_samples : List ℕ
  pub packet_loss : Loss
  pub throughput : ℕ
  pub max_rtt_samples : ℕ
  pub tuning_interval : ℕ

abbrev pub millisecond : ℕ
millisecond = 10 ^ 6

-- `NewAdaptiveConfigTuner` at a time.
abbrev pub no_loss : Loss
no_loss = record { above_5_percent = false; below_1_percent = true }

pub new_tuner : Kcp → ℕ → Tuner
new_tuner base now = record {
  base_config = base;
  current_config = base;
  last_tuned = now;
  rtt_samples = [];
  packet_loss = no_loss;
  throughput = 0;
  max_rtt_samples = 100;
  tuning_interval = 30000 * millisecond;
}

pub add_rtt_sample : Tuner → ℕ → Tuner
add_rtt_sample t rtt =
    let samples = t.rtt_samples ++ rtt ∷ [] in
    record t {
      rtt_samples = if ltb t.max_rtt_samples (length samples) then drop 1 samples else samples;
    }

abbrev pub sum : List ℕ → ℕ
sum [] = 0
sum (x ∷ xs) = x + sum xs

abbrev pub high_latency : Kcp → Kcp
high_latency c = record c {
  no_delay = pos 0 ∷ pos 20 ∷ pos 2 ∷ pos 0 ∷ [];
  send_window = pos 512;
  receive_window = pos 512;
}

abbrev pub low_latency : Kcp → Kcp
low_latency c = record c {
  no_delay = pos 1 ∷ pos 5 ∷ pos 2 ∷ pos 1 ∷ [];
  send_window = pos 128;
  receive_window = pos 128;
}

pub tune_rtt : List ℕ → Kcp → Kcp
tune_rtt samples c =
    let avg = sum samples / length samples in
    if ltb 0 (length samples)
    then if ltb (100 * millisecond) avg
      then high_latency c
      else if ltb avg (20 * millisecond)
      then low_latency c
      else c
    else c

pub tune_loss : Loss → Kcp → Kcp
tune_loss loss c =
    if loss.above_5_percent
    then if ltb_ℤ (pos 0) c.data_shards && ltb_ℤ c.parity_shards (pos 5)
      then record c { parity_shards = min_int (c.parity_shards +ℤ pos 1) (pos 5) }
      else c
    else if loss.below_1_percent
    then if ltb_ℤ (pos 1) c.parity_shards
      then record c { parity_shards = max_int (c.parity_shards -ℤ pos 1) (pos 1) }
      else c
    else c

pub tune_throughput : ℕ → Kcp → Kcp
tune_throughput throughput c =
    if ltb (10 * 1024 * 1024) throughput
    then record c { mtu = pos 1400; send_window = pos 512; receive_window = pos 512 }
    else c

-- `TuneConfig` at a time.
pub tune_config : Tuner → ℕ → Kcp × Tuner
unfolding tune_rtt tune_loss tune_throughput
tune_config t now =
    let new_config =
      tune_throughput t.throughput
        (tune_loss t.packet_loss (tune_rtt t.rtt_samples t.base_config)) in
    if ltb (now - t.last_tuned) t.tuning_interval
    then (t.current_config, t)
    else (new_config, record t { current_config = new_config; last_tuned = now })

pub reset : Tuner → ℕ → Tuner
reset t now = record t {
  current_config = t.base_config;
  rtt_samples = [];
  packet_loss = no_loss;
  throughput = 0;
  last_tuned = now;
}

-- The tuner's calls, at their times.
pub data TunerCall : Type 0 where
  add_rtt : (rtt : ℕ) → TunerCall
  update_packet_loss : Loss → TunerCall
  update_throughput : ℕ → TunerCall
  tune : (now : ℕ) → TunerCall
  reset_at : (now : ℕ) → TunerCall

pub tuner_call : TunerCall → Tuner → Tuner
unfolding add_rtt_sample tune_config reset
tuner_call (add_rtt rtt) t = add_rtt_sample t rtt
tuner_call (update_packet_loss loss) t = record t { packet_loss = loss }
tuner_call (update_throughput n) t = record t { throughput = n }
tuner_call (tune now) t = (tune_config t now).1
tuner_call (reset_at now) t = reset t now

pub tuner_calls : List TunerCall → Tuner → Tuner
unfolding tuner_call
tuner_calls [] t = t
tuner_calls (c ∷ cs) t = tuner_calls cs (tuner_call c t)
