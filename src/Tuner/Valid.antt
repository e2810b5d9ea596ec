-- ===== src/Tuner/Valid.antt =====
-- kcp/util/config.go: what the validator accepts, and that tuning keeps to it.
use fabrica_net.Base.{
  ℕ, ◌-◌, ◌*◌, ◌/◌, true, ◌&&◌, none, List, [], ◌∷◌, ltb, ℤ, pos, negsuc, ◌+ℤ◌, ◌-ℤ◌, ltb_ℤ, leb_ℤ,
  length, Bool-cases, inl, inr, ◌≡◌, refl, arith,
}
use fabrica_net.Conf.{Kcp}
use fabrica_net.Tuner.{
  validate, SmuxConfig, create_smux_config, Tuner, new_tuner, add_rtt_sample, tune_rtt, tune_loss,
  tune_throughput, tune_config, reset, TunerCall, add_rtt, update_packet_loss, update_throughput,
  tune, reset_at, tuner_call, tuner_calls, sum, Loss, high_latency, low_latency, min_int, max_int,
  millisecond,
}

-- The conditions of `Validate`.
pub record IsConfig (c : Kcp) : Type 0 where
  pub mtu_low : leb_ℤ (pos 576) c.mtu ≡ true
  pub mtu_high : leb_ℤ c.mtu (pos 1500) ≡ true
  pub data_low : leb_ℤ (pos 0) c.data_shards ≡ true
  pub data_high : leb_ℤ c.data_shards (pos 255) ≡ true
  pub parity_low : leb_ℤ (pos 0) c.parity_shards ≡ true
  pub parity_high : leb_ℤ c.parity_shards (pos 255) ≡ true
  pub send : ltb_ℤ (pos 0) c.send_window ≡ true
  pub receive : ltb_ℤ (pos 0) c.receive_window ≡ true
  pub stream : ltb_ℤ (pos 0) c.smux_stream_size ≡ true
  pub interval : ltb_ℤ (pos 0) c.keep_alive_interval ≡ true
  pub timeout : ltb_ℤ c.keep_alive_interval c.keep_alive_timeout ≡ true

accepted→IsConfig : (c : Kcp) → validate c ≡ none → IsConfig c
unfolding validate
accepted→IsConfig c e = record {
  mtu_low = ground arith;
  mtu_high = ground arith;
  data_low = ground arith;
  data_high = ground arith;
  parity_low = ground arith;
  parity_high = ground arith;
  send = ground arith;
  receive = ground arith;
  stream = ground arith;
  interval = ground arith;
  timeout = ground arith;
}

IsConfig→accepted : (c : Kcp) → IsConfig c → validate c ≡ none
unfolding validate
IsConfig→accepted c v =
    let a = v.mtu_low in
    let b = v.mtu_high in
    let d = v.data_low in
    let f = v.data_high in
    let g = v.parity_low in
    let h = v.parity_high in
    let i = v.send in
    let j = v.receive in let k = v.stream in let l = v.interval in let m = v.timeout in ground arith

-- What the tuner changes, within the bounds.
changed :
    (c : Kcp) (delays : List ℤ) (s r m p : ℤ)
    → IsConfig c
    → (ltb_ℤ (pos 0) s ≡ true) × (ltb_ℤ (pos 0) r ≡ true)
    → (leb_ℤ (pos 576) m ≡ true) × (leb_ℤ m (pos 1500) ≡ true)
    → (leb_ℤ (pos 0) p ≡ true) × (leb_ℤ p (pos 255) ≡ true)
    → IsConfig (record c {
      no_delay = delays;
      send_window = s;
      receive_window = r;
      mtu = m;
      parity_shards = p;
    })
changed c delays s r m p v w x y = record {
  mtu_low = x.0;
  mtu_high = x.1;
  data_low = v.data_low;
  data_high = v.data_high;
  parity_low = y.0;
  parity_high = y.1;
  send = w.0;
  receive = w.1;
  stream = v.stream;
  interval = v.interval;
  timeout = v.timeout;
}

high_latency-IsConfig : (c : Kcp) → IsConfig c → IsConfig (high_latency c)
high_latency-IsConfig c v =
    changed c _ (pos 512) (pos 512) c.mtu c.parity_shards v (refl, refl) (v.mtu_low, v.mtu_high)
      (v.parity_low, v.parity_high)

low_latency-IsConfig : (c : Kcp) → IsConfig c → IsConfig (low_latency c)
low_latency-IsConfig c v =
    changed c _ (pos 128) (pos 128) c.mtu c.parity_shards v (refl, refl) (v.mtu_low, v.mtu_high)
      (v.parity_low, v.parity_high)

tune_rtt-IsConfig : (samples : List ℕ) (c : Kcp) → IsConfig c → IsConfig (tune_rtt samples c)
unfolding tune_rtt
tune_rtt-IsConfig samples c v = elim (Bool-cases (ltb 0 (length samples))) [
  | inr n ↦ rw (n, tune_rtt) v
  | inl y ↦ elim (Bool-cases (ltb (100 * millisecond) (sum samples / length samples))) [
    | inl a ↦ rw (y, tune_rtt, a) (high_latency-IsConfig c v)
    | inr a ↦ elim (Bool-cases (ltb (sum samples / length samples) (20 * millisecond))) [
      | inl b ↦ rw (y, tune_rtt, a, b) (low_latency-IsConfig c v)
      | inr b ↦ rw (y, tune_rtt, a, b) v
    ]
  ]
]

with_parity :
    (c : Kcp) (p : ℤ)
    → IsConfig c
    → leb_ℤ (pos 0) p ≡ true
    → leb_ℤ p (pos 255) ≡ true
    → IsConfig (record c { parity_shards = p })
with_parity c p v h k =
    changed c c.no_delay c.send_window c.receive_window c.mtu p v (v.send, v.receive)
      (v.mtu_low, v.mtu_high) (h, k)

more_parity :
    (p : ℤ)
    → leb_ℤ (pos 0) p ≡ true
    → (leb_ℤ (pos 0) (min_int (p +ℤ pos 1) (pos 5)) ≡ true)
      × (leb_ℤ (min_int (p +ℤ pos 1) (pos 5)) (pos 255) ≡ true)
unfolding ◌+ℤ◌
more_parity (pos n) h = (ground arith, ground arith)
more_parity (negsuc n) h = absurd (ground arith)

less_parity :
    (p : ℤ)
    → leb_ℤ (pos 0) p ≡ true
    → leb_ℤ p (pos 255) ≡ true
    → (leb_ℤ (pos 0) (max_int (p -ℤ pos 1) (pos 1)) ≡ true)
      × (leb_ℤ (max_int (p -ℤ pos 1) (pos 1)) (pos 255) ≡ true)
unfolding ◌-ℤ◌
less_parity (pos n) h k = (ground arith, ground arith)
less_parity (negsuc n) h k = absurd (ground arith)

tune_loss-IsConfig : (loss : Loss) (c : Kcp) → IsConfig c → IsConfig (tune_loss loss c)
unfolding tune_loss
tune_loss-IsConfig loss c v = elim (Bool-cases loss.above_5_percent) [
  | inl y ↦ elim (Bool-cases (ltb_ℤ (pos 0) c.data_shards && ltb_ℤ c.parity_shards (pos 5))) [
    | inl a ↦
        let m = more_parity c.parity_shards v.parity_low in
        rw (y, tune_loss, a) (with_parity c _ v m.0 m.1)
    | inr a ↦ rw (y, tune_loss, a) v
  ]
  | inr n ↦ elim (Bool-cases loss.below_1_percent) [
    | inl y ↦ elim (Bool-cases (ltb_ℤ (pos 1) c.parity_shards)) [
      | inl a ↦
          let m = less_parity c.parity_shards v.parity_low v.parity_high in
          rw (n, tune_loss, y, a) (with_parity c _ v m.0 m.1)
      | inr a ↦ rw (n, tune_loss, y, a) v
    ]
    | inr y ↦ rw (n, tune_loss, y) v
  ]
]

tune_throughput-IsConfig : (n : ℕ) (c : Kcp) → IsConfig c → IsConfig (tune_throughput n c)
unfolding tune_throughput
tune_throughput-IsConfig n c v = elim (Bool-cases (ltb (10 * 1024 * 1024) n)) [
  | inl y ↦
      rw (y, tune_throughput)
        (changed c c.no_delay (pos 512) (pos 512) (pos 1400) c.parity_shards v (refl, refl)
          (refl, refl) (v.parity_low, v.parity_high))
  | inr y ↦ rw (y, tune_throughput) v
]

abbrev pub IsTuned : Tuner → Type 0
IsTuned t = IsConfig t.base_config × IsConfig t.current_config

tune_config-IsTuned :
    (t : Tuner) (now : ℕ)
    → IsTuned t
    → IsConfig (tune_config t now).0 × IsTuned (tune_config t now).1
unfolding tune_config
tune_config-IsTuned t now v =
    let tuned =
      tune_throughput-IsConfig t.throughput _
        (tune_loss-IsConfig t.packet_loss _ (tune_rtt-IsConfig t.rtt_samples t.base_config v.0)) in
    elim (Bool-cases (ltb (now - t.last_tuned) t.tuning_interval)) [
      | inl y ↦ rw (y, tune_config) (v.1, v)
      | inr n ↦ rw (n, tune_config) (tuned, (v.0, tuned))
    ]

tuner_call-IsTuned : (c : TunerCall) (t : Tuner) → IsTuned t → IsTuned (tuner_call c t)
unfolding tuner_call add_rtt_sample reset
tuner_call-IsTuned (add_rtt rtt) t v = v
tuner_call-IsTuned (update_packet_loss loss) t v = v
tuner_call-IsTuned (update_throughput n) t v = v
tuner_call-IsTuned (tune now) t v = (tune_config-IsTuned t now v).1
tuner_call-IsTuned (reset_at now) t v = (v.0, v.0)

tuner_calls-IsTuned : (cs : List TunerCall) (t : Tuner) → IsTuned t → IsTuned (tuner_calls cs t)
unfolding tuner_calls
tuner_calls-IsTuned [] t v = v
tuner_calls-IsTuned (c ∷ cs) t v =
    tuner_calls-IsTuned cs (tuner_call c t) (tuner_call-IsTuned c t v)

-- From a base configuration that the validator accepts, and after every history of samples, updates,
-- tunings and resets, the validator accepts what `TuneConfig` returns.
pub tuned_is_valid :
    (base : Kcp) (start now : ℕ) (cs : List TunerCall)
    → validate base ≡ none
    → validate (tune_config (tuner_calls cs (new_tuner base start)) now).0 ≡ none
unfolding new_tuner
tuned_is_valid base start now cs e =
    let v = accepted→IsConfig base e in
    let t = tuner_calls-IsTuned cs (new_tuner base start) (v, v) in
    IsConfig→accepted _ (tune_config-IsTuned _ now t).0

-- What a configuration that the validator accepts makes of a smux session: the time between its
-- keep-alives is positive, and shorter than its time-out.
pub create_smux_config-alive :
    (default : SmuxConfig) (c : Kcp)
    → validate c ≡ none
    → let s = create_smux_config default c in
      (ltb_ℤ (pos 0) s.keep_alive_interval ≡ true)
      × (ltb_ℤ s.keep_alive_interval s.keep_alive_timeout ≡ true)
unfolding create_smux_config
create_smux_config-alive default c e = let v = accepted→IsConfig c e in (v.interval, v.timeout)
