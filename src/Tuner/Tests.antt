-- ===== src/Tuner/Tests.antt =====
-- kcp/util/config.go: the theorem on tuning at the default configuration of conf/conf.go.
use fabrica_net.Base.{true, false, none, [], ◌∷◌, ◌≡◌, refl}
use fabrica_net.Tuner.{
  Loss, validate, new_tuner, tune_config, tuner_calls, add_rtt, update_packet_loss,
}
use fabrica_net.Conf.{default_kcp, moba_kcp}
use fabrica_net.Tuner.Valid.{tuned_is_valid}

default_is_valid : validate default_kcp ≡ none
unfolding validate
default_is_valid = refl

moba_is_valid : validate (moba_kcp default_kcp) ≡ none
unfolding validate
moba_is_valid = refl

abbrev lossy : Loss
lossy = record { above_5_percent = true; below_1_percent = false }

tuned_is_valid_example :
    validate
      (tune_config
        (tuner_calls (add_rtt 200000000 ∷ update_packet_loss lossy ∷ []) (new_tuner default_kcp 0))
        40000000000).0
    ≡ none
tuned_is_valid_example =
    tuned_is_valid default_kcp 0 40000000000 (add_rtt 200000000 ∷ update_packet_loss lossy ∷ [])
      default_is_valid
