-- ===== src/Session/Tests.antt =====
-- xnet/session.go: the index of a session at its last int32 bit pattern.
use fabrica_net.Base.{pos, [], ◌∷◌, ◌≡◌, refl}
use fabrica_net.Session.{
  new_session, with_cs_index, increase, increase_cs_index, increase_times, apply_option,
  apply_options, default_session,
}

wraps :
    (increase_times 2
      (new_session (pos 0) (pos 7) [] (pos 1) (with_cs_index 4294967295 ∷ []))).cs_index.index
    ≡ 1
unfolding new_session increase increase_cs_index increase_times apply_option apply_options
    default_session
wraps = refl
