-- ===== src/Conf/Tests.antt =====
-- conf/conf.go: the two configurations.
use fabrica_net.Base.{ℕ, ◌*◌, pos, ◌≡◌, refl}
use fabrica_net.Conf.{default_config, moba_config}

-- Both have two accepting loops for each processor.
accept_loops :
    (cpus : ℕ)
    → ((default_config cpus).worker.worker_size ≡ pos (cpus * 2))
      × ((moba_config cpus).worker.worker_size ≡ pos (cpus * 2))
unfolding default_config moba_config
accept_loops cpus = (refl, refl)
