-- ===== src/Net/Tests.antt =====
-- internal/listener.go and client/option.go: the theorems on ids at small ones.
use fabrica_net.Base.{ℕ, ◌≡◌, refl, arith}
use fabrica_net.Net.{new_conn_id_generator, next, nth_id}
use fabrica_net.Net.Ids.{conn_ids_differ}

third_of_kcp : nth_id 2 (new_conn_id_generator 2) ≡ 50
unfolding nth_id next new_conn_id_generator
third_of_kcp = refl

conn_ids_differ_example : (◌≡◌ {A = ℕ} 2 2) × (◌≡◌ {A = ℕ} 2 2)
conn_ids_differ_example =
    conn_ids_differ 2 2 2 2 (omega arith) (omega arith) (omega arith) (omega arith) refl
