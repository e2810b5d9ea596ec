-- ===== src/Session/Fields.antt =====
-- xnet/session.go: what a new session holds, and how its index counts.
use fabrica_net.Base.{ℕ, zero, suc, ◌+◌, ◌%◌, ◌^◌, ◌<◌, List, [], ◌∷◌, ℤ, pos, ◌≡◌, refl, ap, arith}
use fabrica_net.Session.{
  Cryptor, un_cryptor, IndexInfo, new_index_info, Session, SessionOption, with_sid, with_conn_id,
  with_encryptor, with_start_time, with_cs_index, apply_option, apply_options, default_session,
  new_session, increase, increase_cs_index, increase_times,
}

-- The last option of each kind, or what is given.
abbrev pub last_sid : List SessionOption → ℤ → ℤ
last_sid [] d = d
last_sid (with_sid sid ∷ os) d = last_sid os sid
last_sid (o ∷ os) d = last_sid os d

abbrev pub last_conn_id : List SessionOption → ℕ → ℕ
last_conn_id [] d = d
last_conn_id (with_conn_id id ∷ os) d = last_conn_id os id
last_conn_id (o ∷ os) d = last_conn_id os d

abbrev pub last_encryptor : List SessionOption → Cryptor → Cryptor
last_encryptor [] d = d
last_encryptor (with_encryptor c ∷ os) d = last_encryptor os c
last_encryptor (o ∷ os) d = last_encryptor os d

abbrev pub last_start_time : List SessionOption → ℤ → ℤ
last_start_time [] d = d
last_start_time (with_start_time t ∷ os) d = last_start_time os t
last_start_time (o ∷ os) d = last_start_time os d

abbrev pub last_cs_index : List SessionOption → IndexInfo → IndexInfo
last_cs_index [] d = d
last_cs_index (with_cs_index i ∷ os) d = last_cs_index os (new_index_info i)
last_cs_index (o ∷ os) d = last_cs_index os d

apply_options-last :
    (opts : List SessionOption) (s : Session)
    → apply_options opts s ≡ record s {
      cryptor = last_encryptor opts s.cryptor;
      sid = last_sid opts s.sid;
      conn_id = last_conn_id opts s.conn_id;
      start_time = last_start_time opts s.start_time;
      cs_index = last_cs_index opts s.cs_index;
    }
unfolding apply_options apply_option
apply_options-last [] s = refl
apply_options-last (with_sid sid ∷ os) s = apply_options-last os (record s { sid = sid })
apply_options-last (with_conn_id id ∷ os) s = apply_options-last os (record s { conn_id = id })
apply_options-last (with_encryptor c ∷ os) s = apply_options-last os (record s { cryptor = c })
apply_options-last (with_start_time t ∷ os) s = apply_options-last os (record s { start_time = t })
apply_options-last (with_cs_index i ∷ os) s =
    apply_options-last os (record s { cs_index = new_index_info i })

-- A new session has the user, the color and the status that it is made with, whatever its options, and
-- of each option the last one given: without one, no server id, no connection id, no cryptor, the time
-- it is made at, and an index of 0.
pub new_session-last :
    (now uid : ℤ) (color : List ℕ) (status : ℤ) (opts : List SessionOption)
    → new_session now uid color status opts ≡ record {
      cryptor = last_encryptor opts un_cryptor;
      uid = uid;
      sid = last_sid opts (pos 0);
      conn_id = last_conn_id opts 0;
      color = color;
      status = status;
      client_ip = [];
      start_time = last_start_time opts now;
      cs_index = last_cs_index opts (new_index_info 0);
    }
unfolding new_session default_session
new_session-last now uid color status opts =
    ap (λ (s : Session). record s { uid = uid; color = color; status = status })
      (apply_options-last opts (default_session now))

increase_times-index :
    (n : ℕ) (s : Session)
    → s.cs_index.index < 2 ^ 32
    → (increase_times n s).cs_index.index ≡ (s.cs_index.index + n) % 2 ^ 32
unfolding increase_times increase_cs_index increase
increase_times-index zero s h = omega arith
increase_times-index (suc n) s h =
    omega (arith, increase_times-index n (increase_cs_index s).1 (omega arith))

-- The index of a session that starts at an int32 `i` and is increased `n` times is `i + n`, wrapped
-- around as an int32.
pub index_counts :
    (now uid : ℤ) (color : List ℕ) (status : ℤ) (i n : ℕ)
    → i < 2 ^ 32
    → (increase_times n (new_session now uid color status (with_cs_index i ∷ []))).cs_index.index
      ≡ (i + n) % 2 ^ 32
unfolding new_session apply_options apply_option
index_counts now uid color status i n h =
    increase_times-index n (new_session now uid color status (with_cs_index i ∷ [])) h
