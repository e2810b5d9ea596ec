-- ===== src/Session.antt =====
-- xnet/session.go: a session and its options; xnet/crypto.go: its cryptor; `Keys`: xnet/ecdh.go. The AES
-- cipher is another package's, and a parameter.
pub mod Fields
pub mod Keys
mod Tests
use fabrica_net.Base.{
  ℕ, zero, suc, ◌+◌, ◌-◌, ◌*◌, ◌%◌, ◌^◌, ◌<◌, Bool, true, false, Option, none, some, List, [], ◌∷◌,
  ltb, if◌then◌else◌, ℤ, pos, negsuc,
}

-- `Encrypt` and `Decrypt` of an AES cipher; none is an error.
pub record Cipher : Type 0 where
  pub encrypt_aes : List ℕ → Option (List ℕ)
  pub decrypt_aes : List ℕ → Option (List ℕ)

pub data Cryptor : Type 0 where
  with_aes : Cipher → Cryptor
  un_cryptor : Cryptor

pub is_crypto : Cryptor → Bool
is_crypto (with_aes c) = true
is_crypto un_cryptor = false

unfoldable pub encrypt : Cryptor → List ℕ → Option (List ℕ)
encrypt (with_aes c) bs = c.encrypt_aes bs
encrypt un_cryptor bs = some bs

unfoldable pub decrypt : Cryptor → List ℕ → Option (List ℕ)
decrypt (with_aes c) bs = c.decrypt_aes bs
decrypt un_cryptor bs = some bs

-- An int32 as its bit pattern.
pub record IndexInfo : Type 0 where
  pub start : ℕ
  pub index : ℕ

abbrev pub new_index_info : ℕ → IndexInfo
new_index_info start = record { start = start; index = start }

-- `index.Add(1)`
pub increase : IndexInfo → ℕ × IndexInfo
increase i = let n = (i.index + 1) % 2 ^ 32 in (n, record i { index = n })

pub record Session : Type 0 where
  pub cryptor : Cryptor
  pub uid : ℤ
  pub sid : ℤ
  pub conn_id : ℕ
  pub color : List ℕ
  pub status : ℤ
  pub client_ip : List ℕ
  pub start_time : ℤ
  pub cs_index : IndexInfo

-- `time.Now().Unix()` is given.
pub default_session : ℤ → Session
default_session now = record {
  cryptor = un_cryptor;
  uid = pos 0;
  sid = pos 0;
  conn_id = 0;
  color = [];
  status = pos 0;
  client_ip = [];
  start_time = now;
  cs_index = new_index_info 0;
}

pub data SessionOption : Type 0 where
  with_sid : ℤ → SessionOption
  with_conn_id : ℕ → SessionOption
  with_encryptor : Cryptor → SessionOption
  with_start_time : ℤ → SessionOption
  with_cs_index : ℕ → SessionOption

pub apply_option : SessionOption → Session → Session
apply_option (with_sid sid) s = record s { sid = sid }
apply_option (with_conn_id id) s = record s { conn_id = id }
apply_option (with_encryptor c) s = record s { cryptor = c }
apply_option (with_start_time t) s = record s { start_time = t }
apply_option (with_cs_index i) s = record s { cs_index = new_index_info i }

pub apply_options : List SessionOption → Session → Session
unfolding apply_option
apply_options [] s = s
apply_options (o ∷ os) s = apply_options os (apply_option o s)

pub new_session : ℤ → ℤ → List ℕ → ℤ → List SessionOption → Session
unfolding apply_options default_session
new_session now uid color status opts = record (apply_options opts (default_session now)) {
  uid = uid;
  color = color;
  status = status;
}

-- `IncreaseCSIndex`
pub increase_cs_index : Session → ℕ × Session
unfolding increase
increase_cs_index s = let (n, i) = increase s.cs_index in (n, record s { cs_index = i })

-- So many calls of it.
pub increase_times : ℕ → Session → Session
unfolding increase_cs_index
increase_times zero s = s
increase_times (suc n) s = increase_times n (increase_cs_index s).1
