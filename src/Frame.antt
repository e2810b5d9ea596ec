-- ===== src/Frame.antt =====
-- What the three codecs share: xnet/service.go's limits, the length prefix, and what they use of
-- `bufio`, `io` and the buffer pool. A byte is a number below 256.
-- A `Reader` is a `bufio.Reader` on a connection: what it has buffered, and what the connection's
-- reads will still deliver, in order, before the end of the stream.
pub mod Prefix
pub mod Reading
mod Samples
pub mod Tcp
pub mod Kcp
pub mod Ws
pub mod Init
mod Tests
use fabrica_net.Base.{
  ℕ, zero, suc, ◌+◌, ◌-◌, ◌*◌, ◌/◌, ◌%◌, ◌^◌, ◌≤◌, ◌<◌, Bool, true, false, Option, none, some, List,
  [], ◌∷◌, ◌++◌, ℤ, pos, negsuc, leb, ltb, if◌then◌else◌, length, take, drop, ◌≡◌,
}

-- `MaxPackSize`, 1 << 14.
abbrev pub max_pack_size : ℕ
max_pack_size = 2 ^ 14

-- `int32(len(pack))`, as the bit pattern of its four bytes.
abbrev pub int32_of : ℕ → ℕ
int32_of n = n % 2 ^ 32

-- `binary.Write(w, binary.BigEndian, …)` of an int32.
unfoldable pub put_int32 : ℕ → List ℕ
put_int32 w = w / 2 ^ 24 % 256 ∷ w / 2 ^ 16 % 256 ∷ w / 2 ^ 8 % 256 ∷ w % 256 ∷ []

-- The number that a bit pattern stands for.
abbrev pub signed32 : ℕ → ℤ
signed32 w = if ltb w (2 ^ 31) then pos w else negsuc (2 ^ 32 - w - 1)

-- `binary.Read` of an int32, from the four bytes that it reads.
unfoldable pub get_int32 : List ℕ → ℤ
get_int32 (a ∷ b ∷ c ∷ d ∷ rest) = signed32 (a * 2 ^ 24 + b * 2 ^ 16 + c * 2 ^ 8 + d)
get_int32 other = pos 0

pub record Reader : Type 0 where
  pub buffered : List ℕ
  pub incoming : List (List ℕ)

-- `io.ReadFull` of `n` bytes; `none` if the stream ends before.
pub read_full_from : ℕ → List ℕ → List (List ℕ) → Option (List ℕ × Reader)
read_full_from n buffered [] =
    if leb n (length buffered)
    then some (take n buffered, record { buffered = drop n buffered; incoming = [] })
    else none
read_full_from n buffered (chunk ∷ incoming) =
    let more = read_full_from n (buffered ++ chunk) incoming in
    if leb n (length buffered)
    then some (take n buffered, record { buffered = drop n buffered; incoming = chunk ∷ incoming })
    else more

pub read_full : ℕ → Reader → Option (List ℕ × Reader)
unfolding read_full_from
read_full n r = read_full_from n r.buffered r.incoming

pub data FrameError : Type 0 where
  read_len_failed invalid_pack_len read_pack_failed short_read : FrameError
  write_len_failed write_pack_failed short_write flush_failed : FrameError

-- The pool of buffers as the codecs see it (`ringpool.Pool`): all they rely on is that `Alloc` returns
-- a slice of the length asked for.
pub record BufferPool : Type 1 where
  pub State : Type 0
  pub Buffer : Type 0
  pub len : Buffer → ℕ
  pub cap_of : Buffer → ℕ
  pub alloc : State → ℕ → Buffer × State
  pub free : State → Buffer → State
  pub len-alloc : (s : State) (n : ℕ) → 0 < n → len (alloc s n).0 ≡ n

-- `bufio.Writer`: a write may pass some of what is pending on to the connection, and a flush passes
-- on all of it. `none` is an error of the connection.
pub record BufferedWriter : Type 1 where
  pub Writer : Type 0
  pub sent : Writer → List ℕ
  pub pending : Writer → List ℕ
  pub write : Writer → List ℕ → Option (ℕ × Writer)
  pub flush : Writer → Option Writer
  pub write_lem :
      (w : Writer) (bs : List ℕ) (n : ℕ) (w' : Writer)
      → write w bs ≡ some (n, w')
      → (n ≡ length bs) × (sent w' ++ pending w' ≡ (sent w ++ pending w) ++ bs)
  pub flush_lem :
      (w w' : Writer) → flush w ≡ some w' → (sent w' ≡ sent w ++ pending w) × (pending w' ≡ [])
