-- ===== src/Frame/Prefix.antt =====
-- The length prefix of all three codecs, and the test of a length that they share.
use fabrica_net.Base.{
  ℕ, ◌≤◌, ◌<◌, Bool, false, ◌||◌, List, ◌++◌, ℤ, pos, leb_ℤ, ltb_ℤ, length, ◌≡◌, refl, ap, arith,
}
use fabrica_net.Frame.{max_pack_size, int32_of, put_int32, get_int32, signed32}

-- `packLen <= 0 || packLen > MaxPackSize`
unfoldable pub refuses : ℤ → Bool
refuses n = leb_ℤ n (pos 0) || ltb_ℤ (pos max_pack_size) n

-- Reading back what was written gives the int32 with these low bits.
pub get_int32-put_int32 :
    (n : ℕ) (rest : List ℕ) → get_int32 (put_int32 (int32_of n) ++ rest) ≡ signed32 (int32_of n)
unfolding put_int32 get_int32
get_int32-put_int32 n rest = ap signed32 (omega arith)

pub length-put_int32 : (w : ℕ) → length (put_int32 w) ≡ 4
unfolding put_int32
length-put_int32 w = refl

pub accepts : (n : ℕ) → 0 < n → n ≤ max_pack_size → refuses (signed32 (int32_of n)) ≡ false
unfolding refuses
accepts n h k = ground arith

pub signed-of_small : (n : ℕ) → n ≤ max_pack_size → signed32 (int32_of n) ≡ pos n
signed-of_small n h = ground arith
