-- ===== src/Frame/Reading.antt =====
-- `io.ReadFull` over a buffered connection sees the stream of bytes only, not how the network cut it.
use fabrica_net.Base.{
  ℕ, ◌≤◌, ◌<◌, none, some, Option, List, [], ◌∷◌, ◌++◌, leb, true, length, take, drop, flatten,
  take-append_le, drop-append_le, length-append, length-take, Bool-cases, inl, inr, ◌≡◌, sym, ap,
  subst, arith,
}
use mathlib.Core.List.{append-nil, append_assoc}
use fabrica_net.Frame.{Reader, read_full_from, read_full}

-- What the reader will still deliver.
abbrev pub stream : Reader → List ℕ
stream r = r.buffered ++ flatten r.incoming

-- A read of `n` bytes takes them off the stream.
pub record Reads (n : ℕ) (bytes : List ℕ) (result : Option (List ℕ × Reader)) : Type 0 where
  pub rest : Reader
  pub returned : result ≡ some (take n bytes, rest)
  pub left : stream rest ≡ drop n bytes

enough :
    (n : ℕ) (buffered : List ℕ) (incoming : List (List ℕ))
    → leb n (length buffered) ≡ true
    → Reads n
        (buffered ++ flatten incoming)
        (some (take n buffered, record { buffered = drop n buffered; incoming = incoming }))
enough n buffered incoming e = record {
  rest = record { buffered = drop n buffered; incoming = incoming };
  returned =
      ap (λ b. some (b, record { buffered = drop n buffered; incoming = incoming }))
        (sym (take-append_le n buffered (flatten incoming) (ground arith)));
  left = sym (drop-append_le n buffered (flatten incoming) (ground arith));
}

read_full_from-Reads :
    (n : ℕ) (buffered : List ℕ) (incoming : List (List ℕ))
    → n ≤ length (buffered ++ flatten incoming)
    → Reads n (buffered ++ flatten incoming) (read_full_from n buffered incoming)
unfolding read_full_from
read_full_from-Reads n buffered [] h =
    let e : leb n (length buffered) ≡ true = ground (arith, append-nil buffered) in
    rw e (enough n buffered [] e)
read_full_from-Reads n buffered (chunk ∷ incoming) h = elim (Bool-cases (leb n (length buffered))) [
  | inl e ↦ rw e (enough n buffered (chunk ∷ incoming) e)
  | inr e ↦
      let same = append_assoc buffered chunk (flatten incoming) in
      rw e (
        subst (λ bs. Reads n bs (read_full_from n (buffered ++ chunk) incoming)) same
          (read_full_from-Reads n (buffered ++ chunk) incoming (rw same h)))
]

pub read_full-Reads :
    (n : ℕ) (r : Reader) → n ≤ length (stream r) → Reads n (stream r) (read_full n r)
unfolding read_full
read_full-Reads n r h = read_full_from-Reads n r.buffered r.incoming h

read_full_from-short :
    (n : ℕ) (buffered : List ℕ) (incoming : List (List ℕ))
    → length (buffered ++ flatten incoming) < n
    → read_full_from n buffered incoming ≡ none
unfolding read_full_from
read_full_from-short n buffered [] h = ground (arith, append-nil buffered)
read_full_from-short n buffered (chunk ∷ incoming) h =
    let same = append_assoc buffered chunk (flatten incoming) in
    ground (
      arith,
      length-append buffered (chunk ++ flatten incoming),
      read_full_from-short n (buffered ++ chunk) incoming (rw same h),
    )

pub read_full-short : (n : ℕ) (r : Reader) → length (stream r) < n → read_full n r ≡ none
unfolding read_full
read_full-short n r h = read_full_from-short n r.buffered r.incoming h

read_full_from-length :
    (n : ℕ) (buffered : List ℕ) (incoming : List (List ℕ)) {bytes : List ℕ} {r : Reader}
    → read_full_from n buffered incoming ≡ some (bytes, r)
    → length bytes ≡ n
unfolding read_full_from
read_full_from-length n buffered [] e = ground (arith, length-take n buffered)
read_full_from-length n buffered (chunk ∷ incoming) {bytes} {r} e = ground (
  arith,
  length-take n buffered,
  read_full_from-length n (buffered ++ chunk) incoming {bytes = bytes} {r = r},
)

-- A read that succeeds gives as many bytes as were asked for.
pub read_full-length :
    (n : ℕ) (r : Reader) {bytes : List ℕ} {r' : Reader}
    → read_full n r ≡ some (bytes, r')
    → length bytes ≡ n
unfolding read_full
read_full-length n r e = read_full_from-length n r.buffered r.incoming e
