-- ===== src/Buffer/Ints.antt =====
-- Integers in a buffer: what is peeked at and what is read.
use native.Mathlib.Nat.{pow-suc}
use bounce.Prelude.{
  ℕ, zero, suc, ◌+◌, ◌/◌, ◌^◌, ◌≤◌, ◌<◌, ◌≡◌, refl, ap, ◌∙◌, inl, inr, List, [], ◌++◌, arith,
  length, take, drop, ltb, leb, if◌then◌else◌, Bool-cases, length-append, drop-ge_length,
  take-append_le, take-ge_length, true, false,
}
use bounce.Prelude.Words.{add_size, max_size, to_bytes, from_bytes}
use bounce.Buffer.{Buffer, readable_bytes, peek_int, append, write_int, read_int}
use bounce.Buffer.Inv.{IsValid, contents, length-contents, readable_bytes-contents}
use bounce.Buffer.Append.{Appends, append-Appends}
use bounce.Buffer.Refine.{Takes, take_window, advanced-Takes}

pub length-to_bytes : (k n : ℕ) → length (to_bytes k n) ≡ k
unfolding to_bytes
length-to_bytes zero n = refl
length-to_bytes (suc k) n = ap suc (length-to_bytes k (n / 256))

-- The bytes of an integer of `k` bytes stand for it.
pub from_bytes-to_bytes : (k n : ℕ) → n < 256 ^ k → from_bytes (to_bytes k n) ≡ n
unfolding from_bytes to_bytes
from_bytes-to_bytes zero n h = omega arith
from_bytes-to_bytes (suc k) n h =
    omega (arith, from_bytes-to_bytes k (n / 256) (omega (arith, pow-suc 256 k)))

-- A peek sees the first bytes of the queue, or answers 0 if there are too few.
pub peek_int-contents :
    {b : Buffer} (k : ℕ)
    → IsValid b
    → k ≤ 8
    → peek_int k b ≡ (if leb k (length (contents b)) then from_bytes (take k (contents b)) else 0)
unfolding peek_int
peek_int-contents {b} k v h = elim (Bool-cases (leb k (length (contents b)))) [
  | inl enough ↦ rw (enough, fits enough) (ap from_bytes (take_window k v (ground arith)))
  | inr short ↦ rw (short, too_few short) refl
]
  where
    fits : leb k (length (contents b)) ≡ true → ltb b.write_index (add_size b.read_index k) ≡ false
    fits e = ground (arith, length-contents v, v)

    too_few :
        leb k (length (contents b)) ≡ false → ltb b.write_index (add_size b.read_index k) ≡ true
    too_few e = ground (arith, length-contents v, v)

-- An integer written to an empty buffer is what a peek sees, whatever is appended after it.
pub peek_int-write_int :
    {b : Buffer} (k n : ℕ) (rest : List ℕ)
    → IsValid b
    → contents b ≡ []
    → k ≤ 8
    → n < 256 ^ k
    → length b.buffer + k + length rest ≤ max_size
    → peek_int k (append rest (write_int k n b)) ≡ n
unfolding write_int
peek_int-write_int {b} k n rest v e hk hn fits =
    peek_int-contents k after.valid hk
    ∙ rw (whole) (
        rw (long_enough) (
          ap from_bytes (
            take-append_le k (to_bytes k n) rest (omega (arith, length-to_bytes k n))
            ∙ take-ge_length k (to_bytes k n) (omega (arith, length-to_bytes k n)))
          ∙ from_bytes-to_bytes k n hn))
  where
    first : Appends (to_bytes k n) b (append (to_bytes k n) b)
    first = append-Appends (to_bytes k n) v (omega (arith, length-to_bytes k n))

    after : Appends rest (append (to_bytes k n) b) (append rest (append (to_bytes k n) b))
    after = append-Appends rest first.valid (omega (arith, length-to_bytes k n, first.growth))

    whole : contents (append rest (append (to_bytes k n) b)) ≡ to_bytes k n ++ rest
    whole = after.queue ∙ ap (λ q. q ++ rest) (first.queue ∙ ap (λ q. q ++ to_bytes k n) e)

    long_enough : leb k (length (to_bytes k n ++ rest)) ≡ true
    long_enough = ground (arith, length-append (to_bytes k n) rest, length-to_bytes k n)

-- `readInt8` and its like advance first and then peek, so they return the integer behind the one
-- that they take off.
pub read_int_lem :
    {b : Buffer} (size step : ℕ)
    → IsValid b
    → size ≤ 8
    → step ≤ size
    → size ≤ length (contents b)
    → ((read_int size step b).0 ≡ peek_int size (read_int size step b).1)
      × Takes step b (read_int size step b).1
      × ((read_int size step b).0 ≡ (
          if leb size (length (drop step (contents b)))
          then from_bytes (take size (drop step (contents b)))
          else 0))
unfolding read_int
read_int_lem {b} size step v h hs enough = rw long_enough (
  refl,
  taken,
  peek_int-contents size taken.valid h
      ∙ ap (λ q. if leb size (length q) then from_bytes (take size q) else 0) taken.queue,
)
  where
    long_enough : ltb (readable_bytes b) size ≡ false
    long_enough = ground (arith, readable_bytes-contents v)

    taken : Takes step b (record b { read_index = add_size b.read_index step })
    taken = advanced-Takes step v (omega arith)

-- With fewer bytes than the integer has, a read returns 0 and leaves the buffer.
pub read_int-short :
    {b : Buffer} (size step : ℕ)
    → IsValid b
    → length (contents b) < size
    → read_int size step b ≡ (0, b)
unfolding read_int
read_int-short {b} size step v h = rw short refl
  where
    short : ltb (readable_bytes b) size ≡ true
    short = ground (arith, readable_bytes-contents v)

-- An `int8_t` or `int16_t` that is alone in the buffer is therefore lost: whatever was written,
-- the read returns 0 and leaves nothing.
pub read_int-write_int :
    {b : Buffer} (k n : ℕ)
    → IsValid b
    → contents b ≡ []
    → 0 < k
    → k ≤ 8
    → length b.buffer + k ≤ max_size
    → ((read_int k k (write_int k n b)).0 ≡ 0) × (contents (read_int k k (write_int k n b)).1 ≡ [])
unfolding write_int
read_int-write_int {b} k n v e pos_k hk fits =
    (read.2 ∙ rw nothing_left (rw none_fits refl), read.1.queue ∙ nothing_left)
  where
    first : Appends (to_bytes k n) b (append (to_bytes k n) b)
    first = append-Appends (to_bytes k n) v (omega (arith, length-to_bytes k n))

    whole : contents (append (to_bytes k n) b) ≡ to_bytes k n
    whole = first.queue ∙ ap (λ q. q ++ to_bytes k n) e

    length-whole : length (contents (append (to_bytes k n) b)) ≡ k
    length-whole = rw whole (length-to_bytes k n)

    nothing_left : drop k (contents (append (to_bytes k n) b)) ≡ []
    nothing_left =
        drop-ge_length k (contents (append (to_bytes k n) b)) (omega (arith, length-whole))

    none_fits : leb k 0 ≡ false
    none_fits = ground arith

    read :
        ((read_int k k (append (to_bytes k n) b)).0
          ≡ peek_int k (read_int k k (append (to_bytes k n) b)).1)
        × Takes k (append (to_bytes k n) b) (read_int k k (append (to_bytes k n) b)).1
        × ((read_int k k (append (to_bytes k n) b)).0 ≡ (
            if leb k (length (drop k (contents (append (to_bytes k n) b))))
            then from_bytes (take k (drop k (contents (append (to_bytes k n) b))))
            else 0))
    read = read_int_lem k k first.valid hk (omega arith) (omega (arith, length-whole))
