-- ===== src/Buffer/Refine.antt =====
-- A buffer seen as the queue of the bytes that it holds: what each way of reading takes.
use bounce.Prelude.{
  ℕ, ◌+◌, ◌≤◌, ◌≡◌, refl, sym, ap, ◌∙◌, inl, inr, [], arith, length, take, drop, ltb, ◌==◌,
  Bool-cases, ==_refl, take-ge_length, drop-ge_length, drop-drop, take-drop, take-take_le,
}
use bounce.Prelude.Words.{add_size}
use bounce.Buffer.{Buffer, readable_bytes, retrieve, read_as_string, read_all_as_string}
use bounce.Buffer.Inv.{IsValid, contents, length-contents, readable_bytes-contents}

-- What a call that takes `n` bytes leaves of a buffer.
pub record Takes (n : ℕ) (b c : Buffer) : Type 0 where
  pub valid : IsValid c
  pub queue : contents c ≡ drop n (contents b)
  pub storage : c.buffer ≡ b.buffer

pub emptied-Takes :
    {b : Buffer} (n : ℕ)
    → IsValid b
    → length (contents b) ≤ n
    → Takes n b (record b { read_index = 0; write_index = 0 })
emptied-Takes {b} n v h = record {
  valid = omega (arith, v);
  queue = sym (drop-ge_length n (contents b) h);
  storage = refl;
}

pub advanced-Takes :
    {b : Buffer} (n : ℕ)
    → IsValid b
    → n ≤ length (contents b)
    → Takes n b (record b { read_index = add_size b.read_index n })
advanced-Takes {b} n v h = record {
  valid = record { ordered = omega (arith, fits); within = v.within; bounded = v.bounded };
  queue =
      ap (λ k. drop k (take b.write_index b.buffer)) {x = add_size b.read_index n}
        (omega (arith, fits))
      ∙ sym (drop-drop n b.read_index (take b.write_index b.buffer));
  storage = refl;
}
  where
    fits : b.read_index + n ≤ b.write_index
    fits = omega (arith, length-contents v)

-- `retrieve` drops the first `len` bytes, or all of them if there are no more than `len`.
pub retrieve-Takes : {b : Buffer} (len : ℕ) → IsValid b → Takes len b (retrieve len b)
unfolding retrieve
retrieve-Takes {b} len v = elim (Bool-cases (ltb len (readable_bytes b))) [
  | inl some_left ↦
      rw (some_left, retrieve) (advanced-Takes len v (ground (arith, readable_bytes-contents v)))
  | inr all ↦ rw (all, retrieve) (emptied-Takes len v (ground (arith, readable_bytes-contents v)))
]

pub take_window :
    {b : Buffer} (n : ℕ)
    → IsValid b
    → n ≤ length (contents b)
    → take n (drop b.read_index b.buffer) ≡ take n (contents b)
take_window {b} n v h =
    take-drop n b.read_index b.buffer (b.read_index + n) refl
    ∙ ap (drop b.read_index) (
        sym (
          take-take_le (b.read_index + n) b.write_index b.buffer
            (omega (arith, length-contents v))))
    ∙ sym (take-drop n b.read_index (take b.write_index b.buffer) (b.read_index + n) refl)

-- `readAsString` returns the first `size` bytes, or all if there are fewer, and leaves the others.
pub read_as_string_lem :
    {b : Buffer} (size : ℕ)
    → IsValid b
    → ((read_as_string size b).0 ≡ take size (contents b)) × Takes size b (read_as_string size b).1
unfolding read_as_string
read_as_string_lem {b} size v = elim (Bool-cases (ltb (readable_bytes b) size)) [
  | inl short ↦
      rw (short, ==_refl (readable_bytes b))
        (
          take_window (readable_bytes b) v (omega (arith, readable_bytes-contents v))
              ∙ take-ge_length (readable_bytes b) (contents b)
                  (omega (arith, readable_bytes-contents v))
              ∙ sym (take-ge_length size (contents b) (ground (arith, readable_bytes-contents v))),
          emptied-Takes size v (ground (arith, readable_bytes-contents v)),
        )
  | inr enough ↦ rw enough (elim (Bool-cases (size == readable_bytes b)) [
    | inl all ↦
        (rw all (
          take_window size v (ground (arith, readable_bytes-contents v)),
          emptied-Takes size v (ground (arith, readable_bytes-contents v)),
        ))
    | inr part ↦
        (rw part (
          take_window size v (ground (arith, readable_bytes-contents v)),
          advanced-Takes size v (ground (arith, readable_bytes-contents v)),
        ))
  ])
]

-- `readAllAsString` returns all the bytes and leaves none.
pub read_all_as_string_lem :
    {b : Buffer}
    → IsValid b
    → ((read_all_as_string b).0 ≡ contents b)
      × (contents (read_all_as_string b).1 ≡ [])
      × IsValid (read_all_as_string b).1
      × ((read_all_as_string b).1.buffer ≡ b.buffer)
unfolding read_all_as_string
read_all_as_string_lem {b} v = (
  (read_as_string_lem (readable_bytes b) v).0
      ∙ take-ge_length (readable_bytes b) (contents b) (omega (arith, readable_bytes-contents v)),
  (read_as_string_lem (readable_bytes b) v).1.queue
      ∙ drop-ge_length (readable_bytes b) (contents b) (omega (arith, readable_bytes-contents v)),
  (read_as_string_lem (readable_bytes b) v).1.valid,
  (read_as_string_lem (readable_bytes b) v).1.storage,
)
