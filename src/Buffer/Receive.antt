-- ===== src/Buffer/Receive.antt =====
-- `readFd`: where the bytes that `readv` delivers end up.
use bounce.Prelude.{
  ℕ, zero, suc, ◌+◌, ◌^◌, ◌≤◌, ◌<◌, ◌≡◌, refl, ap, ap₂, ◌∙◌, false, [], ◌∷◌, take-nil, drop-nil,
  inl, inr, List, ◌++◌, arith, length, take, drop, ltb, Bool-cases, length-take, length-drop,
  length-overwrite, take-ge_length, take-append-drop, none, some, overwrite,
}
use mathlib.Core.List.{append_assoc}
use bounce.Prelude.Int.{pos, negsuc}
use bounce.Prelude.Words.{add_size, max_size}
use bounce.Buffer.{Buffer, received, failed, writeable_bytes, append, put, read_fd}
use bounce.Buffer.Inv.{IsValid, contents, writeable_bytes-eq, put-IsValid, contents-put, length-put}
use bounce.Buffer.Append.{Appends, append-Appends}

module _ {b : Buffer} (bytes : List ℕ) (v : IsValid b) where
  -- `readv` put all the bytes into the storage.
  short-Appends :
      length bytes < writeable_bytes b
      → Appends bytes b (record b {
        buffer = overwrite b.buffer b.write_index (take (writeable_bytes b) bytes);
        write_index = add_size b.write_index (length bytes);
      })
  unfolding put
  short-Appends h = rw (take-ge_length (writeable_bytes b) bytes (omega arith)) (record {
    valid = put-IsValid bytes v (omega (arith, writeable_bytes-eq v));
    queue = contents-put bytes v (omega (arith, writeable_bytes-eq v));
    growth = omega (arith, length-overwrite b.buffer b.write_index bytes);
  })

  -- It filled the storage, and the rest went to the stack.
  head : List ℕ
  head = take (writeable_bytes b) bytes

  full : Buffer
  unfolding head
  full = record b {
    buffer = overwrite b.buffer b.write_index head;
    write_index = length (overwrite b.buffer b.write_index head);
  }

  full-eq-put : writeable_bytes b ≤ length bytes → full ≡ put head b
  unfolding full put
  full-eq-put h =
      ap (λ k. record b { buffer = overwrite b.buffer b.write_index head; write_index = k })
        (omega (
          arith,
          length-overwrite b.buffer b.write_index head,
          length-take (writeable_bytes b) bytes,
          writeable_bytes-eq v,
        ))

  full-Appends : writeable_bytes b ≤ length bytes → Appends head b full
  unfolding head
  full-Appends h = rw (full-eq-put h) (record {
    valid = put-IsValid head v fits;
    queue = contents-put head v fits;
    growth = omega (arith, length-put head b);
  })
    where
      fits : b.write_index + length head ≤ length b.buffer
      fits = omega (arith, length-take (writeable_bytes b) bytes, writeable_bytes-eq v, v)

  spilled-Appends :
      writeable_bytes b ≤ length bytes
      → length b.buffer + length bytes ≤ max_size
      → Appends bytes b (append (drop (writeable_bytes b) bytes) full)
  unfolding head
  spilled-Appends h fits = record {
    valid = rest.valid;
    queue =
        rest.queue
        ∙ ap (λ q. q ++ drop (writeable_bytes b) bytes) (full-Appends h).queue
        ∙ append_assoc (contents b) head (drop (writeable_bytes b) bytes)
        ∙ ap (λ q. contents b ++ q) (take-append-drop (writeable_bytes b) bytes);
    growth = omega (arith, rest.growth, length-drop (writeable_bytes b) bytes, length-full);
  }
    where
      length-full : length full.buffer ≡ length b.buffer
      length-full = rw (full-eq-put h) (length-put head b)

      rest :
          Appends
            (drop (writeable_bytes b) bytes)
            full
            (append (drop (writeable_bytes b) bytes) full)
      rest =
          append-Appends (drop (writeable_bytes b) bytes) (full-Appends h).valid
            (omega (arith, length-drop (writeable_bytes b) bytes, length-full))

  -- `readFd` queues exactly the bytes received, wherever `readv` put them, and returns their number.
  pub read_fd-Appends :
      length b.buffer + length bytes ≤ max_size
      → Appends bytes b (read_fd b (received bytes)).0
        × ((read_fd b (received bytes)).1 ≡ pos (length bytes))
        × ((read_fd b (received bytes)).2 ≡ none)
  unfolding read_fd full
  read_fd-Appends fits = elim (Bool-cases (ltb (length bytes) (writeable_bytes b))) [
    | inl short ↦ (rw short (short-Appends (ground arith)), refl, refl)
    | inr long ↦ (rw long (spilled-Appends (ground arith) fits), refl, refl)
  ]

-- After a failure the buffer is as it was, -1 is returned and the errno is stored.
pub read_fd-failed : (b : Buffer) (e : ℕ) → read_fd b (failed e) ≡ (b, negsuc 0, some e)
unfolding read_fd
read_fd-failed b e = refl

overwrite-nil : (xs : List ℕ) (i : ℕ) → overwrite xs i [] ≡ xs
overwrite-nil [] i = refl
overwrite-nil (x ∷ xs) zero = refl
overwrite-nil (x ∷ xs) (suc i) = ap (λ l. x ∷ l) (overwrite-nil xs i)

append_nothing : (c : Buffer) → c.write_index < 2 ^ 64 → append [] c ≡ c
unfolding append put
append_nothing c h =
    rw (never (writeable_bytes c), append)
      (ap₂ (λ l (k : ℕ). record c { buffer = l; write_index = k })
        (overwrite-nil c.buffer c.write_index) (omega arith))
  where
    never : (n : ℕ) → ltb n 0 ≡ false
    never n = ground arith

no_room : (n : ℕ) → ltb 0 n ≡ false → n ≡ 0
no_room n h = ground arith

-- At the end of a stream the buffer is as it was.
pub read_fd-end : (b : Buffer) → IsValid b → read_fd b (received []) ≡ (b, pos 0, none)
unfolding read_fd
read_fd-end b v = elim (Bool-cases (ltb 0 (writeable_bytes b))) [
  | inl room ↦
      rw (room, read_fd)
        (ap (λ c. (c, pos 0, none)) (same (take-nil (writeable_bytes b)) (omega arith)))
  | inr no_space ↦
      rw (no_space, read_fd)
        (ap (λ c. (c, pos 0, none))
          (ap₂ append (drop-nil (writeable_bytes b))
              (same (take-nil (writeable_bytes b)) (at_end no_space))
            ∙ append_nothing b (omega arith)))
]
  where
    same :
        {src : List ℕ} {k : ℕ}
        → src ≡ []
        → k ≡ b.write_index
        → record b { buffer = overwrite b.buffer b.write_index src; write_index = k } ≡ b
    same e e' =
        ap₂ (λ s (k : ℕ). record b { buffer = overwrite b.buffer b.write_index s; write_index = k })
          e e'
        ∙ ap (λ l. record b { buffer = l }) (overwrite-nil b.buffer b.write_index)

    at_end :
        ltb 0 (writeable_bytes b) ≡ false
        → length (overwrite b.buffer b.write_index (take (writeable_bytes b) [])) ≡ b.write_index
    at_end no_space =
        length-overwrite b.buffer b.write_index (take (writeable_bytes b) [])
        ∙ omega (arith, no_room (writeable_bytes b) no_space, writeable_bytes-eq v)
