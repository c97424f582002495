-- ===== src/Buffer/Append.antt =====
-- `make_space` and `append` of a valid buffer.
use bounce.Prelude.{
  ℕ, ◌+◌, ◌≤◌, ◌≡◌, ap, ◌∙◌, inl, inr, false, List, ◌++◌, arith, length, ltb, Bool-cases,
}
use bounce.Prelude.Words.{add_size, max_size}
use bounce.Buffer.{Buffer, writeable_bytes, resize, compact, enlarge, make_space, append}
use bounce.Buffer.Inv.{
  IsValid, contents, writeable_bytes-eq, put-IsValid, contents-put, length-put, Keeps,
  resized-Keeps, Keeps-refl, compact-Keeps, length-compact, length-resize,
}

-- `makeSpace` made room for `len` bytes.
pub record MakesRoom (len : ℕ) (b c : Buffer) : Type 0 where
  pub keeps : Keeps b c
  pub room : c.write_index + len ≤ length c.buffer
  pub growth : length c.buffer ≤ length b.buffer + len

enlarge-MakesRoom :
    {b : Buffer} (len : ℕ)
    → IsValid b
    → length b.buffer + len ≤ max_size
    → MakesRoom len b (enlarge len b)
unfolding enlarge
enlarge-MakesRoom {b} len v h = elim (Bool-cases (ltb (writeable_bytes b) len)) [
  | inl short ↦
      rw (short, enlarge)
        (record {
          keeps = resized-Keeps len v h;
          room = omega (arith, grown);
          growth = omega (arith, grown);
        })
  | inr fits ↦
      rw (fits, enlarge)
        (record {
          keeps = Keeps-refl v;
          room = ground (arith, writeable_bytes-eq v);
          growth = omega arith;
        })
]
  where
    grown : length (resize (add_size (length b.buffer) len) b.buffer) ≡ length b.buffer + len
    grown = omega (arith, length-resize (add_size (length b.buffer) len) b.buffer (omega arith))

pub make_space-MakesRoom :
    {b : Buffer} (len : ℕ)
    → IsValid b
    → length b.buffer + len ≤ max_size
    → MakesRoom len b (make_space len b)
unfolding make_space
make_space-MakesRoom {b} len v h = record {
  keeps = record {
    valid = after.keeps.valid;
    same = after.keeps.same ∙ (compact-Keeps v).same;
    fewer = omega (arith, compact-Keeps v, after);
  };
  room = after.room;
  growth = omega (arith, length-compact b, after);
}
  where
    after : MakesRoom len (compact b) (enlarge len (compact b))
    after = enlarge-MakesRoom len (compact-Keeps v).valid (omega (arith, length-compact b))

-- What a call that appends `src` does to a valid buffer.
pub record Appends (src : List ℕ) (b c : Buffer) : Type 0 where
  pub valid : IsValid c
  pub queue : contents c ≡ contents b ++ src
  pub growth : length c.buffer ≤ length b.buffer + length src

-- `append` keeps the invariant, puts the bytes behind those that are there, also where it has to
-- move or enlarge the storage, and lets the storage grow by no more than their number.
pub append-Appends :
    {b : Buffer} (src : List ℕ)
    → IsValid b
    → length b.buffer + length src ≤ max_size
    → Appends src b (append src b)
unfolding append
append-Appends {b} src v h = elim (Bool-cases (ltb (writeable_bytes b) (length src))) [
  | inl short ↦
      let made = make_space-MakesRoom (length src) v h in
      rw (short, append)
        (record {
          valid = put-IsValid src made.keeps.valid made.room;
          queue = contents-put src made.keeps.valid made.room ∙ ap (λ q. q ++ src) made.keeps.same;
          growth = omega (arith, length-put src (make_space (length src) b), made);
        })
  | inr fits ↦
      let room = fits_in fits in
      rw (fits, append)
        (record {
          valid = put-IsValid src v room;
          queue = contents-put src v room;
          growth = omega (arith, length-put src b);
        })
]
  where
    fits_in :
        ltb (writeable_bytes b) (length src) ≡ false → b.write_index + length src ≤ length b.buffer
    fits_in e = ground (arith, writeable_bytes-eq v)
