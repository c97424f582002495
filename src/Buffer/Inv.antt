-- ===== src/Buffer/Inv.antt =====
-- The representation invariant of a buffer, and what the parts of `append` do under it.
use bounce.Prelude.{
  ℕ, ◌+◌, ◌-◌, ◌/◌, ◌≤◌, ◌≡◌, refl, ap, ◌∙◌, inl, inr, List, ◌++◌, arith, length, take, drop,
  replicate, overwrite, ltb, Bool-cases, length-append, length-take, length-drop, length-replicate,
  length-overwrite, take-overwrite, take-append_le, drop-append_le, take-ge_length, take-drop,
}
use bounce.Prelude.Words.{add_size, sub_size, max_size}
use bounce.Buffer.{Buffer, readable_bytes, writeable_bytes, resize, compact, put}

pub record IsValid (b : Buffer) : Type 0 where
  pub ordered : b.read_index ≤ b.write_index
  pub within : b.write_index ≤ length b.buffer
  pub bounded : length b.buffer ≤ max_size

-- The bytes that are written and not yet read.
abbrev pub contents : Buffer → List ℕ
contents b = drop b.read_index (take b.write_index b.buffer)

pub length-contents : {b : Buffer} → IsValid b → length (contents b) ≡ b.write_index - b.read_index
length-contents {b} v = omega (
  arith,
  length-drop b.read_index (take b.write_index b.buffer),
  length-take b.write_index b.buffer,
)

pub readable_bytes-contents : {b : Buffer} → IsValid b → readable_bytes b ≡ length (contents b)
unfolding readable_bytes
readable_bytes-contents v = omega (arith, length-contents v)

pub writeable_bytes-eq :
    {b : Buffer} → IsValid b → writeable_bytes b ≡ length b.buffer - b.write_index
unfolding writeable_bytes
writeable_bytes-eq v = omega arith

-- `put` where the bytes fit.
pub put-IsValid :
    {b : Buffer} (src : List ℕ)
    → IsValid b
    → b.write_index + length src ≤ length b.buffer
    → IsValid (put src b)
unfolding put
put-IsValid {b} src v h = record {
  ordered = omega arith;
  within = omega (arith, length-overwrite b.buffer b.write_index src);
  bounded = omega (arith, length-overwrite b.buffer b.write_index src);
}

pub contents-put :
    {b : Buffer} (src : List ℕ)
    → IsValid b
    → b.write_index + length src ≤ length b.buffer
    → contents (put src b) ≡ contents b ++ src
unfolding put
contents-put {b} src v h =
    ap (drop b.read_index) (
      take-overwrite b.buffer b.write_index src (add_size b.write_index (length src)) (omega arith)
        (omega arith))
    ∙ drop-append_le b.read_index (take b.write_index b.buffer) src
        (omega (arith, length-take b.write_index b.buffer))

pub length-put : (src : List ℕ) (b : Buffer) → length (put src b).buffer ≡ length b.buffer
unfolding put
length-put src b = length-overwrite b.buffer b.write_index src

-- What a change of the storage keeps.
pub record Keeps (b c : Buffer) : Type 0 where
  pub valid : IsValid c
  pub same : contents c ≡ contents b
  pub fewer : c.write_index ≤ b.write_index

-- `compact` where it moves the data.
moved-Keeps :
    {b : Buffer}
    → IsValid b
    → Keeps b (record b {
      buffer =
          overwrite b.buffer 0 (take (b.write_index - b.read_index) (drop b.read_index b.buffer));
      write_index = sub_size b.write_index b.read_index;
      read_index = 0;
    })
moved-Keeps {b} v = record {
  valid = record {
    ordered = omega arith;
    within = omega (arith, length-overwrite b.buffer 0 window);
    bounded = omega (arith, length-overwrite b.buffer 0 window);
  };
  same = take-overwrite b.buffer 0 window _ (omega (arith, length-window)) (omega arith) ∙ slides;
  fewer = omega arith;
}
  where
    window : List ℕ
    window = take (b.write_index - b.read_index) (drop b.read_index b.buffer)

    slides : window ≡ contents b
    slides =
        take-drop (b.write_index - b.read_index) b.read_index b.buffer b.write_index (omega arith)

    length-window : length window ≡ b.write_index - b.read_index
    length-window = omega (
      arith,
      length-take (b.write_index - b.read_index) (drop b.read_index b.buffer),
      length-drop b.read_index b.buffer,
    )

pub Keeps-refl : {b : Buffer} → IsValid b → Keeps b b
Keeps-refl v = record { valid = v; same = refl; fewer = omega arith }

pub compact-Keeps : {b : Buffer} → IsValid b → Keeps b (compact b)
unfolding compact
compact-Keeps {b} v = elim (Bool-cases (ltb (b.init_size / 2) b.read_index)) [
  | inl far ↦ rw (far, compact) (moved-Keeps v)
  | inr near ↦ rw (near, compact) (Keeps-refl v)
]

pub length-compact : (b : Buffer) → length (compact b).buffer ≡ length b.buffer
unfolding compact
length-compact b = ground (
  arith,
  length-overwrite b.buffer 0 (take (b.write_index - b.read_index) (drop b.read_index b.buffer)),
)

pub length-resize : (n : ℕ) (bytes : List ℕ) → length bytes ≤ n → length (resize n bytes) ≡ n
length-resize n bytes h = omega (
  arith,
  length-append (take n bytes) (replicate (n - length bytes) 0),
  length-take n bytes,
  length-replicate {0} {A = ℕ} (n - length bytes) 0,
)

pub resized-Keeps :
    {b : Buffer} (len : ℕ)
    → IsValid b
    → length b.buffer + len ≤ max_size
    → Keeps b (record b { buffer = resize (add_size (length b.buffer) len) b.buffer })
resized-Keeps {b} len v h = record {
  valid = record {
    ordered = omega arith;
    within = omega (arith, length-resize (add_size (length b.buffer) len) b.buffer (omega arith));
    bounded = omega (arith, length-resize (add_size (length b.buffer) len) b.buffer (omega arith));
  };
  same = ap (drop b.read_index) (
      rw (take-ge_length (add_size (length b.buffer) len) b.buffer (omega arith))
        (take-append_le b.write_index b.buffer _ (omega arith)));
  fewer = omega arith;
}
