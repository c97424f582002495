-- ===== src/Programs/BufferTest/Passes.antt =====
-- That the test of texts passes, and what its texts are.
use bounce.Prelude.{
  ℕ, zero, suc, ◌+◌, ◌%◌, ◌≤◌, ◌≡◌, refl, ap, ap₂, ◌∙◌, true, ◌&&◌, List, [], ◌∷◌, ◌++◌, arith,
  length, ◌==◌, ==_refl, length-replicate,
}
use bounce.Prelude.Words.{max_size}
use bounce.Buffer
use bounce.Buffer.{
  Buffer, append, append_string, readable_bytes, read_as_string, read_all_as_string,
}
use bounce.Buffer.Inv.{IsValid, contents, readable_bytes-contents}
use bounce.Buffer.Append.{append-Appends, Appends}
use bounce.Buffer.Refine.{read_all_as_string_lem}
use bounce.Programs.BufferTest.{c_str, is_same, streq, append_and_read, dictionary_at, rand_string}

is_same_refl : (text : List ℕ) → is_same text text ≡ true
is_same_refl [] = refl
is_same_refl (c ∷ text) = rw (==_refl c, is_same_refl text) refl

streq_refl : (text : List ℕ) → streq text text ≡ true
unfolding streq
streq_refl text = is_same_refl (c_str text)

init-IsValid : (size : ℕ) → size ≤ max_size → IsValid (Buffer.init size)
unfolding Buffer.init
init-IsValid size h = record {
  ordered = omega arith;
  within = omega arith;
  bounded = omega (arith, length-replicate {A = ℕ} size 0);
}

length-init : (size : ℕ) → length (Buffer.init size).buffer ≡ size
unfolding Buffer.init
length-init size = length-replicate size 0

contents-init : (size : ℕ) → contents (Buffer.init size) ≡ []
unfolding Buffer.init
contents-init size = refl

-- The test of texts passes for any text, NUL bytes included, and any size of a new buffer, where both
-- together fit a vector.
pub append_and_read_lem :
    (size : ℕ) (str : List ℕ) → size + length str ≤ max_size → append_and_read size str ≡ true
unfolding append_and_read append_string read_all_as_string
append_and_read_lem size str room =
    ap₂ (λ n text. n == length str && streq text str && n == length str && streq text str) all back
    ∙ rw (==_refl (length str), streq_refl str) refl
  where
    start : IsValid (Buffer.init size)
    start = init-IsValid size (omega (arith, room))

    filled : Appends str (Buffer.init size) (append str (Buffer.init size))
    filled = append-Appends str start (omega (arith, room, length-init size))

    queued : contents (append str (Buffer.init size)) ≡ str
    queued = filled.queue ∙ ap (λ l. l ++ str) (contents-init size)

    all : readable_bytes (append str (Buffer.init size)) ≡ length str
    all = readable_bytes-contents filled.valid ∙ ap length queued

    back : (read_all_as_string (append str (Buffer.init size))).0 ≡ str
    back = (read_all_as_string_lem filled.valid).0 ∙ queued

-- The texts of the tests have `len` bytes, the last of which is NUL.
rand_string_lem :
    (rand : ℕ → ℕ) (i n : ℕ)
    → (text : List ℕ) × (rand_string rand i n ≡ text ++ 0 ∷ []) × (length text ≡ n)
unfolding rand_string
rand_string_lem rand i zero = ([], refl, refl)
rand_string_lem rand i (suc n) =
    let (text, same, size) = rand_string_lem rand (suc i) n in
    (
      dictionary_at (rand i % 62) ∷ text,
      ap (λ l. dictionary_at (rand i % 62) ∷ l) same,
      ap suc size,
    )
