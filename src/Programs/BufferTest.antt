-- ===== src/Programs/BufferTest.antt =====
-- bounce/test/buffer_test.cc: the tests of the buffer, as tests into Bool. A text is its bytes, and
-- `size` is that of a new buffer.
pub mod Passes
use bounce.Prelude.{
  ℕ, zero, suc, ◌+◌, ◌-◌, ◌%◌, Bool, true, false, ◌&&◌, List, [], ◌∷◌, ◌++◌, length, ◌==◌,
  get_elem?, if◌then◌else◌, Option, none, some,
}
use bounce.Buffer.{
  Buffer, append, append_string, readable_bytes, read_as_string, read_all_as_string, write_int,
  read_int8, read_int16, read_int32,
}
use bounce.Buffer

-- The text as far as the first NUL.
unfoldable pub c_str : List ℕ → List ℕ
c_str [] = []
c_str (c ∷ text) = let rest = c_str text in if c == 0 then [] else c ∷ rest

abbrev pub is_same : List ℕ → List ℕ → Bool
is_same [] [] = true
is_same [] (d ∷ other) = false
is_same (c ∷ text) [] = false
is_same (c ∷ text) (d ∷ other) = c == d && is_same text other

-- `EXPECT_STREQ`.
unfoldable pub streq : List ℕ → List ℕ → Bool
unfolding c_str
streq text other = is_same (c_str text) (c_str other)

-- `appendAndRead`, for a text.
unfoldable pub append_and_read : ℕ → List ℕ → Bool
unfolding append_string read_as_string read_all_as_string streq
append_and_read size str =
    let buffer1 = append_string str (Buffer.init size) in
    let str1 = (read_as_string (readable_bytes buffer1) buffer1).0 in
    let buffer2 = append str (Buffer.init size) in
    let str2 = (read_all_as_string buffer2).0 in
    readable_bytes buffer1 == length str
    && streq str1 str
    && readable_bytes buffer2 == length str
    && streq str2 str

-- The test `append`, of integers.
unfoldable pub append_integers : ℕ → Bool
unfolding write_int read_int8 read_int16 read_int32
append_integers size =
    let buffer1 = write_int 4 33 (write_int 2 22 (write_int 1 11 (Buffer.init size))) in
    let (first, buffer2) = read_int8 buffer1 in
    let (second, buffer3) = read_int16 buffer2 in
    let (third, _) = read_int32 buffer3 in first == 11 && second == 22 && third == 33

-- The characters of the dictionary, the digits first.
abbrev pub string_dictionary : List ℕ
string_dictionary =
    48 ∷ 49 ∷ 50 ∷ 51 ∷ 52 ∷ 53 ∷ 54 ∷ 55 ∷ 56 ∷ 57 ∷ 65 ∷ 66 ∷ 67 ∷ 68 ∷ 69 ∷ 70 ∷ 71 ∷ 72 ∷ 73
    ∷ 74 ∷ 75 ∷ 76 ∷ 77 ∷ 78 ∷ 79 ∷ 80 ∷ 81 ∷ 82 ∷ 83 ∷ 84 ∷ 85 ∷ 86 ∷ 87 ∷ 88 ∷ 89 ∷ 90 ∷ 97 ∷ 98
    ∷ 99 ∷ 100 ∷ 101 ∷ 102 ∷ 103 ∷ 104 ∷ 105 ∷ 106 ∷ 107 ∷ 108 ∷ 109 ∷ 110 ∷ 111 ∷ 112 ∷ 113 ∷ 114
    ∷ 115 ∷ 116 ∷ 117 ∷ 118 ∷ 119 ∷ 120 ∷ 121 ∷ 122 ∷ []

-- The character at an index; `rand() % len_of_dictionary` is always one.
unfoldable pub dictionary_at : ℕ → ℕ
dictionary_at i = elim (get_elem? string_dictionary i) [ none ↦ 0 | some c ↦ c ]

-- `rand` gives the numbers in turn, from the one at `i`.
module _ (rand : ℕ → ℕ) where
  unfoldable pub rand_string : ℕ → ℕ → List ℕ
  unfolding dictionary_at
  rand_string i zero = 0 ∷ []
  rand_string i (suc n) = dictionary_at (rand i % 62) ∷ rand_string (suc i) n

  unfoldable pub get_rand_string_vector : ℕ → ℕ → ℕ → List (List ℕ)
  unfolding rand_string
  get_rand_string_vector i zero len = []
  get_rand_string_vector i (suc num) len =
      rand_string i (len - 1) ∷ get_rand_string_vector (i + (len - 1)) num len
