-- ===== src/Buffer.antt =====
-- bounce/buffer.h and bounce/buffer.cc: a growing byte buffer with a read and a write index.
-- A `char` is a number below 256. Allocation succeeds: `std::length_error` and `std::bad_alloc`
-- are not modelled. An access outside the storage reads or writes nothing here, and the invariant
-- of Buffer/Inv.antt is what rules it out.
pub mod Inv
pub mod Append
pub mod Refine
pub mod Receive
pub mod Ints
pub mod Copies
pub mod Sizes
pub mod Queue
pub mod Abstract
mod Tests
use bounce.Prelude.{
  ℕ, ◌+◌, ◌-◌, ◌*◌, ◌/◌, Bool, Option, none, some, List, [], ◌∷◌, ◌++◌, length, take, drop,
  replicate, overwrite, ltb, leb, ◌==◌, if◌then◌else◌,
}
use bounce.Prelude.Int.{ℤ, pos, negsuc}
use bounce.Prelude.Words.{add_size, sub_size, to_bytes, from_bytes}

-- An index into the storage.
abbrev pub SizeType : Type 0
SizeType = ℕ

abbrev pub int8_size : ℕ
int8_size = 1

abbrev pub int16_size : ℕ
int16_size = 2

abbrev pub int32_size : ℕ
int32_size = 4

pub record Buffer : Type 0 where
  pub init_size : ℕ
  pub buffer : List ℕ
  pub read_index : SizeType
  pub write_index : SizeType

-- `BUFFER_INIT_SIZE`, the default of a global that a program may set.
abbrev pub buffer_init_size : ℕ
buffer_init_size = 1024

-- The constructor, at the value that the global has.
unfoldable pub init : ℕ → Buffer
init size = record { init_size = size; buffer = replicate size 0; read_index = 0; write_index = 0 }

-- `for (auto it : other) buffer_.push_back(it);`
unfoldable pub push_back_all : List ℕ → List ℕ → List ℕ
push_back_all bytes [] = bytes
push_back_all bytes (b ∷ other) = push_back_all (bytes ++ b ∷ []) other

-- The copy constructor.
unfoldable pub copy : Buffer → Buffer
unfolding push_back_all
copy b = record {
  init_size = b.init_size;
  buffer = push_back_all [] b.buffer;
  read_index = b.read_index;
  write_index = b.write_index;
}

-- `operator=`, where the Boolean tells whether both sides are the same object.
unfoldable pub assign : Buffer → Bool → Buffer → Buffer
unfolding push_back_all
assign this same other = if same then this else record this {
  init_size = other.init_size;
  buffer = push_back_all [] other.buffer;
  read_index = other.read_index;
  write_index = other.write_index;
}

-- The move constructor: the new buffer, and what it leaves of the old one, whose vector is empty.
unfoldable pub move : Buffer → Buffer × Buffer
move b = (b, record b { buffer = [] })

unfoldable pub readable_bytes : Buffer → ℕ
readable_bytes b = sub_size b.write_index b.read_index

unfoldable pub writeable_bytes : Buffer → ℕ
writeable_bytes b = sub_size (length b.buffer) b.write_index

-- The bytes from `peek()` to the end of the storage.
unfoldable pub peek : Buffer → List ℕ
peek b = drop b.read_index b.buffer

-- `peekInt8`, `peekInt16` and `peekInt32`, for the size `k` that each has. The result is the bit
-- pattern of the integer.
unfoldable pub peek_int : ℕ → Buffer → ℕ
unfolding peek
peek_int k b =
    if ltb b.write_index (add_size b.read_index k) then 0 else from_bytes (take k (peek b))

-- The first half of `makeSpace`: moves the data to the front.
unfoldable pub compact : Buffer → Buffer
compact b =
    if ltb (b.init_size / 2) b.read_index
    then record b {
      buffer =
          overwrite b.buffer 0 (take (b.write_index - b.read_index) (drop b.read_index b.buffer));
      write_index = sub_size b.write_index b.read_index;
      read_index = 0;
    }
    else b

-- `buffer_.resize(n)`: cuts, or fills with zeros.
abbrev pub resize : ℕ → List ℕ → List ℕ
resize n bytes = take n bytes ++ replicate (n - length bytes) 0

-- The second half of `makeSpace`.
unfoldable pub enlarge : ℕ → Buffer → Buffer
unfolding writeable_bytes
enlarge len b =
    if ltb (writeable_bytes b) len
    then record b { buffer = resize (add_size (length b.buffer) len) b.buffer }
    else b

unfoldable pub make_space : ℕ → Buffer → Buffer
unfolding compact enlarge
make_space len b = enlarge len (compact b)

-- `std::copy(src, src + len, &buffer_[write_index_]); write_index_ += len;`
unfoldable pub put : List ℕ → Buffer → Buffer
put src b = record b {
  buffer = overwrite b.buffer b.write_index src;
  write_index = add_size b.write_index (length src);
}

-- `append`, with the `len` bytes at `src` for a list.
unfoldable pub append : List ℕ → Buffer → Buffer
unfolding writeable_bytes make_space put
append src b =
    if ltb (writeable_bytes b) (length src) then put src (make_space (length src) b) else put src b

-- What `::readv` did: it filled the two blocks with bytes, or failed with an errno.
pub data Readv : Type 0 where
  received : List ℕ → Readv
  failed : ℕ → Readv

-- `readFd` after a `readv` into the rest of the storage and a block on the stack. The result is
-- the buffer, the value returned and what was stored through `errorno`.
unfoldable pub read_fd : Buffer → Readv → Buffer × ℤ × Option ℕ
unfolding writeable_bytes append
read_fd b (failed e) = (b, negsuc 0, some e)
read_fd b (received bytes) = (after, pos (length bytes), none)
  where
    room : ℕ
    room = writeable_bytes b

    filled : Buffer
    filled = record b { buffer = overwrite b.buffer b.write_index (take room bytes) }

    after : Buffer
    after =
        if ltb (length bytes) room
        then record filled { write_index = add_size b.write_index (length bytes) }
        else append (drop room bytes) (record filled { write_index = length filled.buffer })

-- `append` of a string.
unfoldable pub append_string : List ℕ → Buffer → Buffer
unfolding append
append_string src b = append src b

-- `writeInt8`, `writeInt16` and `writeInt32` of the bit pattern `num`.
unfoldable pub write_int : ℕ → ℕ → Buffer → Buffer
unfolding append
write_int k num b = append (to_bytes k num) b

-- `readAsString`: the string and the buffer that is left.
unfoldable pub read_as_string : ℕ → Buffer → List ℕ × Buffer
unfolding readable_bytes
read_as_string size b = (str, rest)
  where
    read_bytes : ℕ
    read_bytes = if ltb (readable_bytes b) size then readable_bytes b else size

    str : List ℕ
    str = take read_bytes (drop b.read_index b.buffer)

    rest : Buffer
    rest =
        if read_bytes == readable_bytes b
        then record b { read_index = 0; write_index = 0 }
        else record b { read_index = add_size b.read_index read_bytes }

unfoldable pub read_all_as_string : Buffer → List ℕ × Buffer
unfolding readable_bytes read_as_string
read_all_as_string b = read_as_string (readable_bytes b) b

unfoldable pub retrieve : ℕ → Buffer → Buffer
unfolding readable_bytes
retrieve len b =
    if ltb len (readable_bytes b)
    then record b { read_index = add_size b.read_index len }
    else record b { read_index = 0; write_index = 0 }

-- `readInt8`, `readInt16` and `readInt32`: they test for `size` bytes, advance by `step` and then
-- peek at `size` bytes. The source's steps are 1, 2 and 2.
unfoldable pub read_int : ℕ → ℕ → Buffer → ℕ × Buffer
unfolding readable_bytes peek_int
read_int size step b =
    if ltb (readable_bytes b) size
    then (0, b)
    else (let advanced : Buffer = record b { read_index = add_size b.read_index step } in
        (peek_int size advanced, advanced))

unfoldable pub read_int8 : Buffer → ℕ × Buffer
unfolding read_int
read_int8 b = read_int int8_size int8_size b

unfoldable pub read_int16 : Buffer → ℕ × Buffer
unfolding read_int
read_int16 b = read_int int16_size int16_size b

unfoldable pub read_int32 : Buffer → ℕ × Buffer
unfolding read_int
read_int32 b = read_int int32_size int16_size b
