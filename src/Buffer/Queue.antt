-- ===== src/Buffer/Queue.antt =====
-- What a buffer promises: a queue of bytes, and every sequence of calls behaves as on that queue.
use bounce.Prelude.{
  ℕ, ◌+◌, ◌≤◌, ◌≡◌, refl, ap, ap₂, ◌∙◌, Option, none, some, take-ge_length, inl, inr, leb,
  if◌then◌else◌, length-replicate, Bool-cases, List, [], ◌∷◌, ◌++◌, arith, length, take, drop,
}
use bounce.Prelude.Int.{ℤ, pos, negsuc}
use bounce.Prelude.Words.{max_size, to_bytes, from_bytes}
use bounce.Buffer.{
  Buffer, init, Readv, received, failed, append, read_as_string, read_all_as_string, retrieve,
  read_fd, write_int, peek_int, readable_bytes, peek,
}
use bounce.Buffer.Inv.{IsValid, contents, readable_bytes-contents}
use bounce.Buffer.Append.{append-Appends}
use bounce.Buffer.Refine.{read_as_string_lem, read_all_as_string_lem, retrieve-Takes, take_window}
use bounce.Buffer.Ints.{peek_int-contents, read_int_lem, read_int-short}
use bounce.Buffer.Receive.{read_fd-Appends}
use bounce.Buffer.Sizes.{Size, size_of, step_of, read_sized, size_of-le, step_of-le, read_sized-eq}

-- A client's call. An integer is its bit pattern, and `peek` is read as far as `readableBytes` goes.
-- `writeableBytes` is none of them, since it tells of the storage; Buffer/Copies has the copies.
pub data Call : Type 0 where
  appends : List ℕ → Call
  reads : ℕ → Call
  reads_all : Call
  retrieves : ℕ → Call
  receives : Readv → Call
  writes : Size → ℕ → Call
  peeks : Size → Call
  reads_int : Size → Call
  counts : Call
  looks : Call

-- The bytes that a call adds.
abbrev pub added : Call → List ℕ
added (appends src) = src
added (reads n) = []
added reads_all = []
added (retrieves n) = []
added (receives (received bytes)) = bytes
added (receives (failed e)) = []
added (writes s num) = to_bytes (size_of s) num
added (peeks s) = []
added (reads_int s) = []
added counts = []
added looks = []

abbrev pub total_added : List Call → ℕ
total_added [] = 0
total_added (c ∷ cs) = length (added c) + total_added cs

-- What a call returns: nothing, a string, an integer or a size, or what `readFd` returns and stores
-- through `errorno`.
pub data Reply : Type 0 where
  nothing : Reply
  string : List ℕ → Reply
  number : ℕ → Reply
  result : ℤ → Option ℕ → Reply

-- A call on the buffer: the buffer after it, and what it returns.
unfoldable pub step : Buffer → Call → Buffer × Reply
step b (appends src) = (append src b, nothing)
step b (reads n) = let (str, c) = read_as_string n b in (c, string str)
step b reads_all = let (str, c) = read_all_as_string b in (c, string str)
step b (retrieves n) = (retrieve n b, nothing)
step b (receives r) = let (c, ret, errno) = read_fd b r in (c, result ret errno)
step b (writes s num) = (write_int (size_of s) num b, nothing)
step b (peeks s) = (b, number (peek_int (size_of s) b))
step b (reads_int s) = let (num, c) = read_sized s b in (c, number num)
step b counts = (b, number (readable_bytes b))
step b looks = (b, string (take (readable_bytes b) (peek b)))

-- The integer of `k` bytes at the front of a queue, or zero if it has fewer bytes.
pub first_int : ℕ → List ℕ → ℕ
first_int k q = if leb k (length q) then from_bytes (take k q) else 0

-- The same call on a queue.
pub spec_step : List ℕ → Call → List ℕ × Reply
spec_step q (appends src) = (q ++ src, nothing)
spec_step q (reads n) = (drop n q, string (take n q))
spec_step q reads_all = ([], string q)
spec_step q (retrieves n) = (drop n q, nothing)
spec_step q (receives (received bytes)) = (q ++ bytes, result (pos (length bytes)) none)
spec_step q (receives (failed e)) = (q, result (negsuc 0) (some e))
spec_step q (writes s num) = (q ++ to_bytes (size_of s) num, nothing)
spec_step q (peeks s) = (q, number (first_int (size_of s) q))
spec_step q (reads_int s) =
    let rest = drop (step_of s) q in
    if leb (size_of s) (length q)
    then (rest, number (first_int (size_of s) rest))
    else (q, number 0)
spec_step q counts = (q, number (length q))
spec_step q looks = (q, string q)

-- What a sequence of calls returns.
unfoldable pub run : Buffer → List Call → List Reply
run b [] = []
run b (c ∷ cs) = (step b c).1 ∷ run (step b c).0 cs

pub spec_run : List ℕ → List Call → List Reply
spec_run q [] = []
spec_run q (c ∷ cs) = (spec_step q c).1 ∷ spec_run (spec_step q c).0 cs

-- What a step does, of which the run is made.
record Refines (b : Buffer) (c : Call) : Type 0 where
  valid : IsValid (step b c).0
  queue : contents (step b c).0 ≡ (spec_step (contents b) c).0
  reply : (step b c).1 ≡ (spec_step (contents b) c).1
  growth : length (step b c).0.buffer ≤ length b.buffer + length (added c)

-- `peek` points at the bytes that wait.
peek-contents : {b : Buffer} → IsValid b → take (readable_bytes b) (peek b) ≡ contents b
unfolding peek
peek-contents {b} v =
    take_window (readable_bytes b) v (omega (arith, readable_bytes-contents v))
    ∙ take-ge_length (readable_bytes b) (contents b) (omega (arith, readable_bytes-contents v))

step-Refines :
    (b : Buffer) (c : Call)
    → IsValid b
    → length b.buffer + length (added c) ≤ max_size
    → Refines b c
unfolding step spec_step read_fd write_int first_int
step-Refines b (appends src) v h =
    let a = append-Appends src v h in
    record { valid = a.valid; queue = a.queue; reply = refl; growth = a.growth }
step-Refines b (reads n) v h =
    let t = (read_as_string_lem n v).1 in
    record {
      valid = t.valid;
      queue = t.queue;
      reply = ap string (read_as_string_lem n v).0;
      growth = omega (arith, ap length t.storage);
    }
step-Refines b reads_all v h =
    let t = read_all_as_string_lem v in
    record {
      valid = t.2;
      queue = t.1;
      reply = ap string t.0;
      growth = omega (arith, ap length t.3);
    }
step-Refines b (retrieves n) v h =
    let t = retrieve-Takes n v in
    record {
      valid = t.valid;
      queue = t.queue;
      reply = refl;
      growth = omega (arith, ap length t.storage);
    }
step-Refines b (receives (received bytes)) v h =
    let (a, ret, errno) = read_fd-Appends bytes v h in
    record { valid = a.valid; queue = a.queue; reply = ap₂ result ret errno; growth = a.growth }
step-Refines b (receives (failed e)) v h = record {
  valid = v;
  queue = refl;
  reply = refl;
  growth = omega arith;
}
step-Refines b (writes s num) v h =
    let a = append-Appends (to_bytes (size_of s) num) v h in
    record { valid = a.valid; queue = a.queue; reply = refl; growth = a.growth }
step-Refines b (peeks s) v h = record {
  valid = v;
  queue = refl;
  reply = ap number (peek_int-contents (size_of s) v (size_of-le s));
  growth = omega arith;
}
step-Refines b (reads_int s) v h = elim (Bool-cases (leb (size_of s) (length (contents b)))) [
  | inl enough ↦
      let (_, t, num) =
        read_int_lem (size_of s) (step_of s) v (size_of-le s) (step_of-le s)
          (ground (arith, enough)) in
      record {
        valid = rw (read_sized-eq s b) t.valid;
        queue = rw (read_sized-eq s b, enough) t.queue;
        reply = rw (read_sized-eq s b, enough) (ap number num);
        growth = rw (read_sized-eq s b) (omega (arith, ap length t.storage));
      }
  | inr few ↦
      let same =
        read_sized-eq s b ∙ read_int-short (size_of s) (step_of s) v (ground (arith, few)) in
      record {
        valid = rw same v;
        queue = rw (same, few) refl;
        reply = rw (same, few) refl;
        growth = rw same (omega arith);
      }
]
step-Refines b counts v h = record {
  valid = v;
  queue = refl;
  reply = ap number (readable_bytes-contents v);
  growth = omega arith;
}
step-Refines b looks v h = record {
  valid = v;
  queue = refl;
  reply = ap string (peek-contents v);
  growth = omega arith;
}

-- No sequence of calls tells a valid buffer from the queue of its bytes, as long as the storage and
-- all the bytes that are added fit a vector. Appending, receiving and writing an integer put bytes at
-- the end; reading and retrieving take bytes off the front; peeking gives the integer at the front; and
-- reading an integer first takes its bytes off, or two of the four of an int32_t, and gives the integer
-- behind them, or zero where the bytes do not suffice. readableBytes gives the length of the queue, peek
-- its bytes, and readFd also what the kernel returned, or -1 and the errno.
pub run_refines :
    (cs : List Call) {b : Buffer}
    → IsValid b
    → length b.buffer + total_added cs ≤ max_size
    → run b cs ≡ spec_run (contents b) cs
unfolding run spec_run
run_refines [] v h = refl
run_refines (c ∷ cs) {b} v h =
    rw (one.reply, run_refines cs one.valid (omega (arith, one.growth)), one.queue) refl
  where
    one : Refines b c
    one = step-Refines b c v (omega arith)

-- The constructor, for the size of a new buffer, and then calls.
unfoldable pub life : ℕ → List Call → List Reply
unfolding init run
life size cs = run (init size) cs

-- A new buffer of any size is the empty queue.
pub life_refines :
    (size : ℕ) (cs : List Call) → size + total_added cs ≤ max_size → life size cs ≡ spec_run [] cs
unfolding life init
life_refines size cs h =
    run_refines cs
      (record {
        ordered = omega arith;
        within = omega (arith, length-replicate {A = ℕ} size 0);
        bounded = omega (arith, length-replicate {A = ℕ} size 0);
      })
      (omega (arith, length-replicate {A = ℕ} size 0))
