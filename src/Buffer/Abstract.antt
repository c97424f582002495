-- ===== src/Buffer/Abstract.antt =====
-- Buffers up to the bytes that they hold: exactly the queues of bytes that fit a vector.
use mathlib.Core.HLevel.{Σ_prop_path}
use mathlib.Core.Quot
use mathlib.Core.Quot.{Quot, Quot-set}
use mathlib.Core.Equiv.{◌≃◌, iso_to_equiv}
use native.Mathlib.Bridge.{le_prop}
use bounce.Prelude.{ℕ, ◌≤◌, ◌≡◌, List, arith, length, take-ge_length}
use bounce.Prelude.Words.{max_size}
use bounce.Buffer.{Buffer}
use bounce.Buffer.Inv.{IsValid, contents, length-contents}

abbrev pub ValidBuffer : Type 0
ValidBuffer = (b : Buffer) × IsValid b

-- Two buffers hold the same bytes, wherever these lie in the storage, and however long that is.
abbrev pub SameBytes : ValidBuffer → ValidBuffer → Type 0
SameBytes b c = contents b.0 ≡ contents c.0

abbrev pub FittingQueue : Type 0
FittingQueue = (q : List ℕ) × (length q ≤ max_size)

-- A buffer that holds the bytes of a queue.
of_queue : FittingQueue → ValidBuffer
of_queue (q, h) = (
  record { init_size = 0; buffer = q; read_index = 0; write_index = length q },
  record { ordered = omega arith; within = omega arith; bounded = h },
)

to_queue : ValidBuffer → FittingQueue
to_queue (b, v) = (contents b, omega (arith, length-contents v, v.within, v.bounded))

contents-of_queue : (q : FittingQueue) → contents (of_queue q).0 ≡ q.0
unfolding of_queue
contents-of_queue (q, h) = take-ge_length (length q) q (omega arith)

queue_ext : (p q : FittingQueue) → p.0 ≡ q.0 → p ≡ q
queue_ext p q e = Σ_prop_path (λ l. le_prop) e

-- The valid buffers, up to that they hold the same bytes, are the queues of bytes that fit a vector.
pub quotient_is_queues : Quot SameBytes ≃ FittingQueue
unfolding to_queue
quotient_is_queues = iso_to_equiv record {
  fun = Quot.lift (hlevel (le_prop)) to_queue (λ b c h. queue_ext (to_queue b) (to_queue c) h);
  inv = λ q. Quot.mk (of_queue q);
  rinv = λ q. queue_ext (to_queue (of_queue q)) q (contents-of_queue q);
  linv = Quot.ind (λ _. Quot-set _ _) λ b. Quot.sound (contents-of_queue (to_queue b));
}
