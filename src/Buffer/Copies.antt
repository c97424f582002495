-- ===== src/Buffer/Copies.antt =====
-- Copying, assigning and moving a buffer.
use bounce.Prelude.{
  ℕ, ◌<◌, ◌≡◌, refl, ap, ◌∙◌, List, [], ◌∷◌, ◌++◌, true, false, arith, drop, take-nil, drop-nil,
}
use mathlib.Core.List.{append-nil, append_assoc}
use bounce.Buffer.{Buffer, push_back_all, copy, assign, move, readable_bytes}
use bounce.Buffer.Inv.{IsValid, contents}

push_back_all-append : (bytes other : List ℕ) → push_back_all bytes other ≡ bytes ++ other
unfolding push_back_all
push_back_all-append bytes [] = rw append-nil
push_back_all-append bytes (b ∷ other) =
    push_back_all-append (bytes ++ b ∷ []) other ∙ append_assoc bytes (b ∷ []) other

-- The copy constructor and an assignment make an equal buffer, byte for byte; assigning a buffer to
-- itself changes nothing.
pub copy-assign :
    (this other : Buffer)
    → (copy other ≡ other) × (assign this false other ≡ other) × (assign this true this ≡ this)
unfolding copy assign
copy-assign this other = (
  ap (λ bytes. record other { buffer = bytes }) (push_back_all-append [] other.buffer),
  ap (λ bytes. record other { buffer = bytes }) (push_back_all-append [] other.buffer),
  refl,
)

-- The buffer that a valid one is moved to is the old one as it was. The one moved from keeps its
-- indices without its storage: it still reports the bytes as readable, and is not valid.
pub move-source :
    {b : Buffer}
    → IsValid b
    → 0 < b.write_index
    → ((move b).0 ≡ b)
      × (readable_bytes (move b).1 ≡ readable_bytes b)
      × (contents (move b).1 ≡ [])
      × (IsValid (move b).1 → ⊥)
unfolding move readable_bytes
move-source {b} v h = (
  refl,
  refl,
  ap (drop b.read_index) (take-nil b.write_index) ∙ drop-nil b.read_index,
  λ w. omega (arith, w),
)
