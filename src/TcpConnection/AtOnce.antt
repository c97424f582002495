-- ===== src/TcpConnection/AtOnce.antt =====
-- The attempt of `sendInLoop` to send a message at once.
use bounce.Prelude.{ℕ, ◌-◌, Bool, true, false, not, ◌&&◌, ◌||◌, ltb, ◌==◌, if◌then◌else◌}
use bounce.Prelude.Int.{pos, negsuc}
use bounce.TcpConnection.Types.{Answer, ewouldblock, epipe, econnreset}

-- The outcome of the attempt to send at once: the bytes written and those left, whether the
-- message is done, and whether it failed for good.
pub record Tried : Type 0 where
  pub wrote_bytes : ℕ
  pub send_bytes : ℕ
  pub complete : Bool
  pub send_error : Bool

abbrev pub not_tried : ℕ → Tried
not_tried size = record { wrote_bytes = 0; send_bytes = size; complete = false; send_error = false }

unfoldable pub is_fatal : ℕ → Bool
is_fatal errno = not (errno == ewouldblock) && (errno == epipe || errno == econnreset)

abbrev pub try_failed : ℕ → ℕ → Tried
try_failed size errno = record {
  wrote_bytes = 0;
  send_bytes = size;
  complete = false;
  send_error = is_fatal errno;
}

unfoldable pub try_send : ℕ → Answer → Tried
unfolding is_fatal
try_send size a = elim a.ret [
  | pos n ↦
      if n == size
      then record { wrote_bytes = n; send_bytes = 0; complete = true; send_error = false }
      else (if ltb 0 n
          then record {
            wrote_bytes = n;
            send_bytes = size - n;
            complete = false;
            send_error = false;
          }
          else try_failed size a.errno)
  | negsuc n ↦ try_failed size a.errno
]
