-- ===== src/Programs/Echo/Kept.antt =====
-- What sends and writes leave as it is.
use bounce.Prelude.{ℕ, ◌≡◌, refl, ◌∙◌, List, arith, length, Bool-cases, if◌then◌else◌, inl, inr}
use bounce.Buffer.{retrieve}
use bounce.TcpConnection.{
  TcpConnection, Callbacks, Answer, Tried, send_in_loop, handle_write, after_send, finish_write,
  queue_write_cb, note_sent, buffer_rest, shutdown_in_loop, change_channel, request, queue,
  is_disconnected, is_free, try_send, not_tried,
}

queue_write_cb-input :
    (cbs : Callbacks) (c : TcpConnection)
    → ((queue_write_cb cbs c).input_buffer ≡ c.input_buffer)
      × ((queue_write_cb cbs c).output_buffer ≡ c.output_buffer)
unfolding queue_write_cb queue request
queue_write_cb-input cbs c = (ground arith, ground arith)

note_sent-input :
    (cbs : Callbacks) (message : List ℕ) (t : Tried) (c : TcpConnection)
    → (note_sent cbs message t c).input_buffer ≡ c.input_buffer
unfolding note_sent queue_write_cb queue request
note_sent-input cbs message t c = ground arith

buffer_rest-input :
    (message : List ℕ) (t : Tried) (c : TcpConnection)
    → (buffer_rest message t c).input_buffer ≡ c.input_buffer
unfolding buffer_rest change_channel request
buffer_rest-input message t c = ground arith

pub send_in_loop-input :
    (cbs : Callbacks) (message : List ℕ) (a : Answer) (c : TcpConnection)
    → (send_in_loop cbs message a c).input_buffer ≡ c.input_buffer
unfolding send_in_loop
send_in_loop-input cbs message a c = elim (Bool-cases (is_disconnected c.state)) [
  | inl gone ↦ rw (gone, send_in_loop) refl
  | inr open_ ↦
      let t = if is_free c then try_send (length message) a else not_tried (length message) in
      rw (open_, send_in_loop)
        (buffer_rest-input message t (note_sent cbs message t c) ∙ note_sent-input cbs message t c)
]

pub handle_write-input :
    (cbs : Callbacks) (a : Answer) (c : TcpConnection)
    → ((handle_write cbs a c).input_buffer ≡ c.input_buffer)
      × (length (handle_write cbs a c).output_buffer.buffer ≡ length c.output_buffer.buffer)
unfolding handle_write after_send finish_write queue_write_cb queue request change_channel
    shutdown_in_loop retrieve
handle_write-input cbs a c = (ground arith, ground arith)
