-- ===== src/Channel/Dispatch.antt =====
-- Which callbacks a channel runs for the flags that `poll` returned, and in which order.
use bounce.Prelude.{
  ℕ, ◌+◌, ◌≡◌, Bool, not, ◌&&◌, ◌||◌, List, [], ◌∷◌, ◌++◌, arith, if◌then◌else◌, bit_or,
}
use bounce.Channel.{
  Callbacks, call, call_read, handle_channel, has, pollin, pollpri, pollout, pollerr, pollhup,
  pollnval, pollrdhup,
}

-- The flags of `revents`, one by one.
pub record Flags : Type 0 where
  pub in_ : Bool
  pub pri : Bool
  pub out : Bool
  pub err : Bool
  pub hup : Bool
  pub nval : Bool
  pub rdhup : Bool

abbrev pub bit : Bool → ℕ → ℕ
bit b mask = if b then mask else 0

abbrev pub revents_of : Flags → ℕ
revents_of f =
    bit f.in_ pollin
    + bit f.pri pollpri
    + bit f.out pollout
    + bit f.err pollerr
    + bit f.hup pollhup
    + bit f.nval pollnval
    + bit f.rdhup pollrdhup

pub data Event : Type 0 where
  closed failed readable writable : Event

-- The events that flags stand for, in the order in which they are handled.
unfoldable pub events_of : Flags → List Event
events_of f =
    (if f.hup && not f.in_ then closed ∷ [] else [])
    ++ ((if f.err || f.nval then failed ∷ [] else [])
        ++ ((if f.in_ || (f.pri || f.rdhup) then readable ∷ [] else [])
            ++ (if f.out then writable ∷ [] else [])))

module _ (f : Flags) where
  has-hup : has (revents_of f) pollhup ≡ f.hup
  has-hup = ground arith

  has-in : has (revents_of f) pollin ≡ f.in_
  has-in = ground arith

  has-err_nval : has (revents_of f) (bit_or pollerr pollnval) ≡ (f.err || f.nval)
  has-err_nval = ground arith

  has-in_pri_rdhup :
      has (revents_of f) (bit_or (bit_or pollin pollpri) pollrdhup) ≡ (f.in_ || (f.pri || f.rdhup))
  has-in_pri_rdhup = ground arith

  has-out : has (revents_of f) pollout ≡ f.out
  has-out = ground arith

module _ {ℓ} {S : Type ℓ} (cbs : Callbacks S) (time : ℕ) where
  unfoldable pub on_event : Event → S → S
  on_event closed = call cbs.close_cb
  on_event failed = call cbs.error_cb
  on_event readable = call_read cbs.read_cb time
  on_event writable = call cbs.write_cb

  unfoldable pub on_events : List Event → S → S
  on_events [] s = s
  on_events (e ∷ es) s = on_events es (on_event e s)

  -- A channel runs one callback for each event that its flags stand for: first that a peer hung up
  -- with nothing left to read, then an error, then that there is something to read, an end of the
  -- stream included, and last that it can be written.
  pub handle_channel-on_events :
      (f : Flags) (s : S) → handle_channel cbs (revents_of f) time s ≡ on_events (events_of f) s
  unfolding handle_channel on_events on_event events_of
  handle_channel-on_events f s =
      rw (has-hup f, has-in f, has-err_nval f, has-in_pri_rdhup f, has-out f) (ground arith)
