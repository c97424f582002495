-- ===== src/EventLoop/Timed/Handled.antt =====
-- The loop over the active channels, where only that of the timers has a callback.
use bounce.Prelude.{
  ℕ, zero, suc, ◌+◌, ◌≡◌, refl, sym, ap, ◌∙◌, inl, inr, Bool, true, false, some, List, [], ◌∷◌,
  get_elem?, arith, some_eq, subst, bit_or, Bool-cases, if◌then◌else◌, ◌==◌,
}
use bounce.Channel.{
  no_callbacks, set_read_callback, handle_channel, has, pollin, pollpri, pollrdhup,
}
use bounce.Poller.{Poller}
use bounce.TimerQueue.{Timer, TimerQueue}
use bounce.TimerQueue.Sorted.{AllFrom}
use bounce.TimerQueue.Calls.{handles_read}
use bounce.EventLoop.{Functor}
use bounce.EventLoop.Loop.{Loop, handle_channels}
use bounce.EventLoop.Timed.{TimerTask, Timers, call_timers, timed_handlers, run_functor}
use bounce.EventLoop.Timed.Kept.{Holds, handle_read-Holds}

-- The events for which a channel is read.
abbrev pub is_readable : ℕ → Bool
is_readable revents = has revents (bit_or (bit_or pollin pollpri) pollrdhup)

module _ {S : Type 0} (revents time : ℕ) (s : S) where
  only_reads :
      (cb : ℕ → S → S)
      → handle_channel (set_read_callback (some cb) no_callbacks) revents time s
        ≡ (if is_readable revents then cb time s else s)
  unfolding handle_channel set_read_callback
  only_reads cb = ground arith

  no_callbacks-same : handle_channel no_callbacks revents time s ≡ s
  unfolding handle_channel
  no_callbacks-same = ground arith

-- Handling changes only the queue, from `q` to `q'`, in which fewer timers for one time wait.
pub record Handled {W : Type 0} (all : List Timer) (n : ℕ) (q q' : TimerQueue)
    (l l' : Loop W Timers) : Type 0 where
  pub holds : Holds all n q' l'
  pub fewer : (m : ℕ) → AllFrom m q.timer_map_once → AllFrom m q'.timer_map_once
  pub same_poller : l'.poller ≡ l.poller
  pub same_tasks : l'.task_vec ≡ l.task_vec

-- The channel of the timers, which is read exactly if its flags say so, and any other channel.
module _ {W : Type 0} (clock : ℕ → ℕ) (timer_channel p time revents : ℕ) (l : Loop W Timers) where
  abbrev handled : Loop W Timers
  handled = handle_channel (timed_handlers clock timer_channel p) revents time l

  is_read :
      (p == timer_channel) ≡ true
      → is_readable revents ≡ true
      → handled ≡ call_timers clock handles_read l
  unfolding timed_handlers
  is_read at flags = rw at (
      only_reads revents time l (λ recv_time. call_timers clock handles_read)
      ∙ ap (λ b. if b then call_timers clock handles_read l else l) flags)

  is_left : (p == timer_channel) ≡ true → is_readable revents ≡ false → handled ≡ l
  unfolding timed_handlers
  is_left at flags = rw at (
      only_reads revents time l (λ recv_time. call_timers clock handles_read)
      ∙ ap (λ b. if b then call_timers clock handles_read l else l) flags)

  is_other : (p == timer_channel) ≡ false → handled ≡ l
  unfolding timed_handlers
  is_other at = rw at (no_callbacks-same revents time l)

module _ {W : Type 0} {all : List Timer} {n : ℕ} {q : TimerQueue} {l : Loop W Timers} where
  comes_to : (p : ℕ) → Holds all n q l → Handled all n q q l (record l { cur_channel = some p })
  comes_to p h = record {
    holds = record { is = h.is; accounted = h.accounted };
    fewer = λ m a. a;
    same_poller = refl;
    same_tasks = refl;
  }

  unchanged : Holds all n q l → Handled all n q q l l
  unchanged h = record { holds = h; fewer = λ m a. a; same_poller = refl; same_tasks = refl }

  then_Handled :
      {q₁ q₂ : TimerQueue} {l₁ l₂ : Loop W Timers}
      → Handled all n q q₁ l l₁
      → Handled all n q₁ q₂ l₁ l₂
      → Handled all n q q₂ l l₂
  then_Handled first second = record {
    holds = second.holds;
    fewer = λ m a. second.fewer m (first.fewer m a);
    same_poller = second.same_poller ∙ first.same_poller;
    same_tasks = second.same_tasks ∙ first.same_tasks;
  }

module _ {W : Type 0} (clock : ℕ → ℕ) {all : List Timer} {n : ℕ} {q : TimerQueue}
    (l : Loop W Timers) (h : Holds all n q l) where
  read_once :
      (q' : TimerQueue) × Handled all n q q' l (call_timers clock handles_read l)
      × AllFrom (clock l.state.readings + 1) q'.timer_map_once
  unfolding call_timers
  read_once =
      let (q', held, waits, fewer) = handle_read-Holds clock l h in
      (q', record { holds = held; fewer = fewer; same_poller = refl; same_tasks = refl }, waits)

  one-Handled :
      (timer_channel p time revents : ℕ)
      → (q' : TimerQueue) × Handled all n q q' l (handled clock timer_channel p time revents l)
  one-Handled timer_channel p time revents = elim (Bool-cases (p == timer_channel)) [
    | inr other ↦ (
      q,
      subst (Handled all n q q l) (sym (is_other clock timer_channel p time revents l other))
          (unchanged h),
    )
    | inl at ↦ elim (Bool-cases (is_readable revents)) [
      | inl flags ↦ (
        read_once.0,
        subst (Handled all n q read_once.0 l)
            (sym (is_read clock timer_channel p time revents l at flags)) read_once.1,
      )
      | inr flags ↦ (
        q,
        subst (Handled all n q q l) (sym (is_left clock timer_channel p time revents l at flags))
            (unchanged h),
      )
    ]
  ]

module _ {W : Type 0} (clock : ℕ → ℕ) (poller : Poller W) (timer_channel time : ℕ)
    (task : Functor → TimerTask) where
  abbrev pub handle_all : List ℕ → Loop W Timers → Loop W Timers
  handle_all =
      handle_channels poller (timed_handlers clock timer_channel) (run_functor clock task) time

  pub handle_all-Handled :
      {all : List Timer} {n : ℕ} (ps : List ℕ) {q : TimerQueue} (l : Loop W Timers)
      → Holds all n q l
      → (q' : TimerQueue) × Handled all n q q' l (handle_all ps l)
  unfolding handle_channels
  handle_all-Handled [] {q} l h = (q, unchanged h)
  handle_all-Handled (p ∷ ps) l h =
      let l' = record l { cur_channel = some p } in
      let revents = (poller.channel_at l.poller p).revents in
      let come = comes_to p h in
      let (q₁, first) = one-Handled clock l' come.holds timer_channel p time revents in
      let (q₂, rest) =
        handle_all-Handled ps (handled clock timer_channel p time revents l') first.holds in
      (q₂, then_Handled come (then_Handled first rest))

  elsewhere :
      (p i : ℕ) (ps : List ℕ)
      → get_elem? (p ∷ ps) i ≡ some timer_channel
      → (p == timer_channel) ≡ false
      → (j : ℕ) × (get_elem? ps j ≡ some timer_channel)
  elsewhere p zero ps e other = ground (arith, some_eq e)
  elsewhere p (suc i) ps e other = (i, e)

  -- Where the channel of the timers is active and readable, none waits that has expired when the
  -- clock is first read.
  pub handle_all-due :
      {all : List Timer} {n : ℕ} (ps : List ℕ) {q : TimerQueue} (i : ℕ) (l : Loop W Timers)
      → Holds all n q l
      → get_elem? ps i ≡ some timer_channel
      → is_readable (poller.channel_at l.poller timer_channel).revents ≡ true
      → (q' : TimerQueue) × Handled all n q q' l (handle_all ps l)
        × AllFrom (clock l.state.readings + 1) q'.timer_map_once
  unfolding handle_channels
  handle_all-due [] i l h e flags = ground arith
  handle_all-due {all} {n} (p ∷ ps) {q} i l h e flags =
      let l' = record l { cur_channel = some p } in
      let revents = (poller.channel_at l.poller p).revents in
      let come = comes_to p h in
      elim (Bool-cases (p == timer_channel)) [
        | inl at ↦
            let same : p ≡ timer_channel = ground (arith, at) in
            let own : is_readable revents ≡ true =
              ap (λ r. is_readable (poller.channel_at l.poller r).revents) same ∙ flags in
            let (q₁, first, waits) = read_once clock l' come.holds in
            let (q₂, rest) =
              handle_all-Handled ps (call_timers clock handles_read l') first.holds in
            (
              q₂,
              then_Handled come (
                  subst (λ x. Handled all n q q₂ l' (handle_all ps x))
                    (sym (is_read clock timer_channel p time revents l' at own))
                    (then_Handled first rest)),
              rest.fewer (clock l.state.readings + 1) waits,
            )
        | inr other ↦
            let (j, there) = elsewhere p i ps e other in
            let (q', rest, waits) = handle_all-due ps j l' come.holds there flags in
            (
              q',
              then_Handled come (
                  subst (λ x. Handled all n q q' l' (handle_all ps x))
                    (sym (is_other clock timer_channel p time revents l' other)) rest),
              waits,
            )
      ]
