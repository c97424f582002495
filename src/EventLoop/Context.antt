-- ===== src/EventLoop/Context.antt =====
-- The object that a program keeps with a loop; `A` is its type, and `none` the empty one.
use bounce.Prelude.{Option, some}
use bounce.EventLoop.Loop.{Loop}

pub record WithContext (W S A : Type 0) : Type 0 where
  pub event_loop : Loop W S
  pub context : Option A

module _ {W S A : Type 0} where
  unfoldable pub set_loop_context : A → WithContext W S A → WithContext W S A
  set_loop_context context l = record l { context = some context }

  unfoldable pub get_loop_context : WithContext W S A → Option A
  get_loop_context l = l.context
