-- ===== src/Timers.antt =====
-- The timer wheel of dp/core/timer.c and inc/ix/timer.h (shinjuku-rocksdb). A bucket is the list that its
-- links make; a fault, `none`, is a write outside of `wheels`. `rdtsc() / cycles_per_us` is an argument,
-- the clock; the handlers are those of other parts, as a record `Handler`.
pub mod Insert
pub mod Steps
pub mod Run
pub mod Fires
pub mod Deadline
use horus_app_eval.Prelude.{
  ℕ, zero, suc, ◌+◌, ◌-◌, ◌*◌, ◌/◌, ◌%◌, ◌^◌, ◌≡◌, ◌<◌, Bool, true, false, ◌&&◌, Option, none, some,
  List, [], ◌∷◌, if◌then◌else◌, ltb, leb, ◌==◌, u64, ◌>>=◌,
}

-- struct timer, at the address `cell`; `fg_id` is none for -1
pub record Timer : Type 0 where
  pub cell : ℕ
  pub expires : ℕ
  pub fg_id : Option ℕ

-- struct timerwheel
pub record TimerWheel : Type 0 where
  pub now_us : ℕ
  pub timer_pos : ℕ
  pub wheels : ℕ → ℕ → List Timer

abbrev pub wheel_size : ℕ
wheel_size = 256

abbrev pub wheel_count : ℕ
wheel_count = 3

abbrev pub min_delay_us : ℕ
min_delay_us = 16

-- 16 * 2 ^ 24
abbrev pub max_delay_us : ℕ
max_delay_us = 268435456

-- 2 ^ WHEEL_IDX_TO_SHIFT(idx)
unfoldable pub wheel_unit : ℕ → ℕ
wheel_unit idx = 2 ^ (idx * 8 + 4)

unfoldable pub wheel_offset : ℕ → ℕ → ℕ
unfolding wheel_unit
wheel_offset val idx = val / wheel_unit idx % wheel_size

-- `63 - clz64(x)`, the highest bit that is set in the low `n + 1` ones
unfoldable pub top_bit : ℕ → ℕ → ℕ
top_bit zero x = 0
top_bit (suc n) x = if ltb x (2 ^ suc n) then top_bit n x else suc n

-- `index` of `timer_insert`: none where `63 - clz64(delay_us) - MIN_DELAY_SHIFT` is negative
unfoldable pub wheel_index : ℕ → Option ℕ
unfolding top_bit
wheel_index delay = if ltb (top_bit 63 delay) 4 then none else some ((top_bit 63 delay - 4) / 8)

-- `&tw->wheels[idx][off]`, written
abbrev pub put_bucket : ℕ → ℕ → List Timer → TimerWheel → TimerWheel
put_bucket idx off ts w = record w {
  wheels = λ i o. if i == idx && o == off then ts else w.wheels i o;
}

-- hlist_add_head, where the bucket is one of `wheels`
unfoldable pub add_head : Timer → ℕ → Option ℕ → TimerWheel → Option TimerWheel
add_head t expire_us none w = none
add_head t expire_us (some i) w =
    let off = wheel_offset expire_us i in
    if ltb i wheel_count then some (put_bucket i off (t ∷ w.wheels i off) w) else none

unfoldable pub expire_us : Timer → ℕ
expire_us t = u64 (t.expires + min_delay_us)

unfoldable pub timer_insert : Timer → TimerWheel → Option TimerWheel
unfolding add_head
timer_insert t w = let e = expire_us t in add_head t e (wheel_index (u64 (e + 2 ^ 64 - w.now_us))) w

-- `__timer_add`: a delay out of range ends the process (panic), as a zero does (assert). Both are none.
unfoldable pub timer_add : ℕ → Timer → Option ℕ → ℕ → TimerWheel → Option TimerWheel
timer_add clock t fg delay w =
    if ltb 0 delay && ltb delay max_delay_us
    then timer_insert (record t { expires = u64 (clock + delay); fg_id = fg }) w
    else none

unfoldable pub timer_add_for_next_tick : Timer → Option ℕ → TimerWheel → Option TimerWheel
timer_add_for_next_tick t fg w =
    timer_insert (record t { expires = u64 (w.now_us + min_delay_us); fg_id = fg }) w

-- hlist_del of the timer at `cell`, in a bucket
unfoldable pub unlink : ℕ → List Timer → List Timer
unlink cell [] = []
unlink cell (t ∷ ts) = if t.cell == cell then ts else t ∷ unlink cell ts

-- `timer_del`: it does nothing for a timer in no bucket
unfoldable pub timer_del : ℕ → TimerWheel → TimerWheel
unfolding unlink
timer_del cell w = record w { wheels = λ i o. unlink cell (w.wheels i o) }

unfoldable pub timer_mod : ℕ → Timer → Option ℕ → ℕ → TimerWheel → Option TimerWheel
unfolding timer_del
timer_mod clock t fg delay w = timer_add clock t fg delay (timer_del t.cell w)

unfoldable pub timer_init_cpu : ℕ → TimerWheel → TimerWheel
timer_init_cpu clock w = record w { now_us = clock; timer_pos = clock }

-- no timer is more than the wheels can take ahead of the clock
abbrev pub AllNear : ℕ → List Timer → Type 0
AllNear now [] = Unit {0}
AllNear now (t ∷ ts) = (t.expires + 16 < now + 268435456) × AllNear now ts

pub record IsNear (w : TimerWheel) : Type 0 where
  pub near : (i o : ℕ) → AllNear w.now_us (w.wheels i o)

-- the timer at `cell` is in the list
unfoldable pub has : ℕ → List Timer → Bool
has cell [] = false
has cell (t ∷ ts) = if t.cell == cell then true else has cell ts

-- The handlers, by the timer that is up: they may arm timers, which the wheels can take, and disarm none.
pub record Handler : Type 0 where
  pub run : Timer → TimerWheel → TimerWheel
  pub keeps_now : (t : Timer) (w : TimerWheel) → (run t w).now_us ≡ w.now_us
  pub keeps_pos : (t : Timer) (w : TimerWheel) → (run t w).timer_pos ≡ w.timer_pos
  pub keeps_near : (t : Timer) (w : TimerWheel) → IsNear w → IsNear (run t w)
  pub keeps_timers :
      (t : Timer) (w : TimerWheel) (i o c : ℕ)
      → has c (w.wheels i o) ≡ true
      → has c ((run t w).wheels i o) ≡ true

-- the wheel, and the timers whose handlers have run, the latest first
pub record Pass : Type 0 where
  pub wheel : TimerWheel
  pub fired : List Timer

-- `t->handler(t, …)`
unfoldable pub fire : Handler → Timer → Pass → Pass
fire h t p = record { wheel = h.run t p.wheel; fired = t ∷ p.fired }

-- `__timer_del` of a timer that is met in the bucket
unfoldable pub unlink_from : ℕ → ℕ → Timer → Pass → Pass
unfolding unlink
unlink_from i off t p = record p {
  wheel = put_bucket i off (unlink t.cell (p.wheel.wheels i off)) p.wheel;
}

-- the loop of `timer_run_bucket`, over the timers that the bucket had at its start
unfoldable pub run_timers : Handler → ℕ → List Timer → Pass → Pass
unfolding fire unlink_from
run_timers h off [] p = p
run_timers h off (t ∷ ts) p = run_timers h off ts (fire h t (unlink_from 0 off t p))

-- Behind the loop the bucket is made empty, whatever the handlers have added to it.
unfoldable pub timer_run_bucket : Handler → ℕ → Pass → Pass
unfolding run_timers
timer_run_bucket h off p =
    let p' = run_timers h off (p.wheel.wheels 0 off) p in
    record p' { wheel = put_bucket 0 off [] p'.wheel }

-- a timer that is unlinked in `timer_reinsert_bucket`
unfoldable pub reinsert : Handler → Timer → Pass → Option Pass
unfolding fire
reinsert h t p =
    if leb t.expires p.wheel.now_us
    then some (fire h t p)
    else (timer_insert t p.wheel >>= λ w. some (record p { wheel = w }))

reinsert_timers : Handler → ℕ → ℕ → List Timer → Pass → Option Pass
unfolding reinsert unlink_from
reinsert_timers h i off [] p = some p
reinsert_timers h i off (t ∷ ts) p =
    reinsert h t (unlink_from i off t p) >>= reinsert_timers h i off ts

unfoldable pub timer_reinsert_bucket : Handler → ℕ → ℕ → Pass → Option Pass
unfolding reinsert_timers
timer_reinsert_bucket h i off p = reinsert_timers h i off (p.wheel.wheels i off) p

-- `timer_collapse`: the wheel 2 only if the offset in the wheel 1 is zero. Its count is not used.
unfoldable pub timer_collapse : Handler → ℕ → Pass → Option Pass
unfolding timer_reinsert_bucket
timer_collapse h pos p = timer_reinsert_bucket h 1 (wheel_offset pos 1) p >>= λ p'.
    if wheel_offset pos 1 == 0 then timer_reinsert_bucket h 2 (wheel_offset pos 2) p' else some p'

-- the body of the loop of `timer_run`
unfoldable pub run_tick : Handler → ℕ → Pass → Option Pass
unfolding timer_collapse timer_run_bucket
run_tick h pos p = (if wheel_offset pos 0 == 0 then timer_collapse h pos p else some p) >>= λ p'.
    some (timer_run_bucket h (wheel_offset pos 0) p')

-- the loop, with `n` tests of its condition to go
unfoldable pub run_ticks : Handler → ℕ → ℕ → Pass → Option Pass
unfolding run_tick
run_ticks h zero pos p = none
run_ticks h (suc n) pos p =
    let go_on = run_tick h pos p >>= run_ticks h n (u64 (pos + min_delay_us)) in
    if leb pos p.wheel.now_us
    then go_on
    else some (record p { wheel = record (p.wheel) { timer_pos = pos } })

-- A pass of `timer_run` of at most `n` rounds. `unset_current_fg` does nothing.
unfoldable pub timer_run : Handler → ℕ → ℕ → TimerWheel → Option Pass
unfolding run_ticks
timer_run h n clock w =
    run_ticks h (suc n) w.timer_pos (record { wheel = record w { now_us = clock }; fired = [] })
