-- ===== src/Timers/Fires.antt =====
-- `timer_run` on a wheel, and on a timer that `timer_add` has stored.
use horus_app_eval.Prelude.{
  ℕ, ◌+◌, ◌-◌, ◌*◌, ◌/◌, ◌^◌, ◌≤◌, ◌<◌, ◌≡◌, refl, ◌∙◌, arith, true, false, Option, some, [],
}
use horus_app_eval.Timers.{
  Timer, TimerWheel, Pass, Handler, IsNear, has, wheel_offset, wheel_unit, timer_run, timer_add,
}
use horus_app_eval.Timers.Insert.{wheel_index-first, inserted_at, in_range, slotted}
use horus_app_eval.Timers.Steps.{tracked, AllNear-mono, put_bucket-IsNear}
use horus_app_eval.Timers.Run.{run_ticks-Ends, run_ticks-fires}

later-IsNear :
    (w : TimerWheel) (clock : ℕ)
    → w.now_us ≤ clock
    → IsNear w
    → IsNear (record w { now_us = clock })
later-IsNear w clock le n = record {
  near = λ i o. AllNear-mono w.now_us clock (w.wheels i o) le (n.near i o);
}

-- If all timers are within the reach of the wheels and `timer_pos` is at most 16 microseconds ahead of the
-- clock, `timer_run` returns: as many rounds as the clock is ahead of `timer_pos`, in units of 16
-- microseconds, are enough. All timers are within reach again, the cached time is the clock, and
-- `timer_pos` is ahead of it, by 16 microseconds at most.
pub timer_run-returns :
    (h : Handler) (n clock : ℕ) (w : TimerWheel)
    → IsNear w
    → w.now_us ≤ clock
    → clock + 268435456 < 2 ^ 64
    → clock < w.timer_pos + 16 * n
    → w.timer_pos ≤ clock + 16
    → (p : Pass) × (timer_run h n clock w ≡ some p)
      × IsNear p.wheel
      × (p.wheel.now_us ≡ clock)
      × (clock < p.wheel.timer_pos)
      × (p.wheel.timer_pos ≤ clock + 16)
unfolding timer_run
timer_run-returns h n clock w near le word enough before =
    let (p, e, x) =
      run_ticks-Ends h clock 0 0 false false word n w.timer_pos
        (record { wheel = record w { now_us = clock }; fired = [] }) enough
        (record {
          at_now = refl;
          near = later-IsNear w clock le near;
          held = λ e. cc e;
          done = λ e. cc e;
        }) in
    (p, e, x.end_near, x.end_now, x.past, x.soon (clock + 16) before (omega arith))

-- a timer in the bucket that `timer_run` comes to after `k` rounds
comes_up :
    (h : Handler) (k n clock c : ℕ) (w : TimerWheel)
    → IsNear w
    → w.now_us ≤ clock
    → clock + 268435456 < 2 ^ 64
    → clock < w.timer_pos + 16 * n
    → w.timer_pos + 16 * k ≤ clock
    → has c (w.wheels 0 (wheel_offset (w.timer_pos + 16 * k) 0)) ≡ true
    → (p : Pass) × (timer_run h n clock w ≡ some p) × (has c p.fired ≡ true)
unfolding timer_run tracked
comes_up h k n clock c w near le word enough comes waits =
    let (p, e, x) =
      run_ticks-fires h clock _ c word k n w.timer_pos
        (record { wheel = record w { now_us = clock }; fired = [] }) enough comes refl
        (record {
          at_now = refl;
          near = later-IsNear w clock le near;
          held = λ _. unfold has in waits;
          done = λ e. cc e;
        }) in
    (p, e, x.end_done refl)

slotted-has :
    (t : Timer) (w : TimerWheel) (o : ℕ)
    → wheel_offset (t.expires + 16) 0 ≡ o
    → has t.cell ((slotted t 0 w).wheels 0 o) ≡ true
unfolding has
slotted-has t w o e = ground (arith, e)

-- `timer_add` into the first wheel and a later `timer_run` that comes to the timer's bucket
module _ (h : Handler) (clock : ℕ) (t : Timer) (fg : Option ℕ) (delay : ℕ) (w : TimerWheel)
    (n later : ℕ) (near : IsNear w) (pos : 0 < delay) (not_behind : w.now_us ≤ clock)
    (first : clock + delay + 16 < w.now_us + 4096) (onward : w.now_us ≤ later)
    (word : later + 268435456 < 2 ^ 64) (enough : later < w.timer_pos + 16 * n) where
  abbrev armed : Timer
  armed = record t { expires = clock + delay; fg_id = fg }

  added : timer_add clock t fg delay w ≡ some (slotted armed 0 w)
  added =
      in_range clock t fg delay w pos (omega arith) (omega arith)
      ∙ inserted_at armed w 0 (omega arith) (omega arith) (omega arith)
          (wheel_index-first _ (omega arith) (omega arith))

  runs :
      (k : ℕ)
      → w.timer_pos + 16 * k ≤ later
      → wheel_offset (clock + delay + 16) 0 ≡ wheel_offset (w.timer_pos + 16 * k) 0
      → (w' : TimerWheel) × (timer_add clock t fg delay w ≡ some w')
        × (p : Pass) × (timer_run h n later w' ≡ some p)
        × (has t.cell p.fired ≡ true)
  runs k comes at =
      let (p, e, f) =
        comes_up h k n later t.cell (slotted armed 0 w)
          (put_bucket-IsNear 0 _ _ w (omega arith, near.near 0 _) near) onward word enough comes
          (slotted-has armed w _ at) in
      (slotted armed 0 w, added, p, e, f)

  -- Where `timer_pos` is at most 16 microseconds ahead of `now_us`, as `timer_run` leaves it, a timer that
  -- is added for less than about 4 milliseconds from `now_us` is stored, and the next `timer_run` at 32
  -- microseconds or more behind its end returns and has fired it.
  pub timer_add-fires :
      w.timer_pos ≤ w.now_us + 16
      → clock + delay + 32 ≤ later
      → (w' : TimerWheel) × (timer_add clock t fg delay w ≡ some w')
        × (p : Pass) × (timer_run h n later w' ≡ some p)
        × (has t.cell p.fired ≡ true)
  unfolding wheel_offset wheel_unit
  timer_add-fires ahead over =
      runs ((clock + delay + 16) / 16 - w.timer_pos / 16) (omega arith) (omega arith)

  -- If the bucket of the timer, 4096 microseconds ahead, is the one at `timer_pos`, then the next
  -- `timer_run` fires it, also where its time has not come: `timer_run_bucket` does not look at `expires`.
  pub timer_add-early :
      (clock + delay + 16) / 16 ≡ w.timer_pos / 16 + 256
      → w.timer_pos ≤ later
      → later < clock + delay
      → (w' : TimerWheel) × (timer_add clock t fg delay w ≡ some w')
        × (p : Pass) × (timer_run h n later w' ≡ some p)
        × (has t.cell p.fired ≡ true)
  unfolding wheel_offset wheel_unit
  timer_add-early ahead due early = runs 0 (omega arith) (omega arith)
