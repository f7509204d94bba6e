-- ===== src/Tests/Timers.antt =====
-- The theorems on the timer wheel at concrete inputs.
use horus_app_eval.Prelude.{
  ℕ, ◌≤◌, ◌<◌, ◌+◌, ◌≡◌, ◌⊎◌, inl, inr, refl, ap, true, Option, none, some, [], ◌∷◌, arith, ◌&&◌,
  ◌==◌, if◌then◌else◌,
}
use horus_app_eval.Timers.{
  Timer, TimerWheel, Handler, Pass, IsNear, has, timer_add, timer_insert, timer_run, wheel_index,
  put_bucket,
}
use horus_app_eval.Timers.Insert.{timer_add-cases, timer_insert-shape}
use horus_app_eval.Timers.Steps.{put_bucket-IsNear, push-has}
use horus_app_eval.Timers.Fires.{timer_run-returns, timer_add-fires, timer_add-early}
use horus_app_eval.Timers.Deadline.{is_empty, timer_deadline, timer_deadline-bucket}

-- A handler that arms its timer again, for 100 microseconds later.
abbrev kept : TimerWheel → Option TimerWheel → TimerWheel
kept w none = w
kept w (some w') = w'

abbrev again : Timer → TimerWheel → Timer
again t w = record t { expires = w.now_us + 100 }

abbrev rearm : Timer → TimerWheel → TimerWheel
rearm t w = kept w (timer_insert (again t w) w)

rearm-cases :
    (t : Timer) (w : TimerWheel)
    → (rearm t w ≡ w)
      ⊎ ((i : ℕ) × (off : ℕ) × (rearm t w ≡ put_bucket i off (again t w ∷ w.wheels i off) w))
rearm-cases t w = elim (timer_insert-shape (again t w) w) [
  | inl e ↦ inl (ap (kept w) e)
  | inr (i, off, e) ↦ inr (i, off, ap (kept w) e)
]

rearm_now : (t : Timer) (w : TimerWheel) → (rearm t w).now_us ≡ w.now_us
rearm_now t w = elim (rearm-cases t w) [
  | inl e ↦ ap (λ (x : TimerWheel). x.now_us) e
  | inr (i, off, e) ↦ ap (λ (x : TimerWheel). x.now_us) e
]

rearm_pos : (t : Timer) (w : TimerWheel) → (rearm t w).timer_pos ≡ w.timer_pos
rearm_pos t w = elim (rearm-cases t w) [
  | inl e ↦ ap (λ (x : TimerWheel). x.timer_pos) e
  | inr (i, off, e) ↦ ap (λ (x : TimerWheel). x.timer_pos) e
]

rearm-IsNear : (t : Timer) (w : TimerWheel) → IsNear w → IsNear (rearm t w)
rearm-IsNear t w n = elim (rearm-cases t w) [
  | inl e ↦ rw e n
  | inr (i, off, e) ↦ rw e (put_bucket-IsNear i off _ w (omega arith, n.near i off) n)
]

rearm-has :
    (t : Timer) (w : TimerWheel) (i o c : ℕ)
    → has c (w.wheels i o) ≡ true
    → has c ((rearm t w).wheels i o) ≡ true
rearm-has t w j o c h = elim (rearm-cases t w) [
  | inl e ↦ rw e h
  | inr (i, off, e) ↦ rw e (push-has (again t w) i off w.wheels j o c h)
]

abbrev periodic : Handler
periodic = record {
  run = rearm;
  keeps_now = rearm_now;
  keeps_pos = rearm_pos;
  keeps_near = rearm-IsNear;
  keeps_timers = rearm-has;
}

abbrev timer : Timer
timer = record { cell = 7; expires = 0; fg_id = none }

abbrev wheel_at : ℕ → ℕ → TimerWheel
wheel_at now pos = record { now_us = now; timer_pos = pos; wheels = λ i o. [] }

empty-IsNear : (now pos : ℕ) → IsNear (wheel_at now pos)
empty-IsNear now pos = record { near = λ i o. tt }

-- delays of 16, 4095, 4096 and 2^28 microseconds
index_16 : wheel_index 16 ≡ some 0
unfolding wheel_index
index_16 = refl

index_4095 : wheel_index 4095 ≡ some 0
unfolding wheel_index
index_4095 = refl

index_4096 : wheel_index 4096 ≡ some 1
unfolding wheel_index
index_4096 = refl

index_far : wheel_index 268435456 ≡ some 3
unfolding wheel_index
index_far = refl

timer_add-fires_example :
    (w' : TimerWheel) × (timer_add 1005 timer none 200 (wheel_at 1000 1008) ≡ some w')
    × (p : Pass) × (timer_run periodic 20 1300 w' ≡ some p)
    × (has 7 p.fired ≡ true)
timer_add-fires_example =
    timer_add-fires periodic 1005 timer none 200 (wheel_at 1000 1008) 20 1300
      (empty-IsNear 1000 1008) (omega arith) (omega arith) (omega arith) (omega arith) (omega arith)
      (omega arith) (omega arith) (omega arith)

-- The timer is for 5680 and fires at 1620.
timer_add-early_example :
    (w' : TimerWheel) × (timer_add 1601 timer none 4079 (wheel_at 1601 1615) ≡ some w')
    × (p : Pass) × (timer_run periodic 1 1620 w' ≡ some p)
    × (has 7 p.fired ≡ true)
timer_add-early_example =
    timer_add-early periodic 1601 timer none 4079 (wheel_at 1601 1615) 1 1620
      (empty-IsNear 1601 1615) (omega arith) (omega arith) (omega arith) (omega arith) (omega arith)
      (omega arith) (omega arith) (omega arith) (omega arith)

-- the first wheel has a timer in the bucket 70, the second one in the bucket 1
abbrev loaded : TimerWheel
loaded = record {
  now_us = 1000;
  timer_pos = 1008;
  wheels = λ i o.
      if i == 0 && o == 70
      then record timer { expires = 1110 } ∷ []
      else if i == 1 && o == 1
      then record timer { expires = 5000; cell = 8 } ∷ []
      else [];
}

abbrev busy : TimerWheel
busy = record (wheel_at 1000 1008) { wheels = λ i o. record timer { expires = 1110 } ∷ [] }

busy-IsNear : IsNear busy
busy-IsNear = record { near = λ i o. (omega arith, tt) }

timer_run-returns_example :
    (p : Pass) × (timer_run periodic 20 1300 busy ≡ some p)
    × IsNear p.wheel
    × (p.wheel.now_us ≡ 1300)
    × (1300 < p.wheel.timer_pos)
    × (p.wheel.timer_pos ≤ 1300 + 16)
timer_run-returns_example =
    timer_run-returns periodic 20 1300 busy busy-IsNear (omega arith) (omega arith) (omega arith)
      (omega arith)

timer_deadline-bucket_example :
    (timer_deadline 1001 loaded 2000 ≤ 2000) × (timer_deadline 1001 loaded 2000 ≤ 119)
unfolding is_empty
timer_deadline-bucket_example =
    timer_deadline-bucket 1001 loaded 2000 70 (omega arith) (omega arith) (omega arith)
      (omega arith) (omega arith) refl

-- MAX_DELAY_US - 6
timer_add-cases_example :
    ((1005 + 268435450 + 16 < 1000 + 268435456)
      × (w' : TimerWheel) × (timer_add 1005 timer none 268435450 (wheel_at 1000 1008) ≡ some w'))
    ⊎ ((1000 + 268435456 ≤ 1005 + 268435450 + 16)
        × (timer_add 1005 timer none 268435450 (wheel_at 1000 1008) ≡ none))
timer_add-cases_example =
    timer_add-cases 1005 timer none 268435450 (wheel_at 1000 1008) (omega arith) (omega arith)
      (omega arith) (omega arith)
