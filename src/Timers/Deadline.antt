-- ===== src/Timers/Deadline.antt =====
-- `timer_deadline` of dp/core/timer.c (shinjuku-rocksdb): how long it lets the core wait.
use horus_app_eval.Prelude.{
  ℕ, zero, suc, ◌+◌, ◌-◌, ◌*◌, ◌/◌, ◌%◌, ◌^◌, ◌≤◌, ◌<◌, ◌≡◌, inl, inr, refl, ap, arith, Bool, true,
  false, Option, none, some, List, [], ◌∷◌, if◌then◌else◌, leb, ◌==◌, u64, Bool-cases, Option-cases,
  min,
}
use native.Mathlib.Nat.{div-mul-le_self, mul-le-mul_right, le_trans}
use horus_app_eval.Timers.{Timer, TimerWheel, wheel_unit, wheel_size, wheel_count}

unfoldable pub is_empty : List Timer → Bool
is_empty [] = true
is_empty (t ∷ ts) = false

-- the loop of `timer_deadline` over the buckets of a wheel, with `n` to go
unfoldable pub first_bucket : TimerWheel → ℕ → ℕ → ℕ → Option ℕ
unfolding is_empty
first_bucket w idx zero start = none
first_bucket w idx (suc n) start =
    if is_empty (w.wheels idx (start % wheel_size))
    then first_bucket w idx n (start + 1)
    else some start

-- the time to the bucket that was found
unfoldable pub time_to : ℕ → ℕ → ℕ → ℕ
time_to clock idx start =
    let deadline_us = u64 (start * wheel_unit idx) in
    if leb deadline_us clock then 0 else deadline_us - clock

-- the loop over the wheels, with `n` to go
unfoldable pub deadline_from : ℕ → TimerWheel → ℕ → ℕ → ℕ → ℕ
unfolding first_bucket time_to
deadline_from clock w max_us zero idx = max_us
deadline_from clock w max_us (suc n) idx =
    let start = w.now_us / wheel_unit idx in
    let end = u64 (w.now_us + max_us) / wheel_unit idx in
    let rest = deadline_from clock w max_us n (idx + 1) in
    if start == end
    then max_us
    else elim (first_bucket w idx (min end (start + wheel_size) - start) (start + 1)) [
      | some s ↦ time_to clock idx s
      | none ↦ rest
    ]

unfoldable pub timer_deadline : ℕ → TimerWheel → ℕ → ℕ
unfolding deadline_from
timer_deadline clock w max_us = deadline_from clock w max_us wheel_count 0

-- The bucket that is found is at the start or behind it, and is one of the `n`.
first_bucket-range :
    (w : TimerWheel) (idx n start s : ℕ)
    → first_bucket w idx n start ≡ some s
    → (start ≤ s) × (s < start + n)
unfolding first_bucket
first_bucket-range w idx zero start s e = absurd (cc e)
first_bucket-range w idx (suc n) start s e =
    elim (Bool-cases (is_empty (w.wheels idx (start % 256)))) [
      | inl skip ↦
          let r = first_bucket-range w idx n (start + 1) s (rw skip at e) in
          (omega (arith, r.0), omega (arith, r.1))
      | inr found ↦ (ground (arith, e, found), ground (arith, e, found))
    ]

-- It is the first with a timer.
first_bucket-first :
    (w : TimerWheel) (idx n start s : ℕ)
    → start ≤ s
    → s < start + n
    → is_empty (w.wheels idx (s % 256)) ≡ false
    → (f : ℕ) × (first_bucket w idx n start ≡ some f) × (f ≤ s)
unfolding first_bucket
first_bucket-first w idx zero start s le lt waits = absurd (omega arith)
first_bucket-first w idx (suc n) start s le lt waits =
    elim (Bool-cases (is_empty (w.wheels idx (start % 256)))) [
      | inl skip ↦ elim (Bool-cases (start == s)) [
        | inl same ↦
            let e : start ≡ s = ground (arith, same) in
            absurd (cc (skip, waits, ap (λ (k : ℕ). is_empty (w.wheels idx (k % 256))) e))
        | inr ne ↦
            let (f, e, le') =
              first_bucket-first w idx n (start + 1) s (ground (arith, ne)) (omega arith) waits in
            (f, rw skip e, le')
      ]
      | inr found ↦ (start, rw found refl, le)
    ]

time_to-le :
    (clock idx s limit : ℕ)
    → s * wheel_unit idx ≤ limit
    → limit < 2 ^ 64
    → time_to clock idx s ≤ limit - clock
unfolding time_to
time_to-le clock idx s limit le word =
    let e : u64 (s * wheel_unit idx) ≡ s * wheel_unit idx = omega arith in rw e (ground arith)

below_end :
    (w : TimerWheel) (idx start end s limit unit : ℕ)
    → end ≡ limit / unit
    → first_bucket w idx (min end (start + 256) - start) (start + 1) ≡ some s
    → s * unit ≤ limit
below_end w idx start end s limit unit e found =
    let r = first_bucket-range w idx _ (start + 1) s found in
    let le : s ≤ limit / unit = omega (arith, r.0, r.1, e) in
    le_trans (mul-le-mul_right unit le) (div-mul-le_self limit unit)

deadline_from-le :
    (clock : ℕ) (w : TimerWheel) (max_us n idx : ℕ)
    → w.now_us ≤ clock
    → w.now_us + max_us < 2 ^ 64
    → deadline_from clock w max_us n idx ≤ max_us
unfolding deadline_from
deadline_from-le clock w max_us zero idx le word = omega arith
deadline_from-le clock w max_us (suc n) idx le word =
    let start = w.now_us / wheel_unit idx in
    let end = u64 (w.now_us + max_us) / wheel_unit idx in
    let e : u64 (w.now_us + max_us) ≡ w.now_us + max_us = omega arith in
    elim (Bool-cases (start == end)) [
      | inl same ↦ rw same (omega arith)
      | inr differ ↦
          elim (Option-cases (first_bucket w idx (min end (start + 256) - start) (start + 1))) [
            | inl empty ↦ rw (differ, empty) (deadline_from-le clock w max_us n (idx + 1) le word)
            | inr (s, found) ↦
                rw (differ, found)
                  (omega (
                    arith,
                    time_to-le clock idx s (w.now_us + max_us)
                        (below_end w idx start end s _ _ (ap (λ (k : ℕ). k / wheel_unit idx) e)
                          found)
                        word,
                  ))
          ]
    ]

-- in the first wheel
not_late :
    (clock : ℕ) (w : TimerWheel) (max_us s n : ℕ)
    → w.now_us + max_us < 2 ^ 64
    → w.now_us / wheel_unit 0 < s
    → s ≤ (w.now_us + max_us) / wheel_unit 0
    → s ≤ w.now_us / wheel_unit 0 + 256
    → is_empty (w.wheels 0 (s % 256)) ≡ false
    → deadline_from clock w max_us (suc n) 0 ≤ s * wheel_unit 0 - clock
unfolding deadline_from
not_late clock w max_us s n word ahead within turn waits =
    let unit = wheel_unit 0 in
    let start = w.now_us / unit in
    let end = u64 (w.now_us + max_us) / unit in
    let e : u64 (w.now_us + max_us) ≡ w.now_us + max_us = omega arith in
    let end_eq : end ≡ (w.now_us + max_us) / unit = ap (λ (k : ℕ). k / unit) e in
    let differ : (start == end) ≡ false = ground (arith, end_eq) in
    let (f, found, le) =
      first_bucket-first w 0 (min end (start + 256) - start) (start + 1) s (omega arith)
        (omega (arith, end_eq)) waits in
    let below =
      le_trans (mul-le-mul_right unit within) (div-mul-le_self (w.now_us + max_us) unit) in
    rw (differ, found)
      (time_to-le clock 0 f (s * unit) (mul-le-mul_right unit le) (omega (arith, below, word)))

-- `timer_deadline` is at most the limit that it is given.
timer_deadline-le :
    (clock : ℕ) (w : TimerWheel) (max_us : ℕ)
    → w.now_us ≤ clock
    → w.now_us + max_us < 2 ^ 64
    → timer_deadline clock w max_us ≤ max_us
unfolding timer_deadline
timer_deadline-le clock w max_us le word = deadline_from-le clock w max_us 3 0 le word

-- `timer_deadline` is at most the limit that it is given, and at most the time to the start of each bucket of
-- the first wheel that holds a timer and lies ahead within one turn and within the limit, if the clock is
-- not behind `now_us` and the limit does not wrap.
pub timer_deadline-bucket :
    (clock : ℕ) (w : TimerWheel) (max_us s : ℕ)
    → w.now_us ≤ clock
    → w.now_us + max_us < 2 ^ 64
    → w.now_us / 16 < s
    → s ≤ (w.now_us + max_us) / 16
    → s ≤ w.now_us / 16 + 256
    → is_empty (w.wheels 0 (s % 256)) ≡ false
    → (timer_deadline clock w max_us ≤ max_us) × (timer_deadline clock w max_us ≤ s * 16 - clock)
unfolding timer_deadline wheel_unit
timer_deadline-bucket clock w max_us s le word ahead within turn waits = (
  timer_deadline-le clock w max_us le word,
  not_late clock w max_us s 2 word ahead within turn waits,
)
