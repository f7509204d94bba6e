-- ===== src/Timers/Steps.antt =====
-- The steps of `timer_run`: the state that they keep, and the timers that fire.
use horus_app_eval.Prelude.{
  ℕ, ◌+◌, ◌^◌, ◌≤◌, ◌<◌, ◌≡◌, inl, inr, refl, ◌∙◌, arith, Bool, true, false, ◌&&◌, ◌||◌, some, List,
  [], ◌∷◌, if◌then◌else◌, leb, ◌==◌, Bool-cases, ◌>>=◌,
}
use horus_app_eval.Timers.{
  Timer, TimerWheel, Pass, Handler, IsNear, AllNear, has, put_bucket, wheel_offset, unlink, fire,
  unlink_from, run_timers, timer_run_bucket, reinsert, reinsert_timers, timer_reinsert_bucket,
  timer_collapse,
}
use horus_app_eval.Timers.Insert.{timer_insert-slot}

pub AllNear-mono :
    (now later : ℕ) (ts : List Timer) → now ≤ later → AllNear now ts → AllNear later ts
AllNear-mono now later [] le a = tt
AllNear-mono now later (t ∷ ts) le a = (omega (arith, a.0), AllNear-mono now later ts le a.1)

AllNear-unlink : (now c : ℕ) (ts : List Timer) → AllNear now ts → AllNear now (unlink c ts)
unfolding unlink
AllNear-unlink now c [] a = tt
AllNear-unlink now c (t ∷ ts) a = elim (Bool-cases (t.cell == c)) [
  | inl e ↦ rw e a.1
  | inr e ↦ rw e (a.0, AllNear-unlink now c ts a.1)
]

pub put_bucket-IsNear :
    (i o : ℕ) (ts : List Timer) (w : TimerWheel)
    → AllNear w.now_us ts
    → IsNear w
    → IsNear (put_bucket i o ts w)
put_bucket-IsNear i o ts w a n = record {
  near = λ i' o'. elim (Bool-cases (i' == i && o' == o)) [
    | inl e ↦ rw e a
    | inr e ↦ rw e (n.near i' o')
  ];
}

-- The timer at `c` is in the bucket `o` of the first wheel, or its handler has run.
unfoldable pub tracked : ℕ → ℕ → Pass → Bool
tracked o c p = has c p.fired || has c (p.wheel.wheels 0 o)

-- What the steps of a pass keep: the clock and, for a timer `c` that is tracked (if `b`) or that has
-- fired (if `d`), that it is so.
pub record Kept (now o c : ℕ) (b d : Bool) (p : Pass) : Type 0 where
  pub at_now : p.wheel.now_us ≡ now
  pub near : IsNear p.wheel
  pub held : b ≡ true → tracked o c p ≡ true
  pub done : d ≡ true → has c p.fired ≡ true

or_right : (x : Bool) {y z : Bool} → (y ≡ true → z ≡ true) → (x || y) ≡ true → (x || z) ≡ true
or_right true f e = refl
or_right false f e = f e

-- Adding to one bucket takes no timer from any.
pub push-has :
    (t : Timer) (i off : ℕ) (f : ℕ → ℕ → List Timer) (j o c : ℕ)
    → has c (f j o) ≡ true
    → has c (if j == i && o == off then t ∷ f i off else f j o) ≡ true
unfolding has
push-has t i off f j o c e = elim (Bool-cases (j == i && o == off)) [
  | inl at ↦
      let at_i : j ≡ i = ground (arith, at) in
      let at_o : o ≡ off = ground (arith, at) in
      let e' : has c (f i off) ≡ true = rw (← at_i, ← at_o) e in rw at (ground (arith, e'))
  | inr ne ↦ rw ne e
]

module _ (h : Handler) (now o c : ℕ) (b d : Bool) where
  fire-Kept : (t : Timer) (p : Pass) → Kept now o c b d p → Kept now o c b d (fire h t p)
  unfolding fire tracked has
  fire-Kept t p k = record {
    at_now = h.keeps_now t p.wheel ∙ k.at_now;
    near = h.keeps_near t p.wheel k.near;
    held = λ e. ground (arith, k.held e, h.keeps_timers t p.wheel 0 o c);
    done = λ e. ground (arith, k.done e);
  }

  unlink_from-Kept :
      (i off : ℕ) (t : Timer) (p : Pass)
      → (0 == i && o == off) ≡ false
      → Kept now o c b d p
      → Kept now o c b d (unlink_from i off t p)
  unfolding unlink_from tracked
  unlink_from-Kept i off t p other k = record {
    at_now = k.at_now;
    near =
        put_bucket-IsNear i off _ p.wheel
          (AllNear-unlink p.wheel.now_us t.cell (p.wheel.wheels i off) (k.near.near i off)) k.near;
    held = λ e. rw other (k.held e);
    done = k.done;
  }

  push-Kept :
      (t : Timer) (i off : ℕ) (p : Pass)
      → t.expires + 16 < now + 268435456
      → Kept now o c b d p
      → Kept now o c b d (record p { wheel = put_bucket i off (t ∷ p.wheel.wheels i off) p.wheel })
  unfolding tracked
  push-Kept t i off p close k = record {
    at_now = k.at_now;
    near =
        put_bucket-IsNear i off _ p.wheel (omega (arith, close, k.at_now), k.near.near i off)
          k.near;
    held = λ e. or_right (has c p.fired) (push-has t i off p.wheel.wheels 0 o c) (k.held e);
    done = k.done;
  }

  reinsert-Kept :
      (t : Timer) (p : Pass)
      → now + 268435456 < 2 ^ 64
      → t.expires + 16 < now + 268435456
      → Kept now o c b d p
      → (p' : Pass) × (reinsert h t p ≡ some p') × Kept now o c b d p'
  unfolding reinsert
  reinsert-Kept t p word close k = elim (Bool-cases (leb t.expires p.wheel.now_us)) [
    | inl up ↦ (fire h t p, rw up refl, fire-Kept t p k)
    | inr later ↦
        let slot =
          timer_insert-slot t p.wheel (omega arith) (ground (arith, later))
            (omega (arith, k.at_now)) in
        (
          record p {
            wheel =
                put_bucket slot.0 (wheel_offset (t.expires + 16) slot.0)
                  (t ∷ p.wheel.wheels slot.0 (wheel_offset (t.expires + 16) slot.0)) p.wheel;
          },
          rw (later, slot.4) refl,
          push-Kept t slot.0 (wheel_offset (t.expires + 16) slot.0) p close k,
        )
  ]

  reinsert_timers-Kept :
      (i off : ℕ) (ts : List Timer) (p : Pass)
      → now + 268435456 < 2 ^ 64
      → (0 == i) ≡ false
      → AllNear now ts
      → Kept now o c b d p
      → (p' : Pass) × (reinsert_timers h i off ts p ≡ some p') × Kept now o c b d p'
  unfolding reinsert_timers
  reinsert_timers-Kept i off [] p word other a k = (p, refl, k)
  reinsert_timers-Kept i off (t ∷ ts) p word other a k =
      let (p', e, k') =
        reinsert-Kept t (unlink_from i off t p) word a.0
          (unlink_from-Kept i off t p (rw other refl) k) in
      let (p'', e', k'') = reinsert_timers-Kept i off ts p' word other a.1 k' in
      (p'', rw (e, ◌>>=◌) e', k'')

  timer_reinsert_bucket-Kept :
      (i off : ℕ) (p : Pass)
      → now + 268435456 < 2 ^ 64
      → (0 == i) ≡ false
      → Kept now o c b d p
      → (p' : Pass) × (timer_reinsert_bucket h i off p ≡ some p') × Kept now o c b d p'
  unfolding timer_reinsert_bucket
  timer_reinsert_bucket-Kept i off p word other k =
      reinsert_timers-Kept i off (p.wheel.wheels i off) p word other
        (rw (← k.at_now) (k.near.near i off)) k

  pub timer_collapse-Kept :
      (pos : ℕ) (p : Pass)
      → now + 268435456 < 2 ^ 64
      → Kept now o c b d p
      → (p' : Pass) × (timer_collapse h pos p ≡ some p') × Kept now o c b d p'
  unfolding timer_collapse
  timer_collapse-Kept pos p word k =
      let (p', e, k') = timer_reinsert_bucket-Kept 1 (wheel_offset pos 1) p word refl k in
      elim (Bool-cases (wheel_offset pos 1 == 0)) [
        | inl zero_off ↦
            let (p'', e', k'') =
              timer_reinsert_bucket-Kept 2 (wheel_offset pos 2) p' word refl k' in
            (p'', rw (e, ◌>>=◌, zero_off) e', k'')
        | inr further ↦ (p', rw (e, ◌>>=◌, further) refl, k')
      ]

  pub run_timers-Kept :
      (off : ℕ) (ts : List Timer) (p : Pass)
      → (o == off) ≡ false
      → Kept now o c b d p
      → Kept now o c b d (run_timers h off ts p)
  unfolding run_timers
  run_timers-Kept off [] p other k = k
  run_timers-Kept off (t ∷ ts) p other k =
      run_timers-Kept off ts _ other (fire-Kept t _ (unlink_from-Kept 0 off t p other k))

-- Every timer of the bucket has fired when its loop ends.
module _ (h : Handler) (c : ℕ) where
  pub run_timers-fired :
      (off : ℕ) (ts : List Timer) (p : Pass)
      → has c p.fired ≡ true
      → has c (run_timers h off ts p).fired ≡ true
  unfolding run_timers fire unlink_from has
  run_timers-fired off [] p e = e
  run_timers-fired off (t ∷ ts) p e = run_timers-fired off ts _ (ground (arith, e))

  run_timers-all :
      (off : ℕ) (ts : List Timer) (p : Pass)
      → has c ts ≡ true
      → has c (run_timers h off ts p).fired ≡ true
  unfolding run_timers fire unlink_from has
  run_timers-all off [] p e = cc e
  run_timers-all off (t ∷ ts) p e = elim (Bool-cases (t.cell == c)) [
    | inl same ↦ run_timers-fired off ts _ (ground (arith, same))
    | inr other ↦ run_timers-all off ts _ (ground (arith, e, other))
  ]

module _ (h : Handler) (now o c : ℕ) (b d : Bool) (off : ℕ) (p : Pass) where
  pub timer_run_bucket-fires :
      Kept now o c b d p
      → (o == off) ≡ true
      → b ≡ true
      → has c (timer_run_bucket h off p).fired ≡ true
  unfolding timer_run_bucket tracked
  timer_run_bucket-fires k same e =
      let at : o ≡ off = ground (arith, same) in
      elim (Bool-cases (has c p.fired)) [
        | inl already ↦ run_timers-fired h c off (p.wheel.wheels 0 off) p already
        | inr waits ↦
            run_timers-all h c off (p.wheel.wheels 0 off) p
              (rw (← at) (ground (arith, k.held e, waits)))
      ]
