-- ===== src/Timers/Run.antt =====
-- The loop of `timer_run`: its end, and the buckets that it comes to.
use horus_app_eval.Prelude.{
  ℕ, zero, suc, ◌+◌, ◌*◌, ◌^◌, ◌≤◌, ◌<◌, ◌≡◌, inl, inr, refl, ◌∙◌, arith, Bool, true, false, some,
  [], leb, ◌==◌, u64, Bool-cases, ◌>>=◌, leb→le,
}
use horus_app_eval.Timers.{
  Pass, Handler, IsNear, has, wheel_offset, run_timers, timer_run_bucket, run_tick, run_ticks,
}
use horus_app_eval.Timers.Steps.{
  Kept, tracked, put_bucket-IsNear, run_timers-Kept, timer_run_bucket-fires, timer_collapse-Kept,
}

tracked_fired : (o c : ℕ) (p : Pass) → has c p.fired ≡ true → tracked o c p ≡ true
unfolding tracked
tracked_fired o c p e = rw e refl

module _ (h : Handler) (now o c : ℕ) (b d : Bool) where
  bucket_base :
      (off : ℕ) (p : Pass)
      → Kept now o c b d p
      → Kept now (off + 1) c false d (run_timers h off (p.wheel.wheels 0 off) p)
  bucket_base off p k =
      run_timers-Kept h now (off + 1) c false d off (p.wheel.wheels 0 off) p (ground arith)
        (record { at_now = k.at_now; near = k.near; held = λ e. cc e; done = k.done })

  timer_run_bucket-held :
      (off : ℕ) (p : Pass)
      → Kept now o c b d p
      → b ≡ true
      → tracked o c (timer_run_bucket h off p) ≡ true
  timer_run_bucket-held off p k e = elim (Bool-cases (o == off)) [
    | inl same ↦
        tracked_fired o c (timer_run_bucket h off p)
          (timer_run_bucket-fires h now o c b d off p k same e)
    | inr other ↦
        let r = run_timers-Kept h now o c b d off (p.wheel.wheels 0 off) p other k in
        unfold timer_run_bucket tracked in rw other (r.held e)
  ]

  timer_run_bucket-Kept :
      (off : ℕ) (p : Pass) → Kept now o c b d p → Kept now o c b d (timer_run_bucket h off p)
  unfolding timer_run_bucket
  timer_run_bucket-Kept off p k =
      let base = bucket_base off p k in
      record {
        at_now = base.at_now;
        near = put_bucket-IsNear 0 off [] _ tt base.near;
        held = timer_run_bucket-held off p k;
        done = base.done;
      }

  run_tick-Kept :
      (pos : ℕ) (p : Pass)
      → now + 268435456 < 2 ^ 64
      → Kept now o c b d p
      → (p' : Pass) × (run_tick h pos p ≡ some p')
        × Kept now o c b d p'
        × ((wheel_offset pos 0 ≡ o) → b ≡ true → has c p'.fired ≡ true)
  unfolding run_tick
  run_tick-Kept pos p word k =
      let off = wheel_offset pos 0 in
      elim (Bool-cases (off == 0)) [
        | inl zero_off ↦
            let (p', e, k') = timer_collapse-Kept h now o c b d pos p word k in
            (
              timer_run_bucket h off p',
              rw (zero_off, e, ◌>>=◌) refl,
              timer_run_bucket-Kept off p' k',
              λ at. timer_run_bucket-fires h now o c b d off p' k' (ground (arith, at)),
            )
        | inr further ↦ (
          timer_run_bucket h off p,
          rw (further, ◌>>=◌) refl,
          timer_run_bucket-Kept off p k,
          λ at. timer_run_bucket-fires h now o c b d off p k (ground (arith, at)),
        )
      ]

stop :
    (h : Handler) (n pos : ℕ) (p : Pass)
    → p.wheel.now_us < pos
    → run_ticks h (suc n) pos p ≡ some (record p { wheel = record (p.wheel) { timer_pos = pos } })
unfolding run_ticks
stop h n pos p past = let e : leb pos p.wheel.now_us ≡ false = ground (arith, past) in rw e refl

go :
    (h : Handler) (n pos : ℕ) (p p' : Pass)
    → pos ≤ p.wheel.now_us
    → pos + 16 < 2 ^ 64
    → run_tick h pos p ≡ some p'
    → run_ticks h (suc n) pos p ≡ run_ticks h n (pos + 16) p'
unfolding run_ticks
go h n pos p p' due word tick =
    let e : leb pos p.wheel.now_us ≡ true = ground (arith, due) in
    let e' : u64 (pos + 16) ≡ pos + 16 = omega arith in rw (e, tick, ◌>>=◌, e') refl

-- where the loop ends
pub record Ends (now c : ℕ) (d : Bool) (pos : ℕ) (p : Pass) : Type 0 where
  pub end_now : p.wheel.now_us ≡ now
  pub end_near : IsNear p.wheel
  pub past : now < p.wheel.timer_pos
  pub soon : (top : ℕ) → pos ≤ top → now + 16 ≤ top → p.wheel.timer_pos ≤ top
  pub end_done : d ≡ true → has c p.fired ≡ true

module _ (h : Handler) (now o c : ℕ) (b d : Bool) (word : now + 268435456 < 2 ^ 64) where
  late-Ends :
      (n pos : ℕ) (p : Pass)
      → now < pos
      → Kept now o c b d p
      → (p' : Pass) × (run_ticks h (suc n) pos p ≡ some p') × Ends now c d pos p'
  late-Ends n pos p late k = (
    record p { wheel = record (p.wheel) { timer_pos = pos } },
    stop h n pos p (omega (arith, k.at_now)),
    record {
      end_now = k.at_now;
      end_near = record { near = k.near.near };
      past = late;
      soon = λ top le _. le;
      end_done = k.done;
    },
  )

  earlier : {pos : ℕ} {p : Pass} → pos ≤ now → Ends now c d (pos + 16) p → Ends now c d pos p
  earlier due e = record {
    end_now = e.end_now;
    end_near = e.end_near;
    past = e.past;
    soon = λ top le le'. e.soon top (omega arith) le';
    end_done = e.end_done;
  }

  ticked :
      (n pos : ℕ) (p : Pass)
      → pos ≤ now
      → Kept now o c b d p
      → (p' : Pass) × (run_ticks h (suc n) pos p ≡ run_ticks h n (pos + 16) p')
        × Kept now o c b d p'
        × ((wheel_offset pos 0 ≡ o) → b ≡ true → has c p'.fired ≡ true)
  ticked n pos p due k =
      let (p', e, k', f) = run_tick-Kept h now o c b d pos p word k in
      (p', go h n pos p p' (omega (arith, k.at_now)) (omega arith) e, k', f)

  pub run_ticks-Ends :
      (n pos : ℕ) (p : Pass)
      → now < pos + 16 * n
      → Kept now o c b d p
      → (p' : Pass) × (run_ticks h (suc n) pos p ≡ some p') × Ends now c d pos p'
  run_ticks-Ends zero pos p enough k = late-Ends zero pos p (omega arith) k
  run_ticks-Ends (suc n) pos p enough k = elim (Bool-cases (leb pos now)) [
    | inr late ↦ late-Ends (suc n) pos p (ground (arith, late)) k
    | inl due ↦
        let le = leb→le pos now due in
        let (p1, e, k1, _) = ticked (suc n) pos p le k in
        let (p', e', x) = run_ticks-Ends n (pos + 16) p1 (omega arith) k1 in
        (p', e ∙ e', earlier le x)
  ]

-- The loop comes to the position `pos + 16 * k` and fires what its bucket holds.
pub run_ticks-fires :
    (h : Handler) (now o c : ℕ) (word : now + 268435456 < 2 ^ 64) (k n pos : ℕ) (p : Pass)
    → now < pos + 16 * n
    → pos + 16 * k ≤ now
    → wheel_offset (pos + 16 * k) 0 ≡ o
    → Kept now o c true false p
    → (p' : Pass) × (run_ticks h (suc n) pos p ≡ some p') × Ends now c true pos p'
run_ticks-fires h now o c word k zero pos p enough comes at kept = absurd (omega arith)
run_ticks-fires h now o c word zero (suc n) pos p enough comes at kept =
    let le : pos ≤ now = omega arith in
    let same : pos + 16 * 0 ≡ pos = omega arith in
    let (p1, e, k1, f) = ticked h now o c true false word (suc n) pos p le kept in
    let up = f (rw same at at) refl in
    let (p', e', x) =
      run_ticks-Ends h now o c true true word n (pos + 16) p1 (omega arith)
        (record { at_now = k1.at_now; near = k1.near; held = k1.held; done = λ _. up }) in
    (p', e ∙ e', earlier h now o c true true word le x)
run_ticks-fires h now o c word (suc k) (suc n) pos p enough comes at kept =
    let le : pos ≤ now = omega arith in
    let same : pos + 16 * suc k ≡ pos + 16 + 16 * k = omega arith in
    let (p1, e, k1, _) = ticked h now o c true false word (suc n) pos p le kept in
    let (p', e', x) =
      run_ticks-fires h now o c word k n (pos + 16) p1 (omega arith) (omega arith) (rw same at at)
        k1 in
    (p', e ∙ e', earlier h now o c true true word le x)
