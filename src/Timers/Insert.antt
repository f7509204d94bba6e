-- ===== src/Timers/Insert.antt =====
-- Where `timer_insert` and `timer_add` put a timer.
use horus_app_eval.Prelude.{
  ℕ, zero, suc, ◌+◌, ◌-◌, ◌*◌, ◌/◌, ◌^◌, ◌≤◌, ◌<◌, ◌≡◌, ◌⊎◌, inl, inr, refl, ◌∙◌, arith, Option,
  none, some, false, ◌∷◌, ltb, u64, Bool-cases, ltb→lt, lt→ltb,
}
use native.Mathlib.Nat.{pow-le-pow_right}
use horus_app_eval.Timers.{
  Timer, TimerWheel, top_bit, wheel_index, wheel_offset, wheel_unit, put_bucket, add_head,
  expire_us, timer_insert, timer_add,
}

top_bit-le : (n x : ℕ) → top_bit n x ≤ n
unfolding top_bit
top_bit-le zero x = omega arith
top_bit-le (suc n) x = ground (arith, top_bit-le n x)

lt-top_bit : (n x : ℕ) → x < 2 ^ suc n → x < 2 ^ suc (top_bit n x)
unfolding top_bit
lt-top_bit zero x h = h
lt-top_bit (suc n) x h = elim (Bool-cases (ltb x (2 ^ suc n))) [
  | inl small ↦ rw small (lt-top_bit n x (ltb→lt x _ small))
  | inr big ↦ rw big h
]

top_bit-pow-le : (n x : ℕ) → 1 ≤ x → 2 ^ top_bit n x ≤ x
unfolding top_bit
top_bit-pow-le zero x h = h
top_bit-pow-le (suc n) x h = elim (Bool-cases (ltb x (2 ^ suc n))) [
  | inl small ↦ rw small (top_bit-pow-le n x h)
  | inr big ↦ rw big (ground (arith, big))
]

le-top_bit : (a x : ℕ) → x < 2 ^ 64 → 2 ^ a ≤ x → a ≤ top_bit 63 x
le-top_bit a x word low = elim (Bool-cases (ltb (top_bit 63 x) a)) [
  | inl lt ↦ absurd (
      omega
        (arith, lt-top_bit 63 x word, low, pow-le-pow_right {n = 2} (omega arith) (ltb→lt _ a lt)))
  | inr ge ↦ ground (arith, ge)
]

top_bit-lt : (b x : ℕ) → 1 ≤ x → x < 2 ^ b → top_bit 63 x < b
top_bit-lt b x one high = elim (Bool-cases (ltb (top_bit 63 x) b)) [
  | inl lt ↦ ltb→lt _ b lt
  | inr ge ↦
      let le : b ≤ top_bit 63 x = ground (arith, ge) in
      absurd
        (omega (arith, top_bit-pow-le 63 x one, high, pow-le-pow_right {n = 2} (omega arith) le))
]

wheel_index-eq :
    (i x : ℕ)
    → x < 2 ^ 64
    → 16 ≤ x
    → i * 8 + 4 ≤ top_bit 63 x
    → top_bit 63 x < i * 8 + 12
    → wheel_index x ≡ some i
unfolding wheel_index
wheel_index-eq i x word low a b =
    let e : (top_bit 63 x - 4) / 8 ≡ i = omega (arith, a, b) in ground (arith, e, a)

-- the wheel of a delay, by its size
pub wheel_index-first : (x : ℕ) → 16 ≤ x → x < 4096 → wheel_index x ≡ some 0
wheel_index-first x low high =
    wheel_index-eq 0 x (omega arith) low (le-top_bit 4 x (omega arith) low)
      (top_bit-lt 12 x (omega arith) high)

wheel_index-second : (x : ℕ) → 4096 ≤ x → x < 1048576 → wheel_index x ≡ some 1
wheel_index-second x low high =
    wheel_index-eq 1 x (omega arith) (omega arith) (le-top_bit 12 x (omega arith) low)
      (top_bit-lt 20 x (omega arith) high)

wheel_index-third : (x : ℕ) → 1048576 ≤ x → x < 268435456 → wheel_index x ≡ some 2
wheel_index-third x low high =
    wheel_index-eq 2 x (omega arith) (omega arith) (le-top_bit 20 x (omega arith) low)
      (top_bit-lt 28 x (omega arith) high)

wheel_index-far :
    (x : ℕ) → 268435456 ≤ x → x < 2 ^ 64 → (i : ℕ) × (wheel_index x ≡ some i) × (3 ≤ i)
unfolding wheel_index
wheel_index-far x low word =
    let a = le-top_bit 28 x word low in
    ((top_bit 63 x - 4) / 8, ground (arith, a), omega (arith, a))

delay_eq : (e now : ℕ) → e < 2 ^ 64 → now ≤ e → u64 (e + 2 ^ 64 - now) ≡ e - now
delay_eq e now word le = omega arith

-- `timer_insert` of a timer that is not yet due, by the wheel of its delay
inserted :
    (t : Timer) (w : TimerWheel) (i : ℕ)
    → t.expires + 16 < 2 ^ 64
    → w.now_us ≤ t.expires + 16
    → wheel_index (t.expires + 16 - w.now_us) ≡ some i
    → timer_insert t w ≡ add_head t (t.expires + 16) (some i) w
unfolding timer_insert expire_us
inserted t w i word due index =
    let e : u64 (t.expires + 16) ≡ t.expires + 16 = omega arith in
    rw (e, delay_eq (t.expires + 16) w.now_us word due, index) refl

abbrev pub slotted : Timer → ℕ → TimerWheel → TimerWheel
slotted t i w = let off = wheel_offset (t.expires + 16) i in put_bucket i off (t ∷ w.wheels i off) w

pub inserted_at :
    (t : Timer) (w : TimerWheel) (i : ℕ)
    → i < 3
    → t.expires + 16 < 2 ^ 64
    → w.now_us ≤ t.expires + 16
    → wheel_index (t.expires + 16 - w.now_us) ≡ some i
    → timer_insert t w ≡ some (slotted t i w)
unfolding add_head
inserted_at t w i lt word due index = rw (inserted t w i word due index, lt→ltb i 3 lt) refl

three_wheels :
    (d : ℕ)
    → 16 ≤ d
    → d < 268435456
    → (i : ℕ) × (i < 3) × (wheel_index d ≡ some i) × (wheel_unit i ≤ d) × (d < 256 * wheel_unit i)
unfolding wheel_unit
three_wheels d low high = elim (Bool-cases (ltb d 4096)) [
  | inl a ↦ (
    0,
    omega arith,
    wheel_index-first d low (ltb→lt _ _ a),
    omega arith,
    omega (arith, ltb→lt _ _ a),
  )
  | inr a ↦
      let a' : 4096 ≤ d = ground (arith, a) in
      elim (Bool-cases (ltb d 1048576)) [
        | inl b ↦ (
          1,
          omega arith,
          wheel_index-second d a' (ltb→lt _ _ b),
          omega arith,
          omega (arith, ltb→lt _ _ b),
        )
        | inr b ↦
            let b' : 1048576 ≤ d = ground (arith, b) in
            (2, omega arith, wheel_index-third d b' high, omega arith, omega arith)
      ]
]

-- A timer that is due in less than 2^28 - 16 microseconds is put at the head of one bucket, in the wheel
-- whose 256 buckets span its delay (with 16 microseconds added) and whose unit does not exceed it. The
-- bucket is that of the time at which it expires, plus 16 microseconds; nothing else changes.
pub timer_insert-slot :
    (t : Timer) (w : TimerWheel)
    → t.expires + 16 < 2 ^ 64
    → w.now_us ≤ t.expires
    → t.expires + 16 < w.now_us + 268435456
    → (i : ℕ) × (i < 3)
      × (wheel_unit i ≤ t.expires + 16 - w.now_us)
      × (t.expires + 16 - w.now_us < 256 * wheel_unit i)
      × (timer_insert t w
          ≡ some (
              put_bucket i
                (wheel_offset (t.expires + 16) i)
                (t ∷ w.wheels i (wheel_offset (t.expires + 16) i))
                w))
timer_insert-slot t w word due near =
    let s = three_wheels (t.expires + 16 - w.now_us) (omega arith) (omega arith) in
    (s.0, s.1, s.3, s.4, inserted_at t w s.0 s.1 word (omega arith) s.2)

add_head-shape :
    (t : Timer) (e : ℕ) (o : Option ℕ) (w : TimerWheel)
    → (add_head t e o w ≡ none)
      ⊎ ((i : ℕ) × (off : ℕ) × (add_head t e o w ≡ some (put_bucket i off (t ∷ w.wheels i off) w)))
unfolding add_head
add_head-shape t e none w = inl refl
add_head-shape t e (some i) w = elim (Bool-cases (ltb i 3)) [
  | inl lt ↦ inr (i, wheel_offset e i, rw lt refl)
  | inr far ↦ inl (rw far refl)
]

-- `timer_insert` faults or adds the timer to one bucket.
pub timer_insert-shape :
    (t : Timer) (w : TimerWheel)
    → (timer_insert t w ≡ none)
      ⊎ ((i : ℕ) × (off : ℕ) × (timer_insert t w ≡ some (put_bucket i off (t ∷ w.wheels i off) w)))
unfolding timer_insert
timer_insert-shape t w =
    add_head-shape t (expire_us t) (wheel_index (u64 (expire_us t + 2 ^ 64 - w.now_us))) w

-- a delay that the wheels cannot take
overrun :
    (t : Timer) (w : TimerWheel)
    → t.expires + 16 < 2 ^ 64
    → w.now_us + 268435456 ≤ t.expires + 16
    → timer_insert t w ≡ none
unfolding add_head
overrun t w word far =
    let f = wheel_index-far (t.expires + 16 - w.now_us) (omega arith) (omega arith) in
    let out : ltb f.0 3 ≡ false = ground (arith, f.2) in
    rw (inserted t w f.0 word (omega arith) f.1, out) refl

pub in_range :
    (clock : ℕ) (t : Timer) (fg : Option ℕ) (delay : ℕ) (w : TimerWheel)
    → 0 < delay
    → delay < 268435456
    → clock + delay < 2 ^ 64
    → timer_add clock t fg delay w
      ≡ timer_insert (record t { expires = clock + delay; fg_id = fg }) w
unfolding timer_add
in_range clock t fg delay w pos lt word =
    let e : u64 (clock + delay) ≡ clock + delay = omega arith in
    rw (lt→ltb 0 delay pos, lt→ltb delay 268435456 lt, e) refl

-- A delay that passes the checks of `timer_add` (above 0, below MAX_DELAY_US) is stored if the time from
-- the cached `now_us` to its end plus 16 microseconds is below MAX_DELAY_US; else `timer_add` writes
-- behind the last wheel. The clock is not behind `now_us`, and no sum of times wraps.
pub timer_add-cases :
    (clock : ℕ) (t : Timer) (fg : Option ℕ) (delay : ℕ) (w : TimerWheel)
    → 0 < delay
    → delay < 268435456
    → w.now_us ≤ clock
    → clock + delay + 16 < 2 ^ 64
    → ((clock + delay + 16 < w.now_us + 268435456)
        × (w' : TimerWheel) × (timer_add clock t fg delay w ≡ some w'))
      ⊎ ((w.now_us + 268435456 ≤ clock + delay + 16) × (timer_add clock t fg delay w ≡ none))
timer_add-cases clock t fg delay w pos lt late word =
    let s : Timer = record t { expires = clock + delay; fg_id = fg } in
    let same = in_range clock t fg delay w pos lt (omega arith) in
    elim (Bool-cases (ltb (clock + delay + 16) (w.now_us + 268435456))) [
      | inl a ↦
          let slot = timer_insert-slot s w word (omega arith) (ltb→lt _ _ a) in
          inl (ltb→lt _ _ a, _, same ∙ slot.4)
      | inr a ↦
          let far : w.now_us + 268435456 ≤ clock + delay + 16 = ground (arith, a) in
          inr (far, same ∙ overrun s w word far)
    ]
