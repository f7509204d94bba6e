-- ===== src/Configuration/Cpus.antt =====
-- The CPUs of the configuration, and the array `cluster_id`, which is written with them.
use horus_app_eval.Prelude.{
  ℕ, zero, suc, ◌+◌, ◌≤◌, ◌<◌, ◌≡◌, ◌≢◌, refl, ap, ◌∙◌, arith, Bool, true, false, ◌||◌, not, ◌==◌,
  some, ltb, update, update_self, update_ne, ◌>>=◌, Bool-cases, ◌⊎◌, inl, inr,
}
use native.Mathlib.Decide.{ℕ_discrete}
use horus_app_eval.Prelude.Int.{ℤ, pos, pos_part, ltb_ℤ}
use horus_app_eval.Net.{Errno, einval, Status, success, failed}
use horus_app_eval.Configuration.{
  Parameters, Libconfig, Handled, cpu, is_among, push_cpu, add_cpu, unless_failed,
}
use horus_app_eval.Configuration.Settings.{read_cpus, parse_cpu}

not_among : (x n : ℕ) (a : ℕ → ℕ) → is_among x n a ≡ false → (i : ℕ) → i < n → a i ≢ x
unfolding is_among
not_among x zero a h i lt = absurd (omega arith)
not_among x (suc n) a h i lt = elim (ℕ_discrete n i) [
  | yes e ↦ λ hit. absurd (ground (arith, h, hit, ap a e))
  | no ne ↦ not_among x n a (ground (arith, h)) i (omega arith)
]

-- The CPUs are distinct and exist, and there is room in `cluster_id` for the entry behind them.
pub record Listed {Str : Type 0} (cpu_count : ℕ) (c : Parameters Str) : Type 0 where
  pub few : c.num_cpus ≤ 127
  pub below : (i : ℕ) → i < c.num_cpus → c.cpu i < cpu_count
  pub distinct : (i j : ℕ) → i < c.num_cpus → j < c.num_cpus → c.cpu i ≡ c.cpu j → i ≡ j

among_suc : (x n : ℕ) (a : ℕ → ℕ) → is_among x (n + 1) a ≡ (a n == x || is_among x n a)
unfolding is_among
among_suc x n a = let e : n + 1 ≡ suc n = omega arith in rw e refl

kept_among :
    (x n : ℕ) (a : ℕ → ℕ) (k v : ℕ)
    → n ≤ k
    → is_among x n a ≡ true
    → is_among x n (update a k v) ≡ true
unfolding is_among
kept_among x zero a k v le h = h
kept_among x (suc n) a k v le h = elim (Bool-cases (a n == x)) [
  | inl here ↦ rw (update_ne a k n v (λ e. absurd (omega (arith, le, e))), here) refl
  | inr other ↦
      rw (update_ne a k n v (λ e. absurd (omega (arith, le, e))), other)
        (kept_among x n a k v (omega arith) (ground (arith, h, other)))
]

or_true : (b : Bool) → (b || true) ≡ true
or_true true = refl
or_true false = refl

module _ {Str : Type 0} (cpu_count : ℕ) where
  abbrev with_cpu : ℕ → Parameters Str → Parameters Str
  with_cpu x c = record c {
    cpu = update c.cpu c.num_cpus x;
    num_cpus = c.num_cpus + 1;
    cluster_id = update c.cluster_id (c.num_cpus + 1) 0;
  }

  with_cpu-Listed :
      (x : ℕ) (c : Parameters Str)
      → Listed cpu_count c
      → c.num_cpus < 127
      → x < cpu_count
      → is_among x c.num_cpus c.cpu ≡ false
      → Listed cpu_count (with_cpu x c)
  with_cpu-Listed x c l room lt new = record {
    few = omega arith;
    below = λ i h. ground (arith, l.below i, lt);
    distinct = λ i j h h' e. ground (
      arith,
      e,
      l.distinct i j,
      not_among x c.num_cpus c.cpu new i,
      not_among x c.num_cpus c.cpu new j,
    );
  }

  -- the CPU `x` is recorded
  abbrev Has : ℕ → Parameters Str → Type 0
  Has x c = is_among x c.num_cpus c.cpu ≡ true

  with_cpu-Has : (x y : ℕ) (c : Parameters Str) → Has x c → Has x (with_cpu y c)
  with_cpu-Has x y c h =
      let kept = kept_among x c.num_cpus c.cpu c.num_cpus y (omega arith) h in
      rw (among_suc x c.num_cpus (update c.cpu c.num_cpus y), kept) (or_true _)

  with_cpu_self : (x : ℕ) (c : Parameters Str) → Has x (with_cpu x c)
  with_cpu_self x c =
      let same : (x == x) ≡ true = ground arith in
      rw (among_suc x c.num_cpus (update c.cpu c.num_cpus x), update_self c.cpu c.num_cpus x, same)
        refl

  -- what `add_cpu` and the loops over it return: all CPUs that were recorded are kept, and `z` is recorded
  -- if the status is success
  record Added (z : ℤ) (c : Parameters Str) (k : ℕ) (o : Handled Str) : Type 0 where
    pub after : Parameters Str
    pub listed : Listed cpu_count after
    pub few_more : after.num_cpus ≤ c.num_cpus + k
    pub keeps : (x : ℕ) → Has x c → Has x after
    pub result :
        ((o ≡ some (success, after)) × Has (pos_part z) after)
        ⊎ ((e : Errno) × (o ≡ some (failed e, after)))

  add_cpu-Added :
      (z : ℤ) (c : Parameters Str)
      → Listed cpu_count c
      → c.num_cpus < 127
      → Added z c 1 (add_cpu cpu_count z c)
  unfolding add_cpu push_cpu
  add_cpu-Added z c l room = elim (Bool-cases (ltb_ℤ z (pos 0) || not (ltb_ℤ z (pos cpu_count)))) [
    | inl out ↦ record {
      after = c;
      listed = l;
      few_more = omega arith;
      keeps = λ x h. h;
      result = inr (einval, rw out refl);
    }
    | inr valid ↦ elim (Bool-cases (is_among (pos_part z) c.num_cpus c.cpu)) [
      | inl old ↦ record {
        after = c;
        listed = l;
        few_more = omega arith;
        keeps = λ x h. h;
        result = inl (rw (valid, old) refl, old);
      }
      | inr new ↦
          let fits : ltb c.num_cpus 128 ≡ true = ground (arith, room) in
          let fits' : ltb (c.num_cpus + 1) 128 ≡ true = ground (arith, room) in
          let lt : pos_part z < cpu_count = ground (arith, valid) in
          record {
            after = with_cpu (pos_part z) c;
            listed = with_cpu-Listed (pos_part z) c l room lt new;
            few_more = omega arith;
            keeps = λ x h. with_cpu-Has x (pos_part z) c h;
            result = inl (rw (valid, new, fits, fits') refl, with_cpu_self (pos_part z) c);
          }
    ]
  ]

module _ {S Str : Type 0} (lib : Libconfig S Str) (cpu_count : ℕ) (s : S) where
  abbrev Rest : ℕ → ℕ → Parameters Str → Handled Str → Type 0
  Rest n j c o =
      (c' : Parameters Str) × Listed cpu_count c'
      × ((x : ℕ) → Has cpu_count x c → Has cpu_count x c')
      × (((o ≡ some (success, c'))
            × ((i : ℕ) → j ≤ i → i < j + n → Has cpu_count (pos_part (lib.get_int_elem s i)) c'))
          ⊎ ((e : Errno) × (o ≡ some (failed e, c'))))

  read_step :
      (n j : ℕ) (c : Parameters Str) (st : Status) (c' : Parameters Str)
      → add_cpu cpu_count (lib.get_int_elem s j) c ≡ some (st, c')
      → read_cpus lib cpu_count s (suc n) j c
        ≡ unless_failed (read_cpus lib cpu_count s n (j + 1)) (st, c')
  unfolding read_cpus
  read_step n j c st c' e = rw (e, ◌>>=◌) refl

  read_cpus-Rest :
      (n j : ℕ) (c : Parameters Str)
      → Listed cpu_count c
      → c.num_cpus + n ≤ 127
      → Rest n j c (read_cpus lib cpu_count s n j c)
  unfolding read_cpus
  read_cpus-Rest zero j c l room = (c, l, λ x h. h, inl (refl, λ i le lt. absurd (omega arith)))
  read_cpus-Rest (suc n) j c l room =
      let a = add_cpu-Added cpu_count (lib.get_int_elem s j) c l (omega arith) in
      elim (a.result) [
        | inr (e, failed_e) ↦ (
          a.after,
          a.listed,
          a.keeps,
          inr (e, read_step n j c (failed e) a.after failed_e ∙ unfold unless_failed in refl),
        )
        | inl (done, here) ↦
            let (c', l', keeps, result) =
              read_cpus-Rest n (j + 1) a.after a.listed (omega (arith, a.few_more)) in
            let step : read_cpus lib cpu_count s (suc n) j c
                ≡ read_cpus lib cpu_count s n (j + 1) a.after =
              read_step n j c success a.after done ∙ unfold unless_failed in refl in
            (
              c',
              l',
              λ x h. keeps x (a.keeps x h),
              elim result [
                | inl (e, all) ↦ inl (
                  step ∙ e,
                  λ i le lt. elim (ℕ_discrete j i) [
                    | yes e' ↦ rw (← e') (keeps _ here)
                    | no ne ↦ all i (omega arith) (omega arith)
                  ],
                )
                | inr (e, failed_e) ↦ inr (e, step ∙ failed_e)
              ],
            )
      ]

  -- For a list of CPUs that, with the ones from before, has at most 127 entries, `parse_cpu` does not fault, the
  -- CPUs that it has recorded are distinct and exist, and if it succeeds, every entry of the list is
  -- among them.
  pub parse_cpu-Listed :
      (c : Parameters Str) (i : ℕ)
      → lib.lookup cpu ≡ some s
      → lib.has_elem s 0 ≡ true
      → Listed cpu_count c
      → c.num_cpus + lib.setting_length s ≤ 127
      → i < lib.setting_length s
      → (c' : Parameters Str) × Listed cpu_count c'
        × (((parse_cpu lib cpu_count c ≡ some (success, c'))
              × (is_among (pos_part (lib.get_int_elem s i)) c'.num_cpus c'.cpu ≡ true))
            ⊎ ((e : Errno) × (parse_cpu lib cpu_count c ≡ some (failed e, c'))))
  unfolding parse_cpu
  parse_cpu-Listed c i found list l room lt =
      let (c', l', _, result) = read_cpus-Rest (lib.setting_length s) 0 c l room in
      (
        c',
        l',
        elim result [
          | inl (e, all) ↦ inl (rw (found, list) e, all i (omega arith) (omega arith))
          | inr (err, e) ↦ inr (err, rw (found, list) e)
        ],
      )
