-- ===== src/Prelude/Arrays.antt =====
-- C arrays indexed by a core or a slot, as functions on the index, and sums over their first cells.
use Prim.Native.Nat.{ℕ, zero, suc, ◌+◌, ◌≤◌, ◌<◌}
use mathlib.Core.Path.{◌≡◌, refl, ap}
use mathlib.Core.Logic.{◌≢◌}
use native.Mathlib.Decide.{ℕ_discrete}
use native.Mathlib.Omega.{arith}
use horus_app_eval.Prelude.Tests.{◌==◌, if◌then◌else◌}

-- `a[i] = v`
abbrev pub update {ℓ} : {A : Type ℓ} → (ℕ → A) → ℕ → A → ℕ → A
update f i v j = if i == j then v else f j

pub update_self {ℓ} : {A : Type ℓ} (f : ℕ → A) (i : ℕ) (v : A) → update f i v i ≡ v
update_self f i v = ground arith

pub update_ne {ℓ} : {A : Type ℓ} (f : ℕ → A) (i j : ℕ) (v : A) → i ≢ j → update f i v j ≡ f j
update_ne f i j v h = ground arith

pub total : ℕ → (ℕ → ℕ) → ℕ
total zero f = 0
total (suc n) f = total n f + f n

total-update_of_le : (n : ℕ) (f : ℕ → ℕ) (i v : ℕ) → n ≤ i → total n (update f i v) ≡ total n f
unfolding total
total-update_of_le zero f i v h = refl
total-update_of_le (suc n) f i v h = ground (arith, total-update_of_le n f i v)

pub total-update :
    (n : ℕ) (f : ℕ → ℕ) (i v : ℕ) → i < n → total n (update f i v) + f i ≡ total n f + v
unfolding total
total-update zero f i v h = absurd (omega arith)
total-update (suc n) f i v h = ground (arith, total-update n f i v, total-update_of_le n f i v)

-- One cell is at most the sum.
pub le-total : (n : ℕ) (f : ℕ → ℕ) (i : ℕ) → i < n → f i ≤ total n f
unfolding total
le-total zero f i h = absurd (omega arith)
le-total (suc n) f i h = ground (arith, le-total n f i)

-- Sums of arrays that agree below the bound are equal.
pub total_ext : (n : ℕ) (f g : ℕ → ℕ) → ((i : ℕ) → i < n → f i ≡ g i) → total n f ≡ total n g
unfolding total
total_ext zero f g h = refl
total_ext (suc n) f g h =
    omega (arith, total_ext n f g (λ i lt. h i (omega arith)), h n (omega arith))

-- If the array changes at one cell only, so does the sum.
pub total_change :
    (n : ℕ) (f g : ℕ → ℕ) (i : ℕ)
    → i < n
    → ((j : ℕ) → i ≢ j → f j ≡ g j)
    → total n g + f i ≡ total n f + g i
unfolding total
total_change zero f g i h same = absurd (omega arith)
total_change (suc n) f g i h same = elim (ℕ_discrete i n) [
  | yes e ↦ rw e (omega (arith, total_ext n f g (λ j lt. same j (omega arith))))
  | no ne ↦ omega (arith, total_change n f g i (omega arith) same, same n ne)
]

total_mono : (n : ℕ) (f g : ℕ → ℕ) → ((j : ℕ) → f j ≤ g j) → total n f ≤ total n g
unfolding total
total_mono zero f g le = omega arith
total_mono (suc n) f g le = omega (arith, total_mono n f g le, le n)

-- Where one array is below another, and by `d` at one cell, the sums differ by `d` at least.
pub total_gap :
    (n : ℕ) (f g : ℕ → ℕ) (i d : ℕ)
    → i < n
    → ((j : ℕ) → f j ≤ g j)
    → f i + d ≤ g i
    → total n f + d ≤ total n g
unfolding total
total_gap zero f g i d lt le gap = absurd (omega arith)
total_gap (suc n) f g i d lt le gap = elim (ℕ_discrete i n) [
  | yes e ↦ omega (arith, total_mono n f g le, gap, ap f e, ap g e)
  | no ne ↦ omega (arith, total_gap n f g i d (omega arith) le gap, le n)
]

pub total_zero : (n : ℕ) (f : ℕ → ℕ) → ((c : ℕ) → f c ≡ 0) → total n f ≡ 0
unfolding total
total_zero zero f h = refl
total_zero (suc n) f h = omega (arith, total_zero n f h, h n)
