-- ===== src/Search/Intersection.antt =====
-- What `compute_intersection` leaves in the result, for lists in ascending order.
use horus_app_eval.Prelude.{
  ℕ, zero, suc, ◌+◌, ◌≤◌, ◌<◌, ◌≡◌, ◌⊎◌, ◌↔◌, inl, inr, refl, arith, update, u32, true, false, sym,
  ◌∙◌, ap,
}
use horus_app_eval.Search.{Cursor, advance, more, merge, scanned, compute_intersection}

-- `d` is one of the first `n` entries.
abbrev pub Entry : (ℕ → ℕ) → ℕ → ℕ → Type 0
Entry a n d = (p : ℕ) × (p < n) × (a (1 + p) ≡ d)

-- The first `n` entries ascend.
abbrev pub Ascending : (ℕ → ℕ) → ℕ → Type 0
Ascending a n = (p q : ℕ) → p < q → q < n → a (1 + p) < a (1 + q)

lt_cases : (a b : ℕ) → (a < b) ⊎ (b ≤ a)
lt_cases a b = ground arith

le_antisym : {a b : ℕ} → a ≤ b → b ≤ a → a ≡ b
le_antisym h h' = omega arith

at : (a : ℕ → ℕ) {p q : ℕ} → p ≤ q → q ≤ p → a (1 + p) ≡ a (1 + q)
at a h h' = ap (λ x. a (1 + x)) (le_antisym h h')

below : (a : ℕ → ℕ) (v : ℕ) {p k : ℕ} → p < k → update a (1 + k) v (1 + p) ≡ a (1 + p)
below a v h = ground arith

last : (a : ℕ → ℕ) (v : ℕ) {p k : ℕ} → p ≡ k → update a (1 + k) v (1 + p) ≡ v
last a v h = ground arith

-- What holds of the loop's variables after each round.
record Merging (one two orig : ℕ → ℕ) (n m : ℕ) (c : Cursor) : Type 0 where
  pub i_le : c.i ≤ n
  pub j_le : c.j ≤ m
  pub k_le : (c.k ≤ c.i) × (c.k ≤ c.j)
  pub sound :
      (p : ℕ) → p < c.k → Entry one c.i (c.result (1 + p)) × Entry two c.j (c.result (1 + p))
  pub found :
      (q r : ℕ)
      → q < n
      → r < m
      → one (1 + q) ≡ two (1 + r)
      → Entry c.result c.k (one (1 + q)) ⊎ ((c.i ≤ q) × (c.j ≤ r))
  pub ascends : Ascending c.result c.k
  pub frame : (p : ℕ) → c.k ≤ p → c.result (1 + p) ≡ orig (1 + p)

module _ (one two : ℕ → ℕ) (c : Cursor) where
  advance-lower : one (1 + c.i) < two (1 + c.j) → advance one two c ≡ record c { i = c.i + 1 }
  unfolding advance
  advance-lower h = ground arith

  advance-higher : two (1 + c.j) < one (1 + c.i) → advance one two c ≡ record c { j = c.j + 1 }
  unfolding advance
  advance-higher h = ground arith

  advance-common :
      one (1 + c.i) ≡ two (1 + c.j)
      → advance one two c ≡ record {
        i = c.i + 1;
        j = c.j + 1;
        k = c.k + 1;
        result = update c.result (1 + c.k) (one (1 + c.i));
      }
  unfolding advance
  advance-common h = ground arith

  -- a round moves `i` or `j`
  advance-moves : suc (c.i + c.j) ≤ (advance one two c).i + (advance one two c).j
  unfolding advance
  advance-moves = ground arith

  more-cases :
      (more one two c ≡ true) × (c.i < u32 (one 0)) × (c.j < u32 (two 0))
      ⊎ (more one two c ≡ false) × ((u32 (one 0) ≤ c.i) ⊎ (u32 (two 0) ≤ c.j))
  unfolding more
  more-cases = ground arith

module _ (one two orig : ℕ → ℕ) (n m : ℕ) (up : Ascending one n) (up' : Ascending two m) where
  low-Merging :
      (c : Cursor)
      → Merging one two orig n m c
      → c.i < n
      → c.j < m
      → one (1 + c.i) < two (1 + c.j)
      → Merging one two orig n m (record c { i = c.i + 1 })
  low-Merging c h lt lt' less = record {
    i_le = omega arith;
    j_le = h.j_le;
    k_le = (omega (arith, h.k_le.0), h.k_le.1);
    sound = λ p b. let s = h.sound p b in ((s.0.0, omega (arith, s.0.1), s.0.2), s.1);
    found = λ q r lq lr e. elim (h.found q r lq lr e) [
      | inl y ↦ inl y
      | inr y ↦ inr (
        elim (lt_cases c.i q) [
          | inl z ↦ omega arith
          | inr z ↦ absurd (elim (lt_cases c.j r) [
            | inl w ↦ omega (arith, up' c.j r w lr, at one y.0 z)
            | inr w ↦ omega (arith, at one y.0 z, at two y.1 w)
          ])
        ],
        y.1,
      )
    ];
    ascends = h.ascends;
    frame = h.frame;
  }

  high-Merging :
      (c : Cursor)
      → Merging one two orig n m c
      → c.i < n
      → c.j < m
      → two (1 + c.j) < one (1 + c.i)
      → Merging one two orig n m (record c { j = c.j + 1 })
  high-Merging c h lt lt' less = record {
    i_le = h.i_le;
    j_le = omega arith;
    k_le = (h.k_le.0, omega (arith, h.k_le.1));
    sound = λ p b. let s = h.sound p b in (s.0, (s.1.0, omega (arith, s.1.1), s.1.2));
    found = λ q r lq lr e. elim (h.found q r lq lr e) [
      | inl y ↦ inl y
      | inr y ↦ inr (
        y.0,
        elim (lt_cases c.j r) [
          | inl z ↦ omega arith
          | inr z ↦ absurd (elim (lt_cases c.i q) [
            | inl w ↦ omega (arith, up c.i q w lq, at two y.1 z)
            | inr w ↦ omega (arith, at one y.0 w, at two y.1 z)
          ])
        ],
      )
    ];
    ascends = h.ascends;
    frame = h.frame;
  }

  equal-Merging :
      (c : Cursor)
      → Merging one two orig n m c
      → c.i < n
      → c.j < m
      → one (1 + c.i) ≡ two (1 + c.j)
      → Merging one two orig n m (record {
        i = c.i + 1;
        j = c.j + 1;
        k = c.k + 1;
        result = update c.result (1 + c.k) (one (1 + c.i));
      })
  equal-Merging c h lt lt' e =
      let v = one (1 + c.i) in
      record {
        i_le = omega arith;
        j_le = omega arith;
        k_le = (omega (arith, h.k_le.0), omega (arith, h.k_le.1));
        sound = λ p b. elim (lt_cases p c.k) [
          | inl z ↦
              let s = h.sound p z in
              let kept = below c.result v z in
              (
                (s.0.0, omega (arith, s.0.1), s.0.2 ∙ sym kept),
                (s.1.0, omega (arith, s.1.1), s.1.2 ∙ sym kept),
              )
          | inr z ↦
              let new = last c.result v (le_antisym (omega arith) z) in
              ((c.i, omega arith, sym new), (c.j, omega arith, sym e ∙ sym new))
        ];
        found = λ q r lq lr eq. elim (h.found q r lq lr eq) [
          | inl y ↦ inl (y.0, omega (arith, y.1), below c.result v y.1 ∙ y.2)
          | inr y ↦ elim (lt_cases c.i q) [
            | inl z ↦ elim (lt_cases c.j r) [
              | inl w ↦ inr (omega arith, omega arith)
              | inr w ↦ absurd (omega (arith, up c.i q z lq, eq, e, at two y.1 w))
            ]
            | inr z ↦ inl (c.k, omega arith, last c.result v refl ∙ at one y.0 z)
          ]
        ];
        ascends = λ p q l b. elim (lt_cases q c.k) [
          | inl z ↦ omega (
            arith,
            h.ascends p q l z,
            below c.result v z,
            below c.result v {p = p} {k = c.k} (omega arith),
          )
          | inr z ↦
              let s = (h.sound p (omega arith)).0 in
              omega (
                arith,
                up s.0 c.i s.1 lt,
                s.2,
                last c.result v (le_antisym {a = q} {b = c.k} (omega arith) z),
                below c.result v {p = p} {k = c.k} (omega arith),
              )
        ];
        frame = λ p b. ground (arith, h.frame p (omega arith));
      }

  advance-Merging :
      (c : Cursor)
      → Merging one two orig n m c
      → c.i < n
      → c.j < m
      → Merging one two orig n m (advance one two c)
  advance-Merging c h lt lt' = elim (lt_cases (one (1 + c.i)) (two (1 + c.j))) [
    | inl x ↦ rw (advance-lower one two c x) (low-Merging c h lt lt' x)
    | inr x ↦ elim (lt_cases (two (1 + c.j)) (one (1 + c.i))) [
      | inl y ↦ rw (advance-higher one two c y) (high-Merging c h lt lt' y)
      | inr y ↦
          let e = le_antisym y x in rw (advance-common one two c e) (equal-Merging c h lt lt' e)
    ]
  ]

module _ (one two orig : ℕ → ℕ) where
  abbrev Merged : Cursor → Type 0
  Merged c =
      Merging one two orig (u32 (one 0)) (u32 (two 0)) c
      × ((u32 (one 0) ≤ c.i) ⊎ (u32 (two 0) ≤ c.j))

  module _ (up : Ascending one (u32 (one 0))) (up' : Ascending two (u32 (two 0))) where
    merge-Merged :
        (f : ℕ) (c : Cursor)
        → Merging one two orig (u32 (one 0)) (u32 (two 0)) c
        → u32 (one 0) + u32 (two 0) ≤ f + (c.i + c.j)
        → Merged (merge f one two c)
    unfolding merge
    merge-Merged zero c h enough = (h, inl (omega (arith, h.j_le)))
    merge-Merged (suc f) c h enough = elim (more-cases one two c) [
      | inl x ↦ rw x.0 (
          merge-Merged f (advance one two c) (advance-Merging one two orig _ _ up up' c h x.1 x.2)
            (omega (arith, advance-moves one two c)))
      | inr x ↦ rw x.0 (h, x.1)
    ]

    scanned-Merged : Merged (scanned one two orig)
    scanned-Merged =
        merge-Merged (u32 (one 0) + u32 (two 0)) _
          (record {
            i_le = omega arith;
            j_le = omega arith;
            k_le = (omega arith, omega arith);
            sound = λ p b. absurd (omega (arith, b));
            found = λ q r lq lr e. inr (omega arith, omega arith);
            ascends = λ p q l b. absurd (omega (arith, b));
            frame = λ p b. refl;
          })
          (omega arith)

-- the size goes to cell 0 and leaves the entries alone
entry_kept : (a : ℕ → ℕ) (k p : ℕ) → update a 0 k (1 + p) ≡ a (1 + p)
entry_kept a k p = ground arith

-- For two lists in ascending order, whose sizes are read as 32-bit words, the result holds a document
-- number exactly when both lists do, in ascending order, is no longer than either list, and no cell past
-- it is written.
pub compute_intersection-common :
    (one two orig : ℕ → ℕ)
    → Ascending one (u32 (one 0))
    → Ascending two (u32 (two 0))
    → let res = compute_intersection one two orig in
      ((d : ℕ) → Entry res (res 0) d ↔ (Entry one (u32 (one 0)) d × Entry two (u32 (two 0)) d))
      × Ascending res (res 0)
      × (res 0 ≤ u32 (one 0))
      × (res 0 ≤ u32 (two 0))
      × ((p : ℕ) → res 0 ≤ p → res (1 + p) ≡ orig (1 + p))
unfolding compute_intersection
compute_intersection-common one two orig up up' =
    let r = scanned-Merged one two orig up up' in
    let h = r.0 in
    let kept = entry_kept (scanned one two orig).result (scanned one two orig).k in
    (
      (λ d. (
        (λ y.
            let s = h.sound y.0 y.1 in
            let e = sym (kept y.0) ∙ y.2 in
            (
              (s.0.0, omega (arith, s.0.1, h.i_le), s.0.2 ∙ e),
              (s.1.0, omega (arith, s.1.1, h.j_le), s.1.2 ∙ e),
            )),
        λ y. elim (h.found y.0.0 y.1.0 y.0.1 y.1.1 (y.0.2 ∙ sym y.1.2)) [
          | inl z ↦ (z.0, z.1, kept z.0 ∙ z.2 ∙ y.0.2)
          | inr z ↦ absurd (elim r.1 [
            | inl end ↦ omega (arith, end, z.0, y.0.1)
            | inr end ↦ omega (arith, end, z.1, y.1.1)
          ])
        ],
      )),
      (λ p q l b. omega (arith, h.ascends p q l b, kept p, kept q)),
      omega (arith, h.k_le.0, h.i_le),
      omega (arith, h.k_le.1, h.j_le),
      λ p b. kept p ∙ h.frame p b,
    )
