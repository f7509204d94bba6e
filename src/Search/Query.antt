-- ===== src/Search/Query.antt =====
-- A search finds the documents that all its words list.
use horus_app_eval.Prelude.{
  ℕ, zero, suc, ◌+◌, ◌-◌, ◌≤◌, ◌<◌, ◌%◌, ◌≡◌, ◌↔◌, inl, inr, refl, arith, update, some, ◌==◌, true,
  Bool-cases, lt→ltb, leb, u32, u64, ◌^◌, sym,
}
use native.Mathlib.Decide.{ℕ_discrete}
use horus_app_eval.Message.{Message}
use horus_app_eval.Search.{
  compute_intersection, search_work, intersect_words, docs_of, first_word, in_buffer,
  max_intersection_docs, word_count,
}
use horus_app_eval.Search.Intersection.{Entry, Ascending, compute_intersection-common}

-- A list in ascending order that fits in a buffer.
pub record IsListed (a : ℕ → ℕ) : Type 0 where
  pub ascends : Ascending a (a 0)
  pub few : a 0 ≤ max_intersection_docs

-- `d` is in the list.
abbrev pub Holds : (ℕ → ℕ) → ℕ → Type 0
Holds a d = Entry a (a 0) d

compute_intersection-Holds :
    {one two : ℕ → ℕ} (tmp : ℕ → ℕ)
    → IsListed one
    → IsListed two
    → let res = compute_intersection one two tmp in
      IsListed res × ((d : ℕ) → Holds res d ↔ (Holds one d × Holds two d))
compute_intersection-Holds {one} {two} tmp h h' =
    let t =
      compute_intersection-common one two tmp (λ p q l b. h.ascends p q l (omega (arith, b)))
        (λ p q l b. h'.ascends p q l (omega (arith, b))) in
    (
      record { ascends = t.1; few = omega (arith, t.2, h.few) },
      λ d. (
        (λ y.
            let s = (t.0 d).0 y in
            ((s.0.0, omega (arith, s.0.1), s.0.2), (s.1.0, omega (arith, s.1.1), s.1.2))),
        λ y. (t.0 d).1 (
          (y.0.0, omega (arith, y.0.1, h.few), y.0.2),
          (y.1.0, omega (arith, y.1.1, h'.few), y.1.2),
        ),
      ),
    )

-- The words of a query that are known, with lists that fit.
abbrev pub IsWord : (ℕ → ℕ → ℕ) → ℕ → Type 0
IsWord docs w = (1 ≤ w) × (w ≤ word_count) × IsListed (docs (w - 1))

word_index : (w : ℕ) → 1 ≤ w → w ≤ word_count → u32 (u64 (w + 2 ^ 64 - 1)) ≡ w - 1
word_index w h h' = omega arith

docs_of-IsWord : (docs : ℕ → ℕ → ℕ) (w : ℕ) → IsWord docs w → docs_of docs w ≡ some (docs (w - 1))
unfolding docs_of
docs_of-IsWord docs w h =
    rw (word_index w h.0 h.1, lt→ltb (w - 1) word_count (omega (arith, h.0, h.1)))

in_buffer-IsListed : (a : ℕ → ℕ) → IsListed a → in_buffer a ≡ some a
unfolding in_buffer
in_buffer-IsListed a h = ground (arith, h.few)

-- What a run of the loop gives for the words from `cnt` on.
FoundFrom : (ℕ → ℕ → ℕ) → Message → ℕ → ℕ → (ℕ → ℕ) → (ℕ → ℕ) → Type 0
FoundFrom docs req cnt n start res =
    IsListed res
    × ((d : ℕ)
        → Holds res d ↔ (
            Holds start d
            × ((i : ℕ) → cnt ≤ i → i < cnt + n → Holds (docs (req.app_data i - 1)) d)))

no-entry : (a : ℕ → ℕ) (d : ℕ) → (a 0 == 0) ≡ true → ¬ Holds a d
no-entry a d e y = ground (arith, y.1)

-- the first of the words, and those after it
all_from :
    (docs : ℕ → ℕ → ℕ) (req : Message) (d n : ℕ) {cnt : ℕ}
    → Holds (docs (req.app_data cnt - 1)) d
    → ((i : ℕ) → cnt + 1 ≤ i → i < cnt + 1 + n → Holds (docs (req.app_data i - 1)) d)
    → (i : ℕ) → cnt ≤ i
    → i < cnt + suc n
    → Holds (docs (req.app_data i - 1)) d
all_from docs req d n {cnt} here after i l b = elim (ℕ_discrete cnt i) [
  | yes e ↦ rw (sym e) here
  | no ne ↦ after i (omega (arith, ne)) (omega arith)
]

module _ (docs : ℕ → ℕ → ℕ) (req : Message) where
  intersect_words-FoundFrom :
      (n cnt : ℕ) (tmp : ℕ → ℕ → ℕ) (start : ℕ → ℕ)
      → IsListed start
      → ((i : ℕ) → cnt ≤ i → i < cnt + n → IsWord docs (req.app_data i))
      → (res : ℕ → ℕ) × (intersect_words n cnt docs req tmp start ≡ some res)
        × FoundFrom docs req cnt n start res
  unfolding intersect_words FoundFrom
  intersect_words-FoundFrom zero cnt tmp start h words =
      (start, refl, (h, λ d. ((λ y. (y, λ i l b. absurd (omega arith))), λ y. y.0)))
  intersect_words-FoundFrom (suc n) cnt tmp start h words =
      let w = words cnt (omega arith) (omega arith) in
      let next = compute_intersection start (docs (req.app_data cnt - 1)) (tmp (cnt % 2)) in
      let t = compute_intersection-Holds (tmp (cnt % 2)) h w.2 in
      let r =
        intersect_words-FoundFrom n (cnt + 1) (update tmp (cnt % 2) next) next t.0
          (λ i l b. words i (omega arith) (omega arith)) in
      rw (docs_of-IsWord docs (req.app_data cnt) w, in_buffer-IsListed next t.0)
        (elim (Bool-cases (next 0 == 0)) [
          | inl e ↦ rw e (
            next,
            refl,
            (
              t.0,
              λ d. (
                (λ y. absurd (no-entry next d e y)),
                λ y. (t.1 d).1 (y.0, y.1 cnt (omega arith) (omega arith)),
              ),
            ),
          )
          | inr e ↦ rw e (
            r.0,
            r.1,
            (
              r.2.0,
              λ d. (
                (λ y.
                    let z = (r.2.1 d).0 y in
                    let s = (t.1 d).0 z.0 in (s.0, all_from docs req d n s.1 z.1)),
                λ y. (r.2.1 d).1 (
                  (t.1 d).1 (y.0, y.1 cnt (omega arith) (omega arith)),
                  λ i l b. y.1 i (omega arith) (omega arith),
                ),
              ),
            ),
          )
        ])

first_some : (stack : ℕ) (req : Message) → 1 ≤ req.run_ns → first_word stack req ≡ req.app_data 0
first_some stack req h = ground arith

few_words : (req : Message) → req.run_ns ≤ 8 → leb req.run_ns 8 ≡ true
few_words req h = ground arith

-- For a query of one to eight words, each known and with a list in ascending order of at most 64
-- documents, `search_work` meets no fault, and finds a document exactly when each word lists it.
pub search_work-found :
    (docs : ℕ → ℕ → ℕ) (stack : ℕ) (tmp : ℕ → ℕ → ℕ) (req : Message)
    → 1 ≤ req.run_ns
    → req.run_ns ≤ 8
    → ((i : ℕ) → i < req.run_ns → IsWord docs (req.app_data i))
    → (res : ℕ → ℕ) × (search_work docs stack tmp req ≡ some res)
      × ((d : ℕ) → Holds res d ↔ ((i : ℕ) → i < req.run_ns → Holds (docs (req.app_data i - 1)) d))
unfolding search_work FoundFrom
search_work-found docs stack tmp req some_words few words =
    let w = words 0 (omega arith) in
    let r =
      intersect_words-FoundFrom docs req (req.run_ns - 1) 1 tmp (docs (req.app_data 0 - 1)) w.2
        (λ i l b. words i (omega arith)) in
    rw (first_some stack req some_words, few_words req few, docs_of-IsWord docs (req.app_data 0) w)
      (
        r.0,
        r.1,
        λ d. (
          (λ y i b.
              all_from docs req d (req.run_ns - 1) {cnt = 0} ((r.2.1 d).0 y).0
                (λ j l b'. ((r.2.1 d).0 y).1 j (omega arith) (omega arith)) i (omega arith)
                (omega arith)),
          λ y. (r.2.1 d).1 (y 0 (omega arith), λ i l b. y i (omega arith)),
        ),
      )
