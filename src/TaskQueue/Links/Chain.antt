-- ===== src/TaskQueue/Links/Chain.antt =====
-- The `next` pointers of a queue against the sequence of its tasks.
use horus_app_eval.Prelude.{
  ℕ, ◌+◌, ◌≤◌, ◌≡◌, ◌≢◌, refl, ap, sym, ◌∙◌, arith, Option, none, some, List, [], ◌∷◌, ◌++◌, ◌==◌,
  if◌then◌else◌,
}
use horus_app_eval.Server.{Task}
use horus_app_eval.TaskQueue.{Item, to_task}
use horus_app_eval.TaskQueue.Links.{TaskCell, item_of}

-- the tasks at the address `a`, of which there is at most one
abbrev pub at : ℕ → List Task → ℕ
at a [] = 0
at a (t ∷ ts) = (if t.cell == a then 1 else 0) + at a ts

pub at-append : (a : ℕ) (xs ys : List Task) → at a (xs ++ ys) ≡ at a xs + at a ys
at-append a [] ys = omega arith
at-append a (x ∷ xs) ys = omega (arith, at-append a xs ys)

abbrev pub Linked : (ℕ → TaskCell) → Option ℕ → List Task → Type 0
Linked f o [] = o ≡ none
Linked f o (t ∷ ts) =
    (o ≡ some t.cell) × ((f t.cell).item ≡ item_of t) × Linked f (f t.cell).next ts

abbrev pub last_cell : List Task → Option ℕ
last_cell [] = none
last_cell (t ∷ []) = some t.cell
last_cell (t ∷ t' ∷ ts) = last_cell (t' ∷ ts)

pub last_cell-push : (ts : List Task) (t : Task) → last_cell (ts ++ (t ∷ [])) ≡ some t.cell
last_cell-push [] t = refl
last_cell-push (t ∷ []) t' = refl
last_cell-push (t ∷ t' ∷ ts) t'' = last_cell-push (t' ∷ ts) t''

pub at-last : (ts : List Task) (l : ℕ) → last_cell ts ≡ some l → 1 ≤ at l ts
at-last [] l e = absurd (cc e)
at-last (t ∷ []) l e = ground (arith, e)
at-last (t ∷ t' ∷ ts) l e = omega (arith, at-last (t' ∷ ts) l e)

-- A change of cells that are not in the queue leaves it.
pub Linked-frame :
    (f g : ℕ → TaskCell) (o : Option ℕ) (ts : List Task)
    → ((a : ℕ) → 1 ≤ at a ts → g a ≡ f a)
    → Linked f o ts
    → Linked g o ts
Linked-frame f g o [] same h = h
Linked-frame f g o (t ∷ ts) same (start, item, rest) =
    let e = same t.cell (ground arith) in
    (
      start,
      rw e item,
      rw e (Linked-frame f g (f t.cell).next ts (λ a h. same a (omega (arith, h))) rest),
    )

here : (t : Task) (ts : List Task) (a : ℕ) → t.cell ≡ a → at a (t ∷ ts) ≡ 1 + at a ts
here t ts a e = ground (arith, e)

-- The queue with the task `c` behind its last one: the cells `g` differ from `f` at these two.
pub push-Linked :
    (f g : ℕ → TaskCell) (c l : ℕ) (x : Item) (o : Option ℕ) (ts : List Task)
    → g c ≡ record { item = x; next = none }
    → g l ≡ record (f l) { next = some c }
    → ((a : ℕ) → a ≢ c → a ≢ l → g a ≡ f a)
    → ((a : ℕ) → at a ts ≤ 1)
    → at c ts ≡ 0
    → last_cell ts ≡ some l
    → Linked f o ts
    → Linked g o (ts ++ (to_task c x ∷ []))
push-Linked f g c l x o [] new end same once fresh is_last h = absurd (cc is_last)
push-Linked f g c l x o (t ∷ []) new end same once fresh is_last (start, item, rest) =
    let e : t.cell ≡ l = ground (arith, is_last) in
    let moved : g t.cell ≡ record (f t.cell) { next = some c } =
      ap g e ∙ end ∙ ap (λ (a : ℕ). record (f a) { next = some c }) (sym e) in
    (
      start,
      ap (λ (k : TaskCell). k.item) moved ∙ item,
      (
        ap (λ (k : TaskCell). k.next) moved,
        ap (λ (k : TaskCell). k.item) new,
        ap (λ (k : TaskCell). k.next) new,
      ),
    )
push-Linked f g c l x o (t ∷ t' ∷ ts) new end same once fresh is_last (start, item, rest) =
    let kept : g t.cell ≡ f t.cell =
      same t.cell (λ e. absurd (omega (arith, fresh, here t (t' ∷ ts) c e)))
        (λ e. absurd (omega (arith, once l, here t (t' ∷ ts) l e, at-last (t' ∷ ts) l is_last))) in
    (
      start,
      ap (λ (k : TaskCell). k.item) kept ∙ item,
      rw kept (
          push-Linked f g c l x (f t.cell).next (t' ∷ ts) new end same (λ a. omega (arith, once a))
            (omega (arith, fresh)) is_last rest),
    )
