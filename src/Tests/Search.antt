-- ===== src/Tests/Search.antt =====
-- The theorems on the search at a query of two words.
use horus_app_eval.Prelude.{ℕ, ◌+◌, ◌-◌, ◌≤◌, ◌<◌, ◌≡◌, ◌↔◌, refl, some, arith, ◌==◌, if◌then◌else◌}
use horus_app_eval.Message.{Message}
use horus_app_eval.Search.{compute_intersection, search_work}
use horus_app_eval.Search.Intersection.{Entry, Ascending, compute_intersection-common}
use horus_app_eval.Search.Query.{IsWord, Holds, search_work-found}
use horus_app_eval.Tests.Samples.{half_request}

-- the word `w + 1` is in the documents `w + 1` and `w + 2`
abbrev two_docs : ℕ → ℕ → ℕ
two_docs w i = if i == 0 then 2 else w + i

abbrev query : Message
query = record half_request { run_ns = 2; app_data = λ i. i + 1 }

two_docs-Ascending : (w : ℕ) → Ascending (two_docs w) 2
two_docs-Ascending w p q l b = ground arith

query-IsWord : (i : ℕ) → i < 2 → IsWord two_docs (i + 1)
query-IsWord i b = (
  omega arith,
  omega arith,
  record { ascends = λ p q l b'. two_docs-Ascending _ p q l b'; few = omega arith },
)

-- document 2 alone
search_work_run :
    (res : ℕ → ℕ) × (search_work two_docs 0 (λ _ _. 0) query ≡ some res) × (res 0 ≡ 1) × (res 1 ≡ 2)
unfolding search_work compute_intersection
search_work_run = (_, refl, refl, refl)

search_work-found_example :
    (res : ℕ → ℕ) × (search_work two_docs 0 (λ _ _. 0) query ≡ some res)
    × ((d : ℕ) → Holds res d ↔ ((i : ℕ) → i < 2 → Holds (two_docs (query.app_data i - 1)) d))
search_work-found_example =
    search_work-found two_docs 0 (λ _ _. 0) query (omega arith) (omega arith) query-IsWord

compute_intersection-common_example :
    let res = compute_intersection (two_docs 0) (two_docs 1) (λ _. 0) in
    ((d : ℕ) → Entry res (res 0) d ↔ (Entry (two_docs 0) 2 d × Entry (two_docs 1) 2 d))
    × Ascending res (res 0)
    × (res 0 ≤ 2)
    × (res 0 ≤ 2)
    × ((p : ℕ) → res 0 ≤ p → res (1 + p) ≡ 0)
compute_intersection-common_example =
    compute_intersection-common (two_docs 0) (two_docs 1) (λ _. 0) (two_docs-Ascending 0)
      (two_docs-Ascending 1)
