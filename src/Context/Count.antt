-- ===== src/Context/Count.antt =====
-- Contexts and stacks are taken and given back one for one, also when only the stack is missing.
use horus_app_eval.Prelude.{
  ℕ, ◌+◌, ◌≡◌, ◌⊎◌, refl, Option, none, some, arith, ap, ◌∙◌, sym, inl, inr,
}
use horus_app_eval.Mempool.{Mempool, alloc}
use horus_app_eval.Mempool.Available.{available-free, AllocCount, alloc-AllocCount}
use horus_app_eval.Mempool.Count.{available}
use horus_app_eval.Context.{Contexts, context_alloc, context_free, with_context, attach_stack}

-- `context_alloc` takes one context and one stack, or fails for want of either and takes nothing.
abbrev pub ContextTaken : Contexts → Option ℕ × Contexts → Type 0
ContextTaken c (none, c') =
    ((available c.contexts ≡ 0) ⊎ (available c.stacks ≡ 0))
    × (available c'.contexts ≡ available c.contexts)
    × (available c'.stacks ≡ available c.stacks)
ContextTaken c (some cont, c') =
    (available c.contexts ≡ available c'.contexts + 1)
    × (available c.stacks ≡ available c'.stacks + 1)

attach_stack-taken :
    (c d : Contexts) (cont : ℕ) (r : Option ℕ × Mempool)
    → AllocCount (available d.stacks) r
    → available c.contexts ≡ available d.contexts + 1
    → c.stacks ≡ d.stacks
    → ContextTaken c (attach_stack d cont r)
unfolding attach_stack
attach_stack-taken c d cont (none, stacks) h taken same = (
  inr (ap available same ∙ h.0),
  available-free d.contexts cont ∙ sym taken,
  h.1 ∙ sym (ap available same ∙ h.0),
)
attach_stack-taken c d cont (some stack, stacks) h taken same =
    (taken, omega (arith, h, ap available same))

with_context-taken :
    (c : Contexts) (r : Option ℕ × Mempool)
    → AllocCount (available c.contexts) r
    → ContextTaken c (with_context c r)
unfolding with_context
with_context-taken c (none, contexts) h = (inl h.0, h.1 ∙ sym h.0, refl)
with_context-taken c (some cont, contexts) h =
    attach_stack-taken c _ cont (alloc c.stacks) (alloc-AllocCount c.stacks) h refl

-- `context_alloc` takes exactly one context and one stack, or fails: then one of the two pools was empty,
-- and both have as many free elements as before.
pub context_alloc-taken : (c : Contexts) → ContextTaken c (context_alloc c)
unfolding context_alloc
context_alloc-taken c = with_context-taken c (alloc c.contexts) (alloc-AllocCount c.contexts)

-- `context_free` gives both back.
pub context_free-count :
    (c : Contexts) (cont : ℕ)
    → (available (context_free c cont).contexts ≡ available c.contexts + 1)
      × (available (context_free c cont).stacks ≡ available c.stacks + 1)
unfolding context_free
context_free-count c cont =
    (available-free c.contexts cont, available-free c.stacks (c.stack_of cont))

context_cases_of :
    (c : Contexts) (r : Option ℕ × Contexts)
    → ContextTaken c r
    → ((d : Contexts) × (r ≡ (none, d)) × (available d.contexts ≡ available c.contexts))
      ⊎ ((cont : ℕ) × (d : Contexts) × (r ≡ (some cont, d))
          × (available c.contexts ≡ available d.contexts + 1))
context_cases_of c (none, d) h = inl (d, refl, h.1)
context_cases_of c (some cont, d) h = inr (cont, d, refl, h.0)

pub context_alloc-cases :
    (c : Contexts)
    → ((d : Contexts) × (context_alloc c ≡ (none, d))
        × (available d.contexts ≡ available c.contexts))
      ⊎ ((cont : ℕ) × (d : Contexts) × (context_alloc c ≡ (some cont, d))
          × (available c.contexts ≡ available d.contexts + 1))
context_alloc-cases c = context_cases_of c (context_alloc c) (context_alloc-taken c)
