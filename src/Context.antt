-- ===== src/Context.antt =====
-- inc/ix/context.h: a task's execution context, a `ucontext_t` from one pool with a stack from another.
pub mod Count
use horus_app_eval.Prelude.{ℕ, Option, none, some, update}
use horus_app_eval.Mempool.{Mempool, alloc, free}

-- `context_pool`, `stack_pool`, and `uc_stack.ss_sp` of each context
pub record Contexts : Type 0 where
  pub contexts : Mempool
  pub stacks : Mempool
  pub stack_of : ℕ → ℕ

-- Both branches of the second test: without a stack the context goes back.
attach_stack : Contexts → ℕ → Option ℕ × Mempool → Option ℕ × Contexts
attach_stack c cont (none, stacks) =
    (none, record c { contexts = free c.contexts cont; stacks = stacks })
attach_stack c cont (some stack, stacks) =
    (some cont, record c { stacks = stacks; stack_of = update c.stack_of cont stack })

with_context : Contexts → Option ℕ × Mempool → Option ℕ × Contexts
unfolding attach_stack
with_context c (none, contexts) = (none, record c { contexts = contexts })
with_context c (some cont, contexts) =
    attach_stack (record c { contexts = contexts }) cont (alloc c.stacks)

-- `context_alloc`: the context, or none for the return value -1
unfoldable pub context_alloc : Contexts → Option ℕ × Contexts
unfolding with_context
context_alloc c = with_context c (alloc c.contexts)

-- `context_free`
unfoldable pub context_free : Contexts → ℕ → Contexts
context_free c cont = record c {
  contexts = free c.contexts cont;
  stacks = free c.stacks (c.stack_of cont);
}
