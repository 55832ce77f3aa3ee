-- ===== src/Vm/Collect.antt =====
-- The collector of runtime/vm.py: a precise, sliding mark-compact cycle.
pub mod Roots
pub mod Mark
pub mod Compact
pub mod Shape
pub mod Rewritten
pub mod Untouched
use quin_lang.Vm.Collect.Compact.{plan_compaction, slide, update_references}
use quin_lang.Vm.Collect.Roots.{roots}
use quin_lang.Vm.Collect.Mark.{mark_all, object_starts}
use quin_lang.Prelude.{ℕ, ◌+◌, ◌-◌}
use quin_lang.Vm.Machine.{Exec, Setup, Vm, gets, heap_start, modify, ◌>>=◌, ◌>>◌}

module _ {F W : Type 0} (setup : Setup F W) where
  -- `collect`
  unfoldable pub collect : Exec W (Unit {0})
  collect = do
    modify
        (λ vm. record vm { stats = record (vm.stats) { collections = vm.stats.collections + 1 } })
    starts ← object_starts setup.structs
    roots ← gets (roots setup.functions)
    mark_all setup.structs starts roots
    forward ← plan_compaction setup.structs
    update_references setup.functions setup.structs forward starts
    slide setup.structs forward

-- `heap_in_use`
unfoldable pub heap_in_use : {W : Type 0} → Vm W → ℕ
heap_in_use vm = vm.heap_ptr - heap_start
