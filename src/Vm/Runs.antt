-- ===== src/Vm/Runs.antt =====
-- Running actions whose first outcome is known: one rule for each way to build an action.
use quin_lang.Vm.Heap.{Heap}
use quin_lang.Vm.Store.{peek}
use quin_lang.Vm.Machine.{Exec, Fault, Vm, refuse, resume, ◌>>=◌}
use quin_lang.Prelude.{Bool, Result, ap, err, false, if◌then◌else◌, ok, ◌∙◌, ◌≡◌}

-- `m` takes `vm` to `r`.
pub record Runs {W A : Type 0} (m : Exec W A) (vm : Vm W) (r : Result Fault A × Vm W) : Type 0 where
  pub at : m vm ≡ r

module _ {W A B : Type 0} where
  pub run_bind :
      (m : Exec W A) (k : A → Exec W B) {vm vm' : Vm W} {a : A} {r : Result Fault B × Vm W}
      → Runs m vm (ok a, vm')
      → Runs (k a) vm' r
      → Runs (m >>= k) vm r
  unfolding ◌>>=◌
  run_bind m k e f = record { at = ap (λ o. resume o.0 k o.1) e.at ∙ f.at }

  pub run_peek :
      (f : Heap → Result Fault A) (k : A → Exec W B) {vm : Vm W} {a : A} {r : Result Fault B × Vm W}
      → f vm.heap ≡ ok a
      → Runs (k a) vm r
      → Runs (peek f >>= k) vm r
  unfolding peek ◌>>=◌
  run_peek f k {vm} e h = record { at = ap (λ o. resume o k vm) e ∙ h.at }

module _ {W B : Type 0} where
  pub run_refuse :
      (b : Bool) (e : Fault) (k : Unit {0} → Exec W B) {vm : Vm W} {r : Result Fault B × Vm W}
      → b ≡ false
      → Runs (k tt) vm r
      → Runs (refuse b e >>= k) vm r
  unfolding refuse ◌>>=◌
  run_refuse b e k {vm} h f = record {
    at = ap (λ b. resume (if b then err e else ok tt) k vm) h ∙ f.at;
  }

  pub run_if_false :
      (b : Bool) (m n : Exec W B) {vm : Vm W} {r : Result Fault B × Vm W}
      → b ≡ false
      → Runs n vm r
      → Runs (if b then m else n) vm r
  run_if_false b m n {vm} e f = record { at = ap (λ b. (if b then m else n) vm) e ∙ f.at }
