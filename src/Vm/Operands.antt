-- ===== src/Vm/Operands.antt =====
-- The operand stack and the locals of runtime/vm.py: `_push` to `_set_local`.
pub mod Stacked
use quin_lang.Vm.Words.{to_signed, to_word, word_mod}
use quin_lang.Vm.Floats.{FloatOps, bits_to_float, float_to_bits}
use quin_lang.Prelude.{
  Bool, List, Option, [], err, false, get_or, if◌then◌else◌, leb, length, ltb, negsuc, none, ok,
  pos, set, some, ℕ, ℤ, ◌%◌, ◌*◌, ◌+ℤ◌, ◌+◌, ◌/◌, ◌∷◌,
}
use quin_lang.Vm.Machine.{
  Exec, Vm, float_overflow, gets, index_error, local_range, pure, refuse, require, stack_underflow,
  ◌>>=◌, ◌>>◌,
}

-- `index < 0 or index >= len(self.locals)`
unfoldable pub slot_at : List ℕ → ℤ → Option ℕ
slot_at locals (pos i) = if ltb i (length locals) then some i else none
slot_at locals (negsuc i) = none

module _ {W : Type 0} where
  -- `_push_raw`
  unfoldable pub push_raw : ℕ → Bool → Exec W (Unit {0})
  push_raw value is_ref vm =
      (ok tt, record vm { stack = value ∷ vm.stack; stack_is_ref = is_ref ∷ vm.stack_is_ref })

  -- `_push`
  unfoldable pub push : ℤ → Bool → Exec W (Unit {0})
  push value is_ref = push_raw (to_word value) is_ref

  -- stack.pop()
  pop_value : List ℕ → Exec W ℕ
  pop_value [] vm = (err index_error, vm)
  pop_value (v ∷ s) vm = (ok v, record vm { stack = s })

  -- stack_is_ref.pop()
  pop_flag : List Bool → Exec W Bool
  pop_flag [] vm = (err index_error, vm)
  pop_flag (b ∷ s) vm = (ok b, record vm { stack_is_ref = s })

  -- the two pops that `RET` makes with no test of its own
  unfoldable pub pop_both : Exec W (ℕ × Bool)
  unfolding pop_value pop_flag
  pop_both = do
    stack ← gets (λ vm. vm.stack)
    v ← pop_value stack
    flags ← gets (λ vm. vm.stack_is_ref)
    b ← pop_flag flags
    pure (v, b)

  -- `len(self.stack) <= self.frame_base`
  unfoldable pub at_base : Vm W → Bool
  at_base vm = leb (length vm.stack) vm.frame_base

  -- `_pop_tagged`
  unfoldable pub pop_tagged : Exec W (ℕ × Bool)
  pop_tagged = do empty ← gets at_base; refuse empty stack_underflow; pop_both

  -- `_pop`: the tag goes first here, and the two pops touch different lists
  unfoldable pub pop : Exec W ℕ
  unfolding pop_value pop_flag
  pop = do
    empty ← gets at_base
    refuse empty stack_underflow
    flags ← gets (λ vm. vm.stack_is_ref)
    pop_flag flags
    stack ← gets (λ vm. vm.stack)
    pop_value stack

  -- the value that a test sees under a signed reading
  unfoldable pub pop_signed : Exec W ℤ
  pop_signed = do v ← pop; pure (to_signed v)

  -- `_local`
  unfoldable pub local : ℤ → Exec W ℕ
  local index vm = elim (slot_at vm.locals index) [
    | none ↦ (err (local_range index (length vm.locals)), vm)
    | some i ↦ (ok (get_or vm.locals i 0), vm)
  ]

  -- `_set_local`
  unfoldable pub set_local : ℤ → ℕ → Exec W (Unit {0})
  set_local index value vm = elim (slot_at vm.locals index) [
    | none ↦ (err (local_range index (length vm.locals)), vm)
    | some i ↦ (ok tt, record vm { locals = set vm.locals i (value % word_mod) })
  ]

module _ {F W : Type 0} (fl : FloatOps F) where
  -- `_push_float`
  unfoldable pub push_float : F → Exec W (Unit {0})
  push_float value = do bits ← require (float_to_bits fl value) float_overflow; push_raw bits false

  -- `_pop_float`
  unfoldable pub pop_float : Exec W F
  pop_float = do bits ← pop; pure (bits_to_float fl bits)

  -- `_local_float`: the low word first. The words do not overlap, so `|` is a sum.
  unfoldable pub local_float : ℤ → Exec W F
  local_float index = do
    low ← local index
    high ← local (index +ℤ pos 1)
    pure (bits_to_float fl (low + high * word_mod))

  -- `_set_local_float`
  unfoldable pub set_local_float : ℤ → F → Exec W (Unit {0})
  set_local_float index value = do
    bits ← require (float_to_bits fl value) float_overflow
    set_local index (bits % word_mod)
    set_local (index +ℤ pos 1) (bits / word_mod % word_mod)
