-- ===== src/Vm/Ops/Integers.antt =====
-- The integer, logical and stack branches of `_run` in runtime/vm.py.
pub mod Signed
use quin_lang.Prelude.{
  Bool, List, Option, eqb_ℤ, false, if◌then◌else◌, leb_ℤ, ltb, ltb_ℤ, neg_ℤ, negsuc, not, pos, ℕ, ℤ,
  ◌*ℤ◌, ◌*◌, ◌+◌, ◌-ℤ◌, ◌==◌, ◌^◌, ◌||◌, ◌∷◌,
}
use Prim.Native.Nat.{bit_and, bit_or, bit_xor}
use quin_lang.Vm.Words.{shift_right, trunc_div}
use quin_lang.Vm.Machine.{
  Exec, division_by_zero, gets, index_error, modify, modulo_by_zero, operand, pure, raise, refuse,
  require, shift_count, stack_underflow, zero_division, ◌>>=◌, ◌>>◌,
}
use quin_lang.Vm.Operands.{at_base, pop, pop_signed, pop_tagged, push, push_raw}

-- the six comparisons, on signed values
pub data Comparison : Type 0 where
  eq ne lt le gt ge : Comparison

unfoldable pub holds : Comparison → ℤ → ℤ → Bool
holds eq a b = eqb_ℤ a b
holds ne a b = not (eqb_ℤ a b)
holds lt a b = ltb_ℤ a b
holds le a b = leb_ℤ a b
holds gt a b = ltb_ℤ b a
holds ge a b = leb_ℤ b a

-- int(res)
unfoldable pub int_of_bool : Bool → ℤ
int_of_bool b = if b then pos 1 else pos 0

module _ {W : Type 0} where
  -- `PUSH_INT`
  unfoldable pub exec_push_int : Option ℤ → Exec W (Unit {0})
  exec_push_int arg = do n ← operand arg; push n false

  -- `ADD`: a sum involving a reference is a reference
  unfoldable pub exec_add : Exec W (Unit {0})
  exec_add = do
    (b, b_ref) ← pop_tagged
    (a, a_ref) ← pop_tagged
    push (pos (a + b)) (a_ref || b_ref)

  unfoldable pub exec_sub : Exec W (Unit {0})
  exec_sub = do
    (b, b_ref) ← pop_tagged
    (a, a_ref) ← pop_tagged
    push (pos a -ℤ pos b) (a_ref || b_ref)

  unfoldable pub exec_mul : Exec W (Unit {0})
  exec_mul = do b ← pop; a ← pop; push (pos (a * b)) false

  unfoldable pub exec_div : Exec W (Unit {0})
  exec_div = do
    b ← pop_signed
    a ← pop_signed
    refuse (eqb_ℤ b (pos 0)) division_by_zero
    q ← require (trunc_div a b) zero_division
    push q false

  unfoldable pub exec_mod : Exec W (Unit {0})
  exec_mod = do
    b ← pop_signed
    a ← pop_signed
    refuse (eqb_ℤ b (pos 0)) modulo_by_zero
    q ← require (trunc_div a b) zero_division
    push (a -ℤ q *ℤ b) false

  -- `XOR`, `AND` and `OR`
  unfoldable pub exec_bitwise : (ℕ → ℕ → ℕ) → Exec W (Unit {0})
  exec_bitwise f = do b ← pop; a ← pop; push (pos (f a b)) false

  unfoldable pub exec_xor : Exec W (Unit {0})
  exec_xor = exec_bitwise bit_xor

  unfoldable pub exec_and : Exec W (Unit {0})
  exec_and = exec_bitwise bit_and

  unfoldable pub exec_or : Exec W (Unit {0})
  exec_or = exec_bitwise bit_or

  -- `count < 0 or count > 15`
  unfoldable pub shift_amount : ℤ → Exec W ℕ
  shift_amount (negsuc i) = raise (shift_count (negsuc i))
  shift_amount (pos n) = if ltb 15 n then raise (shift_count (pos n)) else pure n

  -- `SHL`
  unfoldable pub exec_shl : Exec W (Unit {0})
  unfolding shift_amount
  exec_shl = do
    count ← pop_signed
    value ← pop
    n ← shift_amount count
    push (pos (value * 2 ^ n)) false

  -- `SHR`, arithmetic
  unfoldable pub exec_shr : Exec W (Unit {0})
  unfolding shift_amount
  exec_shr = do
    count ← pop_signed
    value ← pop_signed
    n ← shift_amount count
    push (shift_right value n) false

  unfoldable pub exec_neg : Exec W (Unit {0})
  exec_neg = do a ← pop; push (neg_ℤ (pos a)) false

  -- `CMP_EQ` to `CMP_GE`
  unfoldable pub exec_cmp : Comparison → Exec W (Unit {0})
  exec_cmp op = do b ← pop_signed; a ← pop_signed; push (int_of_bool (holds op a b)) false

  unfoldable pub exec_not : Exec W (Unit {0})
  exec_not = do a ← pop; push (if a == 0 then pos 1 else pos 0) false

  -- ~a is -a - 1
  unfoldable pub exec_bitnot : Exec W (Unit {0})
  exec_bitnot = do a ← pop; push (negsuc a) false

  unfoldable pub exec_pop : Exec W (Unit {0})
  exec_pop = do v ← pop; pure tt

  -- the tops of the two stacks, an IndexError where one is missing
  unfoldable pub peek_top : List ℕ → List Bool → Exec W (ℕ × Bool)
  peek_top (v ∷ vs) (b ∷ bs) = pure (v, b)
  peek_top _ _ = raise index_error

  unfoldable pub exec_dup : Exec W (Unit {0})
  unfolding peek_top
  exec_dup = do
    empty ← gets at_base
    refuse empty stack_underflow
    vm ← gets (λ vm. vm)
    (v, b) ← peek_top vm.stack vm.stack_is_ref
    push_raw v b

  unfoldable pub exec_swap : Exec W (Unit {0})
  exec_swap = do
    (b, b_ref) ← pop_tagged
    (a, a_ref) ← pop_tagged
    push_raw b b_ref
    push_raw a a_ref

  -- `JMP`
  unfoldable pub exec_jmp : Option ℤ → Exec W (Unit {0})
  exec_jmp arg = do target ← operand arg; modify (λ vm. record vm { pc = target })

  -- `JZ`; the operand is read only where the jump is made
  unfoldable pub exec_jz : Option ℤ → Exec W (Unit {0})
  exec_jz arg = do v ← pop; if v == 0 then exec_jmp arg else pure tt

  unfoldable pub exec_jnz : Option ℤ → Exec W (Unit {0})
  exec_jnz arg = do v ← pop; if v == 0 then pure tt else exec_jmp arg
