-- ===== src/Vm/Collect/Roots.antt =====
-- The roots of a collection in runtime/vm.py: `_roots`, and the frames that `_update_references`
-- rewrites.
use quin_lang.Prelude.{
  Bool, List, [], get_or, if◌then◌else◌, not, reverse, suc, zero, ℕ, ◌&&◌, ◌++◌, ◌==◌, ◌∷◌,
}
use quin_lang.Program.{FunctionInfo}
use quin_lang.Vm.Machine.{Frame, Vm, null_addr}

-- functions[fn_index].ref_slots, none where the index names no function
unfoldable pub ref_slots_of : List FunctionInfo → ℕ → List ℕ
ref_slots_of [] fn = []
ref_slots_of (f ∷ fs) zero = f.ref_slots
ref_slots_of (f ∷ fs) (suc fn) = ref_slots_of fs fn

-- `slot < len(local_values) and local_values[slot] != NULL_ADDR`
unfoldable pub slot_roots : List ℕ → List ℕ → List ℕ
slot_roots locals [] = []
slot_roots locals (slot ∷ slots) =
    let rest = slot_roots locals slots in
    let value = get_or locals slot 0 in if value == null_addr then rest else value ∷ rest

unfoldable pub frame_roots : List FunctionInfo → List Frame → List ℕ
frame_roots functions [] = []
frame_roots functions (f ∷ fs) =
    slot_roots f.locals (ref_slots_of functions f.fn_index) ++ frame_roots functions fs

-- the entries of the operand stack that are marked as references
unfoldable pub stack_roots : List ℕ → List Bool → List ℕ
stack_roots (v ∷ vs) (b ∷ bs) =
    let rest = stack_roots vs bs in if b && not (v == null_addr) then v ∷ rest else rest
stack_roots _ _ = []

unfoldable pub not_null : List ℕ → List ℕ
not_null [] = []
not_null (v ∷ vs) = let rest = not_null vs in if v == null_addr then rest else v ∷ rest

-- The call stack and the operand stack are walked from their bottom.
unfoldable pub roots : {W : Type 0} → List FunctionInfo → Vm W → List ℕ
roots functions vm =
    slot_roots vm.locals (ref_slots_of functions vm.current_fn)
    ++ (frame_roots functions (reverse vm.call_stack)
        ++ (reverse (stack_roots vm.stack vm.stack_is_ref)
            ++ (not_null vm.literals ++ not_null vm.variants)))
