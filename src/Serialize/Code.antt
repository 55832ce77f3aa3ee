-- ===== src/Serialize/Code.antt =====
-- The code and the source map of compiler/serialize.py, written and read.
use quin_lang.Prelude.{
  Bool, List, Option, [], ap, arith, false, leb, length, ltb, map, negsuc, none, ok, pos, refl,
  some, subst, suc, sym, true, ℕ, ℤ, ◌%◌, ◌+◌, ◌/◌, ◌==◌, ◌∷◌, ◌≡◌,
}
use quin_lang.Serialize.Errors.{opcode_too_large, operand_range}
use quin_lang.Serialize.Write.{
  has_operand, max_opcode, max_operand, write_code, write_debug, write_each, write_instruction,
  write_instructions, write_marker, write_operand, write_source_map, write_u32, ◌▷◌,
}
use quin_lang.Serialize.Read.{
  pure, read_code, read_debug, read_instruction, read_instructions, read_marker, read_opcode,
  read_operand, read_source_map,
}
use quin_lang.Serialize.Reads.{
  Reads, Reads-bind, Reads-err, Reads-if, Reads-last, Reads-list, Reads-pure, Reads-skip, Reads-u16,
  Reads-u32,
}
use quin_lang.Program.{Instruction}
use quin_lang.Bytecode.OpCode.{OpCode, of_value-value, value, value_bounds}
use quin_lang.Bytecode.SourceMap.{Position, SourceMap, empty, markers, zip}

Reads-opcode : (pc n : ℕ) (op : OpCode) → n ≡ value op → Reads (read_opcode pc n) (ok []) op
unfolding read_opcode
Reads-opcode pc n op e = rw (e, of_value-value op, read_opcode) (Reads-pure op)

operand_field : (op : OpCode) → (value op + has_operand) % has_operand ≡ value op
operand_field op = omega (arith, value_bounds op)

flag_clear : (op : OpCode) → (value op / has_operand % 2 == 1) ≡ false
flag_clear op = ground (arith, value_bounds op)

flag_set : (op : OpCode) → ((value op + has_operand) / has_operand % 2 == 1) ≡ true
flag_set op = ground (arith, value_bounds op)

Reads-operand :
    (pc : ℕ) (op : OpCode) (arg : Option ℤ)
    → Reads (read_instruction pc) (write_operand pc (value op) arg) (record { op = op; arg = arg })
unfolding read_instruction write_operand read_operand
Reads-operand pc op none = Reads-last _ (Reads-u16 (value op)) (
    Reads-skip _ (Reads-opcode pc _ op (omega (arith, value_bounds op))) (
      Reads-skip _
        (subst (λ b. Reads (read_operand b) (ok []) none) (sym (flag_clear op)) (Reads-pure none))
        (Reads-pure (record { op = op; arg = none }))))
Reads-operand pc op (some (pos n)) =
    Reads-if (leb n max_operand)
      (λ h. Reads-bind _ (Reads-u16 (value op + has_operand)) (
        Reads-skip _ (Reads-opcode pc _ op (operand_field op)) (
          Reads-last _
            (subst (λ b. Reads (read_operand b) (write_u32 n) (some (pos n))) (sym (flag_set op))
              (Reads-last _ (Reads-u32 n) (Reads-pure (some (pos n)))))
            (Reads-pure (record { op = op; arg = some (pos n) })))))
      (λ h. Reads-err (operand_range pc))
Reads-operand pc op (some (negsuc n)) = Reads-err (operand_range pc)

Reads-instruction :
    (pc : ℕ) (i : Instruction) → Reads (read_instruction pc) (write_instruction pc i) i
unfolding read_instruction write_instruction
Reads-instruction pc i =
    Reads-if (ltb max_opcode (value i.op)) (λ h. Reads-err (opcode_too_large (value i.op)))
      (λ h. Reads-operand pc i.op i.arg)

Reads-instructions :
    (pc : ℕ) (is : List Instruction)
    → Reads (read_instructions pc (length is)) (write_instructions pc is) is
unfolding read_instructions write_instructions
Reads-instructions pc [] = Reads-pure []
Reads-instructions pc (i ∷ is) =
    Reads-bind _ (Reads-instruction pc i)
      (Reads-last _ (Reads-instructions (suc pc) is) (Reads-pure (i ∷ is)))

pub Reads-code : (code : List Instruction) → Reads read_code (write_code code) code
unfolding read_code write_code
Reads-code code = Reads-bind _ (Reads-u32 (length code)) (Reads-instructions 0 code)

Reads-marker : (m : ℕ × Position) → Reads read_marker (write_marker m) m
unfolding read_marker write_marker
Reads-marker (pc, (line, col)) =
    Reads-bind _ (Reads-u32 pc)
      (Reads-bind _ (Reads-u32 line) (Reads-last _ (Reads-u32 col) (Reads-pure (pc, (line, col)))))

length-zip :
    {A B : Type 0} (xs : List A) (ys : List B)
    → length xs ≡ length ys
    → length (zip xs ys) ≡ length xs
unfolding zip
length-zip [] [] e = refl
length-zip [] (y ∷ ys) e = refl
length-zip (x ∷ xs) [] e = absurd (omega arith)
length-zip (x ∷ xs) (y ∷ ys) e = omega (arith, length-zip xs ys)

map_fst-zip :
    {A B : Type 0} (xs : List A) (ys : List B)
    → length xs ≡ length ys
    → map (λ m. m.0) (zip xs ys) ≡ xs
unfolding zip
map_fst-zip [] [] e = refl
map_fst-zip [] (y ∷ ys) e = refl
map_fst-zip (x ∷ xs) [] e = absurd (omega arith)
map_fst-zip (x ∷ xs) (y ∷ ys) e = ap (λ z. x ∷ z) (map_fst-zip xs ys (omega arith))

map_snd-zip :
    {A B : Type 0} (xs : List A) (ys : List B)
    → length xs ≡ length ys
    → map (λ m. m.1) (zip xs ys) ≡ ys
unfolding zip
map_snd-zip [] [] e = refl
map_snd-zip [] (y ∷ ys) e = absurd (omega arith)
map_snd-zip (x ∷ xs) [] e = absurd (omega arith)
map_snd-zip (x ∷ xs) (y ∷ ys) e = ap (λ z. y ∷ z) (map_snd-zip xs ys (omega arith))

unzip :
    (m : SourceMap)
    → length m.pcs ≡ length m.positions
    → ◌≡◌ {A = SourceMap}
        (record { pcs = map (λ x. x.0) (markers m); positions = map (λ x. x.1) (markers m) })
        m
unzip m e = λ i. record {
  pcs = map_fst-zip m.pcs m.positions e i;
  positions = map_snd-zip m.pcs m.positions e i;
}

Reads-source_map :
    (m : SourceMap)
    → length m.pcs ≡ length m.positions
    → Reads read_source_map (write_source_map m) m
unfolding read_source_map write_source_map
Reads-source_map m e =
    subst (λ n. Reads read_source_map (write_u32 n ▷ write_each write_marker (markers m)) m)
      (length-zip m.pcs m.positions e)
      (Reads-last _ (Reads-list read_marker write_marker Reads-marker (markers m))
        (subst (λ x. Reads (pure x) (ok []) m) (sym (unzip m e)) (Reads-pure m)))

-- A file without debug information has no source map.
unfoldable pub strip_map : Bool → SourceMap → SourceMap
strip_map true m = m
strip_map false m = empty

pub Reads-debug :
    (debug : Bool) (m : SourceMap)
    → length m.pcs ≡ length m.positions
    → Reads (read_debug debug) (write_debug debug m) (strip_map debug m)
unfolding read_debug write_debug strip_map
Reads-debug true m e = Reads-source_map m e
Reads-debug false m e = Reads-pure empty
