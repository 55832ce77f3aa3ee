-- ===== src/Debugger/Layout.antt =====
-- The program as the debugger of runtime/debugger.py sees it: the code range of each function, the
-- functions of a file, and the positions of a pc.
use quin_lang.Prelude.{
  Bool, List, Option, Result, [], ends_with, get_elem?, if◌then◌else◌, leb, length, map, negsuc,
  none, ok, pos, same_name, some, suc, zero, ℕ, ℤ, ◌+◌, ◌==◌, ◌||◌, ◌∷◌,
}
use quin_lang.Program.{CompiledProgram, FunctionInfo, Text}
use quin_lang.Bytecode.SourceMap.{Position, SourceMap, lookup}
use quin_lang.Vm.Run.{main_name}

-- self.functions[i].entry_pc
unfoldable pub entry_of : List FunctionInfo → ℕ → ℕ
entry_of functions i = elim (get_elem? functions i) [ none ↦ 0 | some f ↦ f.entry_pc ]

-- the place of an index in a list that is sorted by entry_pc; equal keys keep their order
unfoldable pub insert_by_entry : List FunctionInfo → ℕ → List ℕ → List ℕ
insert_by_entry functions i [] = i ∷ []
insert_by_entry functions i (j ∷ js) =
    let rest = insert_by_entry functions i js in
    if leb (entry_of functions i) (entry_of functions j) then i ∷ j ∷ js else j ∷ rest

-- `_ordered`: sorted(indices, key=...)
unfoldable pub ordered : List FunctionInfo → List ℕ → List ℕ
ordered functions [] = []
ordered functions (i ∷ is) = insert_by_entry functions i (ordered functions is)

-- range(n), from a first number on
unfoldable pub range_from : ℕ → ℕ → List ℕ
range_from i zero = []
range_from i (suc n) = i ∷ range_from (i + 1) n

-- the loop of `_function_ranges`: each function runs until the next one starts
unfoldable pub ranges_along : List FunctionInfo → ℕ → List ℕ → List (ℕ × (ℕ × ℕ))
ranges_along functions end_of_code [] = []
ranges_along functions end_of_code (i ∷ []) = (i, (entry_of functions i, end_of_code)) ∷ []
ranges_along functions end_of_code (i ∷ j ∷ js) =
    (i, (entry_of functions i, entry_of functions j)) ∷ ranges_along functions end_of_code (j ∷ js)

unfoldable pub function_ranges : CompiledProgram → List (ℕ × (ℕ × ℕ))
function_ranges program =
    ranges_along program.functions (length program.code)
      (ordered program.functions (range_from 0 (length program.functions)))

unfoldable pub first_named : Text → List FunctionInfo → ℕ → Option (ℕ × FunctionInfo)
first_named name [] i = none
first_named name (f ∷ fs) i =
    let rest = first_named name fs (i + 1) in if same_name f.name name then some (i, f) else rest

-- self.functions[0].source_file if self.functions else ""
unfoldable pub first_file : List FunctionInfo → Text
first_file [] = []
first_file (f ∷ fs) = f.source_file

unfoldable pub entry_file : List FunctionInfo → Text
entry_file functions = elim (first_named main_name functions 0) [
  | none ↦ first_file functions
  | some (i, f) ↦ f.source_file
]

-- `_slashed`, where the separator of the system is given
unfoldable pub slashed : ℕ → Text → Text
slashed sep path = map (λ c. if c == sep then b'/' else c) path

-- path.lstrip("./")
unfoldable pub strip_dots : Text → Text
strip_dots [] = []
strip_dots (c ∷ cs) = let rest = strip_dots cs in if c == b'.' || c == b'/' then rest else c ∷ cs

-- the test of `_functions_in_file`
unfoldable pub in_file : ℕ → Text → FunctionInfo → Bool
in_file sep wanted f =
    let path = slashed sep f.source_file in
    let name = slashed sep wanted in same_name path name || ends_with path (b'/' ∷ strip_dots name)

unfoldable pub functions_in_file : ℕ → Text → List FunctionInfo → ℕ → List ℕ
functions_in_file sep wanted [] i = []
functions_in_file sep wanted (f ∷ fs) i =
    let rest = functions_in_file sep wanted fs (i + 1) in
    if in_file sep wanted f then i ∷ rest else rest

-- self.source_map.lookup(pc), where a pc below 0 stands before every marker
unfoldable pub lookup_pc : SourceMap → ℤ → Result ℕ (Option Position)
lookup_pc m (pos n) = lookup m n
lookup_pc m (negsuc n) = ok none
