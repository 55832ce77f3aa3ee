-- ===== src/Bytecode/OpCode.antt =====
-- The instruction set of compiler/bytecode.py: the class `OpCode`, whose numbers are part of the
-- bytecode format, and `OpCode(number)`, the look-up that fails on a number that no member has.
use quin_lang.Prelude.{
  ==_iff, Bool-cases, List, Option, [], arith, if◌then◌else◌, inl, inr, none, refl, some, subst,
  true, ℕ, ◌==◌, ◌∷◌, ◌≡◌, ◌≤◌,
}
use mathlib.Core.Option.{some-injective}

pub data OpCode : Type 0 where
  push_int load_local store_local add sub mul div modulo xor and or shl shr neg cmp_eq : OpCode
  cmp_ne cmp_lt cmp_le cmp_gt cmp_ge load_str str_cmp str_len str_char_at str_concat : OpCode
  str_slice str_from_int str_from_char push_float load_local_f store_local_f fadd fsub : OpCode
  fmul fdiv fneg fcmp f_from_int f_to_int str_from_float print_float println_float not : OpCode
  bitnot jmp jz jnz call ret load_local_idx store_local_idx bounds_check load_indirect : OpCode
  store_indirect memcpy_locals memset_locals pop dup swap print_int print_str : OpCode
  println_int println_str alloc alloc_typed heap_load heap_store heap_load_field : OpCode
  heap_store_field heap_load_field_f heap_store_field_f gc panic tag_of load_variant : OpCode
  read_line argc argv call_indirect new_array array_len array_get array_set file_read : OpCode
  file_write file_append file_exists file_delete file_error file_read_bytes : OpCode
  file_write_bytes : OpCode

unfoldable pub value : OpCode → ℕ
value push_int = 1
value load_local = 2
value store_local = 3
value add = 4
value sub = 5
value mul = 6
value div = 7
value modulo = 8
value xor = 9
value and = 10
value or = 11
value shl = 12
value shr = 13
value neg = 14
value cmp_eq = 15
value cmp_ne = 16
value cmp_lt = 17
value cmp_le = 18
value cmp_gt = 19
value cmp_ge = 20
value load_str = 21
value str_cmp = 22
value str_len = 23
value str_char_at = 24
value str_concat = 25
value str_slice = 26
value str_from_int = 27
value str_from_char = 28
value push_float = 29
value load_local_f = 30
value store_local_f = 31
value fadd = 32
value fsub = 33
value fmul = 34
value fdiv = 35
value fneg = 36
value fcmp = 37
value f_from_int = 38
value f_to_int = 39
value str_from_float = 40
value print_float = 41
value println_float = 42
value not = 43
value bitnot = 44
value jmp = 45
value jz = 46
value jnz = 47
value call = 48
value ret = 49
value load_local_idx = 50
value store_local_idx = 51
value bounds_check = 52
value load_indirect = 53
value store_indirect = 54
value memcpy_locals = 55
value memset_locals = 56
value pop = 57
value dup = 58
value swap = 59
value print_int = 60
value print_str = 61
value println_int = 62
value println_str = 63
value alloc = 64
value alloc_typed = 65
value heap_load = 66
value heap_store = 67
value heap_load_field = 68
value heap_store_field = 69
value heap_load_field_f = 70
value heap_store_field_f = 71
value gc = 72
value panic = 73
value tag_of = 74
value load_variant = 75
value read_line = 76
value argc = 77
value argv = 78
value call_indirect = 79
value new_array = 80
value array_len = 81
value array_get = 82
value array_set = 83
value file_read = 84
value file_write = 85
value file_append = 86
value file_exists = 87
value file_delete = 88
value file_error = 89
value file_read_bytes = 90
value file_write_bytes = 91

-- The members in the order of the class.
abbrev members : List OpCode
members =
    push_int ∷ load_local ∷ store_local ∷ add ∷ sub ∷ mul ∷ div ∷ modulo ∷ xor ∷ and ∷ or ∷ shl
    ∷ shr ∷ neg ∷ cmp_eq ∷ cmp_ne ∷ cmp_lt ∷ cmp_le ∷ cmp_gt ∷ cmp_ge ∷ load_str ∷ str_cmp ∷ str_len
    ∷ str_char_at ∷ str_concat ∷ str_slice ∷ str_from_int ∷ str_from_char ∷ push_float
    ∷ load_local_f ∷ store_local_f ∷ fadd ∷ fsub ∷ fmul ∷ fdiv ∷ fneg ∷ fcmp ∷ f_from_int ∷ f_to_int
    ∷ str_from_float ∷ print_float ∷ println_float ∷ not ∷ bitnot ∷ jmp ∷ jz ∷ jnz ∷ call ∷ ret
    ∷ load_local_idx ∷ store_local_idx ∷ bounds_check ∷ load_indirect ∷ store_indirect
    ∷ memcpy_locals ∷ memset_locals ∷ pop ∷ dup ∷ swap ∷ print_int ∷ print_str ∷ println_int
    ∷ println_str ∷ alloc ∷ alloc_typed ∷ heap_load ∷ heap_store ∷ heap_load_field
    ∷ heap_store_field ∷ heap_load_field_f ∷ heap_store_field_f ∷ gc ∷ panic ∷ tag_of ∷ load_variant
    ∷ read_line ∷ argc ∷ argv ∷ call_indirect ∷ new_array ∷ array_len ∷ array_get ∷ array_set
    ∷ file_read ∷ file_write ∷ file_append ∷ file_exists ∷ file_delete ∷ file_error
    ∷ file_read_bytes ∷ file_write_bytes ∷ []

find_value : ℕ → List OpCode → Option OpCode
find_value number [] = none
find_value number (op ∷ rest) = if value op == number then some op else find_value number rest

-- OpCode(number), with `none` for its ValueError
unfoldable pub of_value : ℕ → Option OpCode
unfolding find_value value
of_value number = find_value number members

-- Two members never share a number: looking up the number of an opcode gives that opcode back.
pub of_value-value : (op : OpCode) → of_value (value op) ≡ some op
unfolding of_value
of_value-value push_int = refl
of_value-value _ = refl

eq_of_found :
    {n : ℕ} {op : OpCode} (o : OpCode) → (value o == n) ≡ true → some o ≡ some op → value op ≡ n
eq_of_found {n} {op} o e h = subst (λ o. value o ≡ n) (some-injective _ _ h) ((==_iff _ _).0 e)

find_value_sound :
    (n : ℕ) (ops : List OpCode) {op : OpCode} → find_value n ops ≡ some op → value op ≡ n
unfolding find_value
find_value_sound n [] h = ground arith
find_value_sound n (o ∷ ops) {op} h = elim (Bool-cases (value o == n)) [
  | inl e ↦ eq_of_found o e (rw e at h)
  | inr e ↦ find_value_sound n ops (rw e at h)
]

value-of_value : (n : ℕ) {op : OpCode} → of_value n ≡ some op → value op ≡ n
unfolding of_value
value-of_value n h = find_value_sound n members h

-- Every number is at least 1, since 0 is reserved, and leaves the operand flag's bit free.
pub value_bounds : (op : OpCode) → (1 ≤ value op) × (value op ≤ 91)
unfolding value
value_bounds push_int = omega arith
value_bounds _ = omega arith
