-- ===== src/Serialize/Records.antt =====
-- The struct and function tables of compiler/serialize.py, written and read.
use quin_lang.Prelude.{Bool, List, [], false, length, map, true, ℕ, ◌∷◌}
use quin_lang.Serialize.Write.{
  write_each, write_field, write_function, write_function_debug, write_functions, write_local,
  write_string, write_struct, write_u32, write_u32_list,
}
use quin_lang.Serialize.Read.{
  read_field, read_function, read_function_debug, read_functions, read_list, read_local,
  read_string, read_struct, read_times, read_u32, read_u32_list,
}
use quin_lang.Serialize.Reads.{
  Reads, Reads-bind, Reads-bool, Reads-last, Reads-list, Reads-pure, Reads-text, Reads-u32,
}
use quin_lang.Program.{FieldLayout, FunctionInfo, LocalInfo, StructLayout, Text}

pub Reads-u32_list : (values : List ℕ) → Reads read_u32_list (write_u32_list values) values
unfolding read_u32_list write_u32_list
Reads-u32_list values = Reads-list read_u32 write_u32 Reads-u32 values

pub Reads-string : (i : ℕ × Text) → Reads read_string (write_string i) i
unfolding read_string write_string
Reads-string (k, s) = Reads-bind _ (Reads-u32 k) (Reads-last _ (Reads-text s) (Reads-pure (k, s)))

Reads-field : (f : FieldLayout) → Reads read_field (write_field f) f
unfolding read_field write_field
Reads-field f =
    Reads-bind _ (Reads-text f.name)
      (Reads-bind _ (Reads-text f.type_name) (Reads-last _ (Reads-u32 f.offset) (Reads-pure f)))

pub Reads-struct : (s : StructLayout) → Reads read_struct (write_struct s) s
unfolding read_struct write_struct
Reads-struct s = Reads-bind _ (Reads-text s.name) (
    Reads-bind _ (Reads-u32 s.word_size) (
      Reads-bind _ (Reads-bool s.is_variant) (
        Reads-bind _ (Reads-u32_list s.ref_offsets)
          (Reads-last _ (Reads-list read_field write_field Reads-field s.fields) (Reads-pure s)))))

Reads-local : (l : LocalInfo) → Reads read_local (write_local l) l
unfolding read_local write_local
Reads-local l = Reads-bind _ (Reads-text l.name) (
    Reads-bind _ (Reads-u32 l.slot) (
      Reads-bind _ (Reads-text l.type_name)
        (Reads-bind _ (Reads-u32 l.words) (Reads-last _ (Reads-bool l.is_param) (Reads-pure l)))))

-- what a file without debug information leaves of a function
unfoldable pub strip_function : Bool → FunctionInfo → FunctionInfo
strip_function true f = f
strip_function false f = record f { locals = []; source_file = [] }

Reads-function :
    (debug : Bool) (f : FunctionInfo)
    → Reads (read_function debug) (write_function debug f) (strip_function debug f)
unfolding read_function write_function read_function_debug write_function_debug strip_function
Reads-function true f = Reads-bind _ (Reads-text f.name) (
    Reads-bind _ (Reads-u32 f.entry_pc) (
      Reads-bind _ (Reads-u32 f.num_locals) (
        Reads-bind _ (Reads-u32 f.num_params) (
          Reads-bind _ (Reads-u32_list f.ref_slots) (
            Reads-bind _ (Reads-u32_list f.param_words) (
              Reads-last _
                (Reads-bind _ (Reads-text f.source_file) (
                  Reads-last _ (Reads-list read_local write_local Reads-local f.locals)
                    (Reads-pure (f.source_file, f.locals))))
                (Reads-pure f)))))))
Reads-function false f = Reads-bind _ (Reads-text f.name) (
    Reads-bind _ (Reads-u32 f.entry_pc) (
      Reads-bind _ (Reads-u32 f.num_locals) (
        Reads-bind _ (Reads-u32 f.num_params) (
          Reads-bind _ (Reads-u32_list f.ref_slots) (
            Reads-bind _ (Reads-u32_list f.param_words)
              (Reads-last _ (Reads-pure ([], [])) (Reads-pure (strip_function false f))))))))

module _ (debug : Bool) where
  Reads-functions_times :
      (fs : List FunctionInfo)
      → Reads
          (read_times (length fs) (read_function debug))
          (write_each (write_function debug) fs)
          (map (strip_function debug) fs)
  unfolding read_times write_each
  Reads-functions_times [] = Reads-pure []
  Reads-functions_times (f ∷ fs) =
      Reads-bind _ (Reads-function debug f)
        (Reads-last _ (Reads-functions_times fs) (Reads-pure (map (strip_function debug) (f ∷ fs))))

pub Reads-functions :
    (debug : Bool) (fs : List FunctionInfo)
    → Reads (read_functions debug) (write_functions debug fs) (map (strip_function debug) fs)
unfolding read_functions write_functions read_list
Reads-functions debug fs = Reads-bind _ (Reads-u32 (length fs)) (Reads-functions_times debug fs)
