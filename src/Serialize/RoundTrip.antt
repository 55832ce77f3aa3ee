-- ===== src/Serialize/RoundTrip.antt =====
-- `loads` of compiler/serialize.py after `dumps`.
use quin_lang.Serialize.Errors.{Res, trailing}
use quin_lang.Prelude.{
  Bool, [], ap, append-nil, arith, err, false, if◌then◌else◌, length, map, ok, refl, some, subst,
  sym, true, ℕ, ◌%◌, ◌++◌, ◌+◌, ◌==◌, ◌∷◌, ◌≡◌,
}
use quin_lang.Serialize.Write.{
  Bytes, dumps, format_version, has_debug_info, magic, sort_items, write_code, write_debug,
  write_functions, write_string, write_strings, write_struct, write_structs, write_u16, ◌▷◌,
}
use quin_lang.Serialize.Read.{
  is_bytecode, loads, pure, read_magic, read_sections, read_string, read_strings, read_struct,
  read_structs, read_tables, read_version,
}
use quin_lang.Serialize.Reads.{
  Reads, Reads-bind, Reads-last, Reads-list, Reads-pure, Reads-take, Reads-u16,
}
use quin_lang.Program.{CompiledProgram, Strings}
use quin_lang.Serialize.Records.{Reads-functions, Reads-string, Reads-struct, strip_function}
use quin_lang.Serialize.Code.{Reads-code, Reads-debug, strip_map}
use quin_lang.Serialize.Dict.{IsDict, dict_of-append, sort_items-IsDict}

Reads-strings : (d : Strings) → IsDict d → Reads read_strings (write_strings d) (sort_items d)
unfolding read_strings write_strings
Reads-strings d h = Reads-last _ (Reads-list read_string write_string Reads-string (sort_items d)) (
    subst (λ x. Reads (pure x) (ok []) (sort_items d))
      (sym (dict_of-append [] (sort_items d) (sort_items-IsDict d h))) (Reads-pure (sort_items d)))

-- The program as it comes back: the strings in the order of their ids, and without what a file
-- without debug information leaves out.
abbrev pub reloaded : CompiledProgram → Bool → CompiledProgram
reloaded p debug = record {
  code = p.code;
  functions = map (strip_function debug) p.functions;
  strings = sort_items p.strings;
  structs = p.structs;
  source_map = strip_map debug p.source_map;
}

Reads-magic : Reads read_magic (ok magic) tt
unfolding read_magic
Reads-magic = Reads-last _ (Reads-take magic) (Reads-pure tt)

Reads-version : Reads read_version (write_u16 format_version) tt
unfolding read_version
Reads-version = Reads-last _ (Reads-u16 format_version) (Reads-pure tt)

flag_bit : (debug : Bool) → ((if debug then has_debug_info else 0) % 2 == 1) ≡ debug
flag_bit true = refl
flag_bit false = refl

module _ (p : CompiledProgram) (debug : Bool) (d : IsDict p.strings)
    (e : length p.source_map.pcs ≡ length p.source_map.positions) where
  Reads-sections :
      Reads
        (read_sections debug)
        (write_strings p.strings
          ▷ write_structs p.structs
          ▷ write_functions debug p.functions
          ▷ write_code p.code
          ▷ write_debug debug p.source_map)
        (reloaded p debug)
  unfolding read_sections read_structs write_structs
  Reads-sections = Reads-bind _ (Reads-strings p.strings d) (
      Reads-bind _ (Reads-list read_struct write_struct Reads-struct p.structs) (
        Reads-bind _ (Reads-functions debug p.functions) (
          Reads-bind _ (Reads-code p.code)
            (Reads-last _ (Reads-debug debug p.source_map e) (Reads-pure (reloaded p debug))))))

  Reads-tables : Reads read_tables (dumps p debug) (reloaded p debug)
  unfolding read_tables dumps
  Reads-tables = Reads-bind _ Reads-magic (
      Reads-bind _ Reads-version (
        Reads-bind _ (Reads-u16 (if debug then has_debug_info else 0))
          (rw flag_bit Reads-sections)))

-- Every program that `dumps` accepts loads again, where its string table names each id once and its
-- source map has a position for each pc: code, structs and function tables are what they were, the
-- string table is the same dict in the order of its ids, and only a file without debug information
-- loses the source map, the local names and the source files.
pub loads-dumps :
    (p : CompiledProgram) (debug : Bool) (bytes : Bytes)
    → IsDict p.strings
    → length p.source_map.pcs ≡ length p.source_map.positions
    → dumps p debug ≡ ok bytes
    → loads bytes ≡ ok (reloaded p debug)
unfolding loads
loads-dumps p debug bytes d e h =
    let back : read_tables bytes ≡ ok (reloaded p debug, []) =
      rw append-nil at ((Reads-tables p debug d e).after bytes [] h) in
    rw (back, loads)

-- Bytes behind what `dumps` wrote, for a program with one text for each string id and a position for
-- each pc, are refused, and the error counts them.
pub loads-dumps_trailing :
    (p : CompiledProgram) (debug : Bool) (bytes : Bytes) (b : ℕ) (rest : Bytes)
    → IsDict p.strings
    → length p.source_map.pcs ≡ length p.source_map.positions
    → dumps p debug ≡ ok bytes
    → loads (bytes ++ b ∷ rest) ≡ err (trailing (length rest + 1))
unfolding loads
loads-dumps_trailing p debug bytes b rest d e h =
    rw ((Reads-tables p debug d e).after bytes (b ∷ rest) h, loads)
      (ap (λ n. err (trailing n)) (omega arith))

starts_with_magic :
    (w : Res Bytes) (bytes : Bytes) → (ok magic ▷ w) ≡ ok bytes → is_bytecode (some bytes) ≡ true
unfolding ◌▷◌ is_bytecode
starts_with_magic (ok x) bytes h = ground arith
starts_with_magic (err e) bytes h = ground arith

-- `is_bytecode` recognises every file that `dumps` writes, by its first bytes.
pub is_bytecode-dumps :
    (p : CompiledProgram) (debug : Bool) (bytes : Bytes)
    → dumps p debug ≡ ok bytes
    → is_bytecode (some bytes) ≡ true
unfolding dumps
is_bytecode-dumps p debug bytes h = starts_with_magic _ bytes h
