-- ===== src/Vm/Alloc.antt =====
-- Allocation in runtime/vm.py: `_bump` and `_reserve`, the four kinds of objects, and the literals and
-- variants that `run_main` makes before the program starts.
use quin_lang.Prelude.{
  Bool, List, Option, [], if◌then◌else◌, length, ltb, negsuc, none, pos, replicate, set, some, ℕ, ℤ,
  ◌%◌, ◌&&◌, ◌*◌, ◌+◌, ◌/◌, ◌==◌, ◌∷◌,
}
use quin_lang.Program.{Strings, StructLayout, Text}
use quin_lang.Vm.Machine.{
  Exec, Setup, alloc_unknown_type, array_too_long, encode_error, forbid, gets, header_bytes,
  heap_size, modify, negative_array, negative_size, null_addr, out_of_memory, pure, raise, require,
  string_too_long, wide_character, ◌>>=◌, ◌>>◌,
}
use quin_lang.Vm.Heap.{
  Heap, kind_raw, kind_refarray, kind_string, kind_struct, kind_valarray, max, min_payload,
  set_byte, word_size_of,
}
use quin_lang.Vm.Store.{write_header, zero_words}
use quin_lang.Vm.Collect.{collect}

-- self.heap[addr:addr + len(content)] = content
unfoldable pub put_bytes : Heap → ℕ → List ℕ → Heap
put_bytes h addr [] = h
put_bytes h addr (b ∷ bs) = put_bytes (set_byte h addr b) (addr + 1) bs

-- payload = max(payload, MIN_PAYLOAD), and one more byte where that is odd
unfoldable pub round_payload : ℕ → ℕ
round_payload payload = let p = max payload min_payload in p + p % 2

module _ {W : Type 0} where
  -- `_bump`
  unfoldable pub bump : ℕ → ℕ → ℕ → Exec W (Option ℕ)
  bump payload k n = do
    hdr ← gets (λ vm. vm.heap_ptr)
    let end = hdr + header_bytes + payload
    if ltb heap_size end then pure none else do
      modify (λ vm. record vm { heap_ptr = end })
      write_header hdr k n
      modify (λ vm. record vm {
        stats = record (vm.stats) { objects_allocated = vm.stats.objects_allocated + 1 };
      })
      pure (some (hdr + header_bytes))

module _ {F W : Type 0} (setup : Setup F W) where
  -- the second try, after a collection
  unfoldable pub after_collection : ℕ → ℕ → ℕ → Exec W ℕ
  after_collection payload k n = do
    collect setup
    again ← bump payload k n
    require again out_of_memory

  -- `if addr is not None: return addr`
  unfoldable pub or_collect : Option ℕ → ℕ → ℕ → ℕ → Exec W ℕ
  or_collect (some addr) payload k n = pure addr
  or_collect none payload k n = after_collection payload k n

  -- `_reserve`
  unfoldable pub reserve : ℕ → ℕ → ℕ → Exec W ℕ
  unfolding after_collection or_collect
  reserve payload k n = do
    first ← bump (round_payload payload) k n
    or_collect first (round_payload payload) k n

  -- `_alloc_struct`
  unfoldable pub alloc_struct : ℤ → Exec W ℕ
  alloc_struct (negsuc i) = raise (alloc_unknown_type (negsuc i))
  alloc_struct (pos id) = do
    size ← require (word_size_of setup.structs id) (alloc_unknown_type (pos id))
    addr ← reserve (size * 2) kind_struct id
    zero_words (max (size * 2) min_payload / 2) addr
    pure addr

  -- `_alloc_array`
  unfoldable pub alloc_array : ℤ → Bool → Exec W ℕ
  alloc_array (negsuc i) holds_refs = raise (negative_array (negsuc i))
  alloc_array (pos count) holds_refs =
      if ltb 0x7fff count then raise (array_too_long (pos count)) else do
        addr ← reserve (count * 2) (if holds_refs then kind_refarray else kind_valarray) count
        zero_words (max (count * 2) min_payload / 2) addr
        pure addr

  -- `_alloc_raw`
  unfoldable pub alloc_raw : ℤ → Exec W ℕ
  alloc_raw (negsuc i) = raise (negative_size (negsuc i))
  alloc_raw (pos size) = do
    let payload = max (size + size % 2) min_payload
    addr ← reserve payload kind_raw payload
    zero_words (payload / 2) addr
    pure addr

  -- `_alloc_string`; an odd length leaves one byte of rounding, which is cleared
  unfoldable pub alloc_string : List ℕ → Exec W ℕ
  alloc_string content = do
    let n = length content
    if ltb 0x7fff n then raise (string_too_long n) else do
      addr ← reserve n kind_string n
      modify (λ vm. record vm {
        heap =
            (if n % 2 == 1
              then set_byte (put_bytes vm.heap addr content) (addr + n) 0
              else put_bytes vm.heap addr content);
      })
      pure addr

-- the first character above 0xFF
unfoldable pub wide_char : Text → Option ℕ
wide_char [] = none
wide_char (c ∷ cs) = let rest = wide_char cs in if ltb 0xff c then some c else rest

-- max(self.strings) + 1, or 0
unfoldable pub literal_count : Strings → ℕ
literal_count [] = 0
literal_count ((k, s) ∷ d) = max (k + 1) (literal_count d)

module _ {F W : Type 0} (setup : Setup F W) where
  -- `_string_from_text`: text.encode("latin-1") keeps the code points
  unfoldable pub string_from_text : Text → Exec W ℕ
  string_from_text text = do forbid (wide_char text) wide_character; alloc_string setup text

  -- a literal's text as bytes; a character that Latin-1 lacks is a UnicodeEncodeError
  unfoldable pub alloc_literal : Text → Exec W ℕ
  alloc_literal text = do forbid (wide_char text) (λ c. encode_error); alloc_string setup text

  unfoldable pub materialise_items : Strings → Exec W (Unit {0})
  materialise_items [] = pure tt
  materialise_items ((sid, text) ∷ items) = do
    addr ← alloc_literal text
    modify (λ vm. record vm { literals = set vm.literals sid addr })
    materialise_items items

  -- `_materialise_literals`
  unfoldable pub materialise_literals : Exec W (Unit {0})
  unfolding materialise_items alloc_literal
  materialise_literals = do
    modify (λ vm. record vm { literals = replicate (literal_count setup.strings) null_addr })
    materialise_items setup.strings

  -- for type_id, layout in enumerate(self.structs)
  unfoldable pub materialise_from : ℕ → List StructLayout → Exec W (Unit {0})
  materialise_from id [] = pure tt
  materialise_from id (layout ∷ layouts) = do
    if layout.is_variant && layout.word_size == 0
        then (do
          addr ← alloc_struct setup (pos id)
          modify (λ vm. record vm { variants = set vm.variants id addr }))
        else pure tt
    materialise_from (id + 1) layouts

  -- `_materialise_variants`
  unfoldable pub materialise_variants : Exec W (Unit {0})
  unfolding materialise_from
  materialise_variants = do
    modify (λ vm. record vm { variants = replicate (length setup.structs) null_addr })
    materialise_from 0 setup.structs
