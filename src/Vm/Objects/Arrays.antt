-- ===== src/Vm/Objects/Arrays.antt =====
-- Arrays in the heap of runtime/vm.py: `_array_at` and `_element_addr` after `_alloc_array`.
use quin_lang.Vm.Words.{word_mod}
use quin_lang.Vm.Heap.Bytes.{read_word_lem}
use quin_lang.Vm.Objects.Texts.{detail_lem, kind_lem, reserve_fits}
use quin_lang.Vm.Objects.Zeros.{
  cleared, cleared_detail, cleared_kind, word_at-zeroed, zero_words_run,
}
use quin_lang.Vm.Runs.{Runs, run_bind, run_if_false, run_peek, run_refuse}
use quin_lang.Vm.Store.{peek}
use quin_lang.Vm.Alloc.{alloc_array, round_payload}
use quin_lang.Vm.Objects.{array_at, element_addr, element_at}
use quin_lang.Vm.Machine.{Exec, Setup, Vm, header_bytes, heap_size, heap_start, pure, ◌>>=◌}
use quin_lang.Vm.Heap.{Heap, kind_refarray, kind_valarray, max, min_payload, read_word, word_at}
use quin_lang.Prelude.{
  Bool, ap, arith, false, if◌then◌else◌, ltb, ok, pos, refl, subst, true, ℕ, ℤ, ◌*◌, ◌+◌, ◌-◌, ◌/◌,
  ◌<◌, ◌∙◌, ◌≡◌, ◌≤◌,
}

abbrev pub array_kind : Bool → ℕ
array_kind refs = if refs then kind_refarray else kind_valarray

-- an array object whose payload is at `ref`
abbrev pub IsArray : Heap → ℕ → ℕ → Bool → Type 0
IsArray h ref count refs =
    (heap_start + header_bytes ≤ ref)
    × (ref ≤ heap_size)
    × (word_at h (ref - header_bytes) ≡ array_kind refs)
    × (word_at h (ref - header_bytes + 2) ≡ count)

module _ {W : Type 0} where
  pub array_at-IsArray :
      (ref count : ℕ) (refs : Bool) (vm : Vm W)
      → IsArray vm.heap ref count refs
      → Runs (array_at ref) vm (ok (record { start = ref; count = count; holds_refs = refs }), vm)
  unfolding array_at pure
  array_at-IsArray ref count true vm (lo, hi, k, n) = run_refuse _ _ _ (ground arith) (
      run_refuse (ltb ref (heap_start + header_bytes)) _ _ (ground arith) (
        run_peek _ _
          (kind_lem vm.heap (ref - header_bytes) kind_refarray (omega arith) k (omega arith))
          (run_refuse _ _ _ refl (
            run_peek _ _ (detail_lem vm.heap (ref - header_bytes) count (omega arith) n)
              (record { at = refl })))))
  array_at-IsArray ref count false vm (lo, hi, k, n) = run_refuse _ _ _ (ground arith) (
      run_refuse (ltb ref (heap_start + header_bytes)) _ _ (ground arith) (
        run_peek _ _
          (kind_lem vm.heap (ref - header_bytes) kind_valarray (omega arith) k (omega arith))
          (run_refuse _ _ _ refl (
            run_peek _ _ (detail_lem vm.heap (ref - header_bytes) count (omega arith) n)
              (record { at = refl })))))

  element_at_run :
      (ref count i : ℕ) (refs : Bool) (vm : Vm W)
      → i < count
      → element_at (record { start = ref; count = count; holds_refs = refs }) (pos i) vm
        ≡ (ok (ref + i * 2, refs), vm)
  unfolding element_at pure
  element_at_run ref count i refs vm l = ground arith

  pub element_addr-IsArray :
      (ref count i : ℕ) (refs : Bool) (vm : Vm W)
      → IsArray vm.heap ref count refs
      → i < count
      → Runs (element_addr ref (pos i)) vm (ok (ref + i * 2, refs), vm)
  unfolding element_addr
  element_addr-IsArray ref count i refs vm a l =
      run_bind _ _ (array_at-IsArray ref count refs vm a)
        (record { at = element_at_run ref count i refs vm l })

  -- the word of an element, as `ARRAY_GET` reads it
  abbrev pub get_element : ℕ → ℤ → Exec W ℕ
  get_element ref index = do (addr, is_ref) ← element_addr ref index; peek (λ h. read_word h addr)

  pub get_element-IsArray :
      (ref count i v : ℕ) (refs : Bool) (vm : Vm W)
      → IsArray vm.heap ref count refs
      → i < count
      → ref + i * 2 + 1 < heap_size
      → word_at vm.heap (ref + i * 2) ≡ v
      → Runs (get_element ref (pos i)) vm (ok v, vm)
  unfolding peek
  get_element-IsArray ref count i v refs vm a l b e =
      run_bind _ _ (element_addr-IsArray ref count i refs vm a l)
        (record { at = ap (λ r. (r, vm)) (read_word_lem vm.heap (ref + i * 2) b ∙ ap ok e) })

room : (count : ℕ) → max (count * 2) min_payload / 2 * 2 ≤ round_payload (count * 2)
unfolding round_payload
room count = ground arith

cleared_words : (count i : ℕ) → i < count → i < max (count * 2) min_payload / 2
cleared_words count i l = ground arith

array_kind-lt : (refs : Bool) → array_kind refs < word_mod
array_kind-lt true = omega arith
array_kind-lt false = omega arith

pub back : (hdr : ℕ) → hdr ≡ hdr + header_bytes - header_bytes
back hdr = omega arith

cleared-IsArray :
    (h : Heap) (hdr count words : ℕ) (refs : Bool)
    → count ≤ 0x7fff
    → heap_start ≤ hdr
    → hdr + header_bytes ≤ heap_size
    → IsArray (cleared h hdr (array_kind refs) count words) (hdr + header_bytes) count refs
cleared-IsArray h hdr count words refs l s f = (
  omega arith,
  f,
  subst (λ a. word_at (cleared h hdr (array_kind refs) count words) a ≡ array_kind refs) (back hdr)
      (cleared_kind h hdr (array_kind refs) count words (array_kind-lt refs)),
  subst (λ a. word_at (cleared h hdr (array_kind refs) count words) (a + 2) ≡ count) (back hdr)
      (cleared_detail h hdr (array_kind refs) count words (omega arith)),
)

module _ {F W : Type 0} (setup : Setup F W) where
  alloc_array_fits :
      (count : ℕ) (refs : Bool) (vm : Vm W)
      → count ≤ 0x7fff
      → vm.heap_ptr + header_bytes + round_payload (count * 2) ≤ heap_size
      → Runs (alloc_array setup (pos count) refs) vm (
        ok (vm.heap_ptr + header_bytes),
        record vm {
          heap_ptr = vm.heap_ptr + header_bytes + round_payload (count * 2);
          heap =
              cleared vm.heap vm.heap_ptr (array_kind refs) count (max (count * 2) min_payload / 2);
          stats = record (vm.stats) { objects_allocated = vm.stats.objects_allocated + 1 };
        },
      )
  unfolding alloc_array pure
  alloc_array_fits count refs vm l f = run_if_false (ltb 0x7fff count) _ _ (ground arith) (
      run_bind _ _ (reserve_fits setup (count * 2) (array_kind refs) count vm f) (
        run_bind _ _
          (zero_words_run (max (count * 2) min_payload / 2) (vm.heap_ptr + header_bytes) _
            (omega (arith, f, room count)))
          (record { at = refl })))

  -- A new array of at most 32767 elements that fits between the heap pointer and the end of the heap,
  -- with the pointer at or above the start, reads 0 at each of its indices.
  pub alloc_array-element_addr :
      (count : ℕ) (refs : Bool) (vm : Vm W) (i : ℕ)
      → count ≤ 0x7fff
      → heap_start ≤ vm.heap_ptr
      → vm.heap_ptr + header_bytes + round_payload (count * 2) ≤ heap_size
      → i < count
      → ((alloc_array setup (pos count) refs >>= λ ref. get_element ref (pos i)) vm).0 ≡ ok 0
  alloc_array-element_addr count refs vm i l s f b =
      let words = max (count * 2) min_payload / 2 in
      ap (λ o. o.0)
        (run_bind _ _ (alloc_array_fits count refs vm l f) (
          get_element-IsArray (vm.heap_ptr + header_bytes) count i 0 refs _
            (cleared-IsArray vm.heap vm.heap_ptr count words refs l s (omega (arith, f))) b
            (omega (arith, f, room count, cleared_words count i b))
            (word_at-zeroed _ words (vm.heap_ptr + header_bytes) i (cleared_words count i b)))).at
