-- ===== src/Vm/Store.antt =====
-- The writing half of the heap of runtime/vm.py, as actions, and the range check of the heap opcodes.
use quin_lang.Prelude.{
  Bool, Result, err, if◌then◌else◌, ltb, negsuc, ok, pos, suc, zero, ℕ, ℤ, ◌%◌, ◌+◌,
}
use quin_lang.Vm.Machine.{Exec, Fault, heap_range, heap_size, index_error, pure, raise, ◌>>=◌, ◌>>◌}
use quin_lang.Vm.Heap.{Heap, mark_bit, put_word, read_word, set_byte}

module _ {W : Type 0} where
  -- `_write_word`: past the end it raises, after the low byte where only the high one is outside
  unfoldable pub write_word : ℕ → ℕ → Exec W (Unit {0})
  write_word addr value vm =
      if ltb (addr + 1) heap_size
      then (ok tt, record vm { heap = put_word vm.heap addr value })
      else if ltb addr heap_size
      then (err index_error, record vm { heap = set_byte vm.heap addr (value % 256) })
      else (err index_error, vm)

  -- a reading method, as an action
  unfoldable pub peek : {A : Type 0} → (Heap → Result Fault A) → Exec W A
  peek f vm = (f vm.heap, vm)

  unfoldable pub write_header : ℕ → ℕ → ℕ → Exec W (Unit {0})
  write_header hdr k n = do write_word hdr k; write_word (hdr + 2) n

  -- flags | MARK_BIT or flags & ~MARK_BIT
  unfoldable pub set_mark : ℕ → Bool → Exec W (Unit {0})
  set_mark hdr marked = do
    flags ← peek (λ h. read_word h hdr)
    write_word hdr (if marked then flags % mark_bit + mark_bit else flags % mark_bit)

  -- for off in range(0, 2 * count, 2): self._write_word(addr + off, 0)
  unfoldable pub zero_words : ℕ → ℕ → Exec W (Unit {0})
  zero_words zero addr = pure tt
  zero_words (suc count) addr = do write_word addr 0; zero_words count (addr + 2)

  -- `_check_heap_word`, which hands on the address that passed
  unfoldable pub check_heap_word : ℤ → Exec W ℕ
  check_heap_word (pos addr) =
      if ltb heap_size (addr + 2) then raise (heap_range (pos addr)) else pure addr
  check_heap_word (negsuc n) = raise (heap_range (negsuc n))
