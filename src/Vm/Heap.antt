-- ===== src/Vm/Heap.antt =====
-- The heap of runtime/vm.py: words, object headers and the walk over the blocks. A heap is its bytes
-- by address.
pub mod Walk
pub mod Bytes
use quin_lang.Prelude.{
  Bool, List, Option, Result, [], err, if◌then◌else◌, leb, ltb, none, ok, some, suc, zero, ℕ, ◌%◌,
  ◌*◌, ◌+◌, ◌/◌, ◌==◌, ◌>>=◌, ◌^◌, ◌||◌, ◌∷◌,
}
use quin_lang.Program.{StructLayout}
use quin_lang.Vm.Machine.{Fault, header_bytes, heap_size, heap_start, index_error, unknown_type_id}

abbrev pub Heap : Type 0
Heap = ℕ → ℕ

abbrev pub kind_struct : ℕ
kind_struct = 0

abbrev pub kind_raw : ℕ
kind_raw = 1

abbrev pub kind_string : ℕ
kind_string = 2

abbrev pub kind_refarray : ℕ
kind_refarray = 3

abbrev pub kind_valarray : ℕ
kind_valarray = 4

-- MARK_BIT
abbrev pub mark_bit : ℕ
mark_bit = 2 ^ 15

abbrev pub min_payload : ℕ
min_payload = 2

-- heap[addr] = value
unfoldable pub set_byte : Heap → ℕ → ℕ → Heap
set_byte h addr value a = if a == addr then value else h a

-- (heap[addr + 1] << 8) | heap[addr]; a byte is below 256, so `|` is a sum
unfoldable pub word_at : Heap → ℕ → ℕ
word_at h addr = h addr + 256 * h (addr + 1)

-- `_read_word`, an IndexError past the end
unfoldable pub read_word : Heap → ℕ → Result Fault ℕ
read_word h addr = if ltb (addr + 1) heap_size then ok (word_at h addr) else err index_error

-- the heap that `_write_word` leaves
unfoldable pub put_word : Heap → ℕ → ℕ → Heap
unfolding set_byte
put_word h addr value = set_byte (set_byte h addr (value % 256)) (addr + 1) (value / 256 % 256)

-- `_kind`, the flags without the mark
unfoldable pub kind : Heap → ℕ → Result Fault ℕ
kind h hdr = do w ← read_word h hdr; ok (w % mark_bit)

unfoldable pub is_marked : Heap → ℕ → Result Fault Bool
is_marked h hdr = do w ← read_word h hdr; ok (w / mark_bit % 2 == 1)

unfoldable pub detail : Heap → ℕ → Result Fault ℕ
detail h hdr = read_word h (hdr + 2)

-- max(a, b)
abbrev pub max : ℕ → ℕ → ℕ
max a b = if leb a b then b else a

-- the word size of a struct type, `none` where the id names none
unfoldable pub word_size_of : List StructLayout → ℕ → Option ℕ
word_size_of [] id = none
word_size_of (s ∷ ss) zero = some s.word_size
word_size_of (s ∷ ss) (suc id) = word_size_of ss id

-- The payload of a block of a kind other than KIND_STRUCT, from its detail word.
unfoldable pub plain_payload : ℕ → ℕ → ℕ
plain_payload k n =
    if k == kind_refarray || k == kind_valarray
    then max (n * 2) min_payload
    else if k == kind_string
    then max (n + n % 2) min_payload
    else n

module _ (structs : List StructLayout) where
  struct_payload : ℕ → ℕ → Result Fault ℕ
  struct_payload hdr id = elim (word_size_of structs id) [
    | none ↦ err (unknown_type_id hdr id)
    | some size ↦ ok (max (size * 2) min_payload)
  ]

  unfoldable pub payload_size : Heap → ℕ → Result Fault ℕ
  unfolding struct_payload
  payload_size h hdr = do
    k ← kind h hdr
    n ← detail h hdr
    if k == kind_struct then struct_payload hdr n else ok (plain_payload k n)

  unfoldable pub block_end : Heap → ℕ → Result Fault ℕ
  block_end h hdr = do n ← payload_size h hdr; ok (hdr + header_bytes + n)

  -- `_blocks`: while addr < heap_ptr, yield addr, then go to its end. A block takes its header at
  -- least, so `heap_ptr` rounds are enough.
  unfoldable pub blocks_from : ℕ → Heap → ℕ → ℕ → Result Fault (List ℕ)
  blocks_from zero h heap_ptr addr = ok []
  blocks_from (suc fuel) h heap_ptr addr =
      let more = (do
        next ← block_end h addr
        rest ← blocks_from fuel h heap_ptr next
        ok (addr ∷ rest)) in
      if ltb addr heap_ptr then more else ok []

  unfoldable pub blocks : Heap → ℕ → Result Fault (List ℕ)
  blocks h heap_ptr = blocks_from heap_ptr h heap_ptr heap_start
