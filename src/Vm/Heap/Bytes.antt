-- ===== src/Vm/Heap/Bytes.antt =====
-- The bytes of the heap of runtime/vm.py after a write.
use quin_lang.Vm.Machine.{heap_size}
use quin_lang.Vm.Words.{word_mod}
use quin_lang.Vm.Heap.{Heap, put_word, read_word, set_byte, word_at}
use quin_lang.Prelude.{arith, ok, ℕ, ◌%◌, ◌+◌, ◌<◌, ◌≡◌, ◌≤◌, ◌⊎◌}

-- A word that was written is read back, cut to 16 bits.
pub word_at-put_word :
    (h : Heap) (addr value : ℕ) → word_at (put_word h addr value) addr ≡ value % word_mod
unfolding word_at put_word set_byte
word_at-put_word h addr value = ground arith

-- A write changes no byte outside its two.
pub put_word_outside :
    (h : Heap) (addr value a : ℕ) → (a < addr) ⊎ (addr + 2 ≤ a) → put_word h addr value a ≡ h a
unfolding put_word set_byte
put_word_outside h addr value a o = ground arith

-- words are read alike where their bytes are alike
pub word_at-ext :
    (h g : Heap) (addr : ℕ)
    → h addr ≡ g addr
    → h (addr + 1) ≡ g (addr + 1)
    → word_at h addr ≡ word_at g addr
unfolding word_at
word_at-ext h g addr e e' = cc

pub read_word_lem :
    (h : Heap) (addr : ℕ) → addr + 1 < heap_size → read_word h addr ≡ ok (word_at h addr)
unfolding read_word
read_word_lem h addr i = ground arith
