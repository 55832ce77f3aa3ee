-- ===== src/Vm/Objects/Texts.antt =====
-- Strings in the heap of runtime/vm.py: `_string_bytes` after `_alloc_string`.
use quin_lang.Vm.Heap.Bytes.{put_word_outside, word_at-ext, word_at-put_word}
use quin_lang.Vm.Runs.{Runs, run_bind, run_if_false, run_peek, run_refuse}
use quin_lang.Vm.Machine.{Setup, Vm, gets, header_bytes, heap_size, heap_start, modify, pure, ◌>>=◌}
use quin_lang.Vm.Store.{peek, write_header, write_word}
use quin_lang.Vm.Alloc.{alloc_string, bump, or_collect, put_bytes, reserve, round_payload}
use quin_lang.Vm.Heap.{
  Heap, detail, kind, kind_string, mark_bit, put_word, read_word, set_byte, word_at,
}
use quin_lang.Vm.Objects.{bytes_at, is_string, slice_heap, string_bytes}
use quin_lang.Prelude.{
  List, [], ap, arith, if◌then◌else◌, inl, length, ltb, ok, refl, some, subst, suc, true, zero, ℕ,
  ◌%◌, ◌+◌, ◌-◌, ◌<◌, ◌==◌, ◌∙◌, ◌∷◌, ◌≡◌, ◌≤◌,
}

cons_eq : {a b : ℕ} {as' bs : List ℕ} → a ≡ b → as' ≡ bs → a ∷ as' ≡ b ∷ bs
cons_eq e f = cc

bytes_at-ext :
    (h g : Heap) (addr n : ℕ)
    → ((a : ℕ) → addr ≤ a → a < addr + n → h a ≡ g a)
    → bytes_at h addr n ≡ bytes_at g addr n
unfolding bytes_at
bytes_at-ext h g addr zero e = refl
bytes_at-ext h g addr (suc n) e =
    cons_eq (e addr (omega arith) (omega arith))
      (bytes_at-ext h g (addr + 1) n (λ a l u. e a (omega arith) (omega arith)))

put_bytes_below :
    (h : Heap) (addr : ℕ) (content : List ℕ) (a : ℕ) → a < addr → put_bytes h addr content a ≡ h a
unfolding put_bytes set_byte
put_bytes_below h addr [] a l = refl
put_bytes_below h addr (b ∷ bs) a l =
    put_bytes_below (set_byte h addr b) (addr + 1) bs a (omega arith) ∙ ground arith

bytes_at-put_bytes :
    (h : Heap) (addr : ℕ) (content : List ℕ)
    → bytes_at (put_bytes h addr content) addr (length content) ≡ content
unfolding bytes_at put_bytes set_byte
bytes_at-put_bytes h addr [] = refl
bytes_at-put_bytes h addr (b ∷ bs) =
    cons_eq (put_bytes_below (set_byte h addr b) (addr + 1) bs addr (omega arith) ∙ ground arith)
      (bytes_at-put_bytes (set_byte h addr b) (addr + 1) bs)

-- a string object whose payload is at `addr`
abbrev pub IsText : Heap → ℕ → List ℕ → Type 0
IsText h addr content =
    (heap_start + header_bytes ≤ addr)
    × (addr + length content ≤ heap_size)
    × (word_at h (addr - header_bytes) ≡ kind_string)
    × (word_at h (addr - header_bytes + 2) ≡ length content)
    × (bytes_at h addr (length content) ≡ content)

pub kind_lem :
    (h : Heap) (hdr k : ℕ)
    → hdr + 1 < heap_size
    → word_at h hdr ≡ k
    → k < mark_bit
    → kind h hdr ≡ ok k
unfolding kind read_word
kind_lem h hdr k l e m = ground arith

slice_heap_lem :
    (h : Heap) (addr n : ℕ) → addr + n ≤ heap_size → slice_heap h addr n ≡ bytes_at h addr n
unfolding slice_heap
slice_heap_lem h addr n l = ap (bytes_at h addr) (ground arith)

pub detail_lem :
    (h : Heap) (hdr n : ℕ) → hdr + 2 + 1 < heap_size → word_at h (hdr + 2) ≡ n → detail h hdr ≡ ok n
unfolding detail read_word
detail_lem h hdr n l e = ground arith

module _ {W : Type 0} where
  is_string-IsText :
      (addr : ℕ) (content : List ℕ) (vm : Vm W)
      → IsText vm.heap addr content
      → Runs (is_string addr) vm (ok true, vm)
  unfolding is_string pure
  is_string-IsText addr content vm (lo, hi, k, n, b) =
      run_if_false (ltb addr (heap_start + header_bytes)) _ _ (ground arith) (
        run_peek _ _
          (kind_lem vm.heap (addr - header_bytes) kind_string (omega arith) k (omega arith))
          (record { at = refl }))

  string_bytes-IsText :
      (addr : ℕ) (content : List ℕ) (vm : Vm W)
      → IsText vm.heap addr content
      → Runs (string_bytes addr) vm (ok content, vm)
  unfolding string_bytes peek
  string_bytes-IsText addr content vm (lo, hi, k, n, b) = run_refuse _ _ _ (ground arith) (
      run_bind _ _ (is_string-IsText addr content vm (lo, hi, k, n, b)) (
        run_refuse _ _ _ refl (
          run_peek _ _ (detail_lem vm.heap (addr - header_bytes) (length content) (omega arith) n)
            (record {
              at = ap (λ bs. (ok bs, vm)) (slice_heap_lem vm.heap addr (length content) hi ∙ b);
            }))))

  bump_fits :
      (payload k n : ℕ) (vm : Vm W)
      → vm.heap_ptr + header_bytes + payload ≤ heap_size
      → Runs (bump payload k n) vm (
        ok (some (vm.heap_ptr + header_bytes)),
        record vm {
          heap_ptr = vm.heap_ptr + header_bytes + payload;
          heap = put_word (put_word vm.heap vm.heap_ptr k) (vm.heap_ptr + 2) n;
          stats = record (vm.stats) { objects_allocated = vm.stats.objects_allocated + 1 };
        },
      )
  unfolding bump gets modify pure write_header write_word ◌>>=◌
  bump_fits payload k n vm f = record { at = ground arith }

-- the heap after `_alloc_string` has written its bytes
abbrev pub filled : Heap → ℕ → List ℕ → Heap
filled h addr content =
    if length content % 2 == 1
    then set_byte (put_bytes h addr content) (addr + length content) 0
    else put_bytes h addr content

pub filled_below :
    (h : Heap) (addr : ℕ) (content : List ℕ) (a : ℕ) → a < addr → filled h addr content a ≡ h a
unfolding set_byte
filled_below h addr content a l = ground (arith, put_bytes_below h addr content a l)

bytes_at-filled :
    (h : Heap) (addr : ℕ) (content : List ℕ)
    → bytes_at (filled h addr content) addr (length content) ≡ content
unfolding set_byte
bytes_at-filled h addr content =
    bytes_at-ext _ (put_bytes h addr content) addr (length content) (λ a l u. ground arith)
    ∙ bytes_at-put_bytes h addr content

module _ (h : Heap) (hdr : ℕ) (content : List ℕ) where
  abbrev pub with_header : Heap
  with_header = put_word (put_word h hdr kind_string) (hdr + 2) (length content)

  kind_word : word_at (filled with_header (hdr + header_bytes) content) hdr ≡ kind_string
  kind_word =
      word_at-ext _ with_header hdr
        (filled_below with_header (hdr + header_bytes) content hdr (omega arith))
        (filled_below with_header (hdr + header_bytes) content (hdr + 1) (omega arith))
      ∙ word_at-ext _ (put_word h hdr kind_string) hdr
          (put_word_outside _ (hdr + 2) (length content) hdr (inl (omega arith)))
          (put_word_outside _ (hdr + 2) (length content) (hdr + 1) (inl (omega arith)))
      ∙ word_at-put_word h hdr kind_string

  length_word :
      length content ≤ 0x7fff
      → word_at (filled with_header (hdr + header_bytes) content) (hdr + 2) ≡ length content
  length_word l =
      word_at-ext _ with_header (hdr + 2)
        (filled_below with_header (hdr + header_bytes) content (hdr + 2) (omega arith))
        (filled_below with_header (hdr + header_bytes) content (hdr + 2 + 1) (omega arith))
      ∙ word_at-put_word (put_word h hdr kind_string) (hdr + 2) (length content)
      ∙ omega arith

  pub filled-IsText :
      length content ≤ 0x7fff
      → heap_start ≤ hdr
      → hdr + header_bytes + (length content + length content % 2) ≤ heap_size
      → IsText
          (filled
            (put_word (put_word h hdr kind_string) (hdr + 2) (length content))
            (hdr + header_bytes)
            content)
          (hdr + header_bytes)
          content
  filled-IsText l s f = (
    omega arith,
    omega arith,
    subst (λ a. word_at (filled with_header (hdr + header_bytes) content) a ≡ kind_string)
        (omega arith) kind_word,
    subst (λ a. word_at (filled with_header (hdr + header_bytes) content) (a + 2) ≡ length content)
        (omega arith) (length_word l),
    bytes_at-filled _ (hdr + header_bytes) content,
  )

-- the payload of a string leaves room for its bytes, and for the cleared one after an odd length
pub round_payload_le : (n : ℕ) → n + n % 2 ≤ round_payload n
unfolding round_payload
round_payload_le n = ground arith

module _ {F W : Type 0} (setup : Setup F W) where
  pub reserve_fits :
      (payload k n : ℕ) (vm : Vm W)
      → vm.heap_ptr + header_bytes + round_payload payload ≤ heap_size
      → Runs (reserve setup payload k n) vm (
        ok (vm.heap_ptr + header_bytes),
        record vm {
          heap_ptr = vm.heap_ptr + header_bytes + round_payload payload;
          heap = put_word (put_word vm.heap vm.heap_ptr k) (vm.heap_ptr + 2) n;
          stats = record (vm.stats) { objects_allocated = vm.stats.objects_allocated + 1 };
        },
      )
  unfolding reserve or_collect pure
  reserve_fits payload k n vm f =
      run_bind _ _ (bump_fits (round_payload payload) k n vm f) (record { at = refl })

  pub alloc_string_fits :
      (content : List ℕ) (vm : Vm W)
      → length content ≤ 0x7fff
      → vm.heap_ptr + header_bytes + round_payload (length content) ≤ heap_size
      → Runs (alloc_string setup content) vm (
        ok (vm.heap_ptr + header_bytes),
        record vm {
          heap_ptr = vm.heap_ptr + header_bytes + round_payload (length content);
          heap =
              filled
                (put_word
                  (put_word vm.heap vm.heap_ptr kind_string)
                  (vm.heap_ptr + 2)
                  (length content))
                (vm.heap_ptr + header_bytes)
                content;
          stats = record (vm.stats) { objects_allocated = vm.stats.objects_allocated + 1 };
        },
      )
  unfolding alloc_string modify pure ◌>>=◌
  alloc_string_fits content vm l f = run_if_false (ltb 0x7fff (length content)) _ _ (ground arith) (
      run_bind _ _ (reserve_fits (length content) kind_string (length content) vm f)
        (record { at = refl }))

  -- A string of at most 32767 bytes that fits between the heap pointer and the end of the heap, with
  -- the pointer at or above the start, is read back byte for byte from the address that its
  -- allocation returns.
  pub alloc_string-string_bytes :
      (content : List ℕ) (vm : Vm W)
      → length content ≤ 0x7fff
      → heap_start ≤ vm.heap_ptr
      → vm.heap_ptr + header_bytes + round_payload (length content) ≤ heap_size
      → ((alloc_string setup content >>= string_bytes) vm).0 ≡ ok content
  alloc_string-string_bytes content vm l s f =
      ap (λ o. o.0)
        (run_bind _ _ (alloc_string_fits content vm l f) (
          string_bytes-IsText (vm.heap_ptr + header_bytes) content _ (
            filled-IsText vm.heap vm.heap_ptr content l s
              (omega (arith, f, round_payload_le (length content)))))).at
