-- ===== src/Vm/Collect/Untouched.antt =====
-- The whole of `collect` in runtime/vm.py: what it leaves alone.
use quin_lang.Vm.Collect.Rewritten.{
  rewrite_all-length, rewrite_frames-fields, rewrite_slots-blanked, rewrite_slots-length,
  rewrite_stack-length, rewrite_stack-plain_words,
}
use quin_lang.Vm.Collect.{collect}
use quin_lang.Vm.Collect.Mark.{mark_all, mark_from, visit}
use quin_lang.Vm.Collect.Shape.{
  HasFields, IsAlike, blanked, containing_object-Keeps, moved-Keeps, object_starts-Keeps,
  plain_words, plan_compaction-Keeps, push_words-Keeps, rewrite_all-Keeps, rewrite_frames-Keeps,
  rewrite_slots-Keeps, rewrite_stack-Keeps, set_mark-IsAlike, traced_words-Keeps,
  write_word-IsAlike,
}
use quin_lang.Vm.Keeps.{
  Keeps, Keeps-bind, Keeps-bind_with, Keeps-gets, Keeps-gets_with, Keeps-if, Keeps-modify,
  Keeps-peek, Keeps-pure, Keeps-require, Returns-both, keeps_rules,
}
use quin_lang.Program.{FunctionInfo, StructLayout}
use quin_lang.Vm.Collect.Roots.{ref_slots_of}
use quin_lang.Vm.Collect.Compact.{
  Forward, moved, rewrite_words, slide, slide_block, slide_blocks, update_blocks, update_references,
}
use quin_lang.Vm.Machine.{Frame, Setup, Vm, header_bytes, heap_start}
use quin_lang.Prelude.{
  Bool, List, Option, [], false, if◌then◌else◌, length, none, refl, some, subst, suc, true, zero, ℕ,
  ◌+◌, ◌-◌, ◌==◌, ◌∙◌, ◌∷◌, ◌≡◌,
}

module _ {W : Type 0} (functions : List FunctionInfo) (structs : List StructLayout)
    (old : Vm W) where
  visit-IsAlike :
      (starts : List ℕ) (object : Option ℕ) (pending : List ℕ)
      → Keeps {W = W} (IsAlike functions old) (visit structs starts object pending)
  unfolding visit
  visit-IsAlike starts none pending = search keeps_rules
  visit-IsAlike starts (some start) pending =
      search (keeps_rules, set_mark-IsAlike, traced_words-Keeps, push_words-Keeps)

  mark_from-IsAlike :
      (fuel : ℕ) (starts pending : List ℕ)
      → Keeps {W = W} (IsAlike functions old) (mark_from structs fuel starts pending)
  unfolding mark_from
  mark_from-IsAlike zero starts pending = search keeps_rules
  mark_from-IsAlike (suc fuel) starts [] = search keeps_rules
  mark_from-IsAlike (suc fuel) starts (addr ∷ pending) =
      Keeps-if _ _ _ (mark_from-IsAlike fuel starts pending) (
        Keeps-bind _ _ (containing_object-Keeps structs addr starts) (λ object.
          Keeps-bind _ _ (visit-IsAlike starts object pending) (mark_from-IsAlike fuel starts)))

  mark_all-IsAlike :
      (starts refs : List ℕ) → Keeps {W = W} (IsAlike functions old) (mark_all structs starts refs)
  unfolding mark_all
  mark_all-IsAlike starts [] = search keeps_rules
  mark_all-IsAlike starts (ref ∷ refs) =
      Keeps-bind _ _ (mark_from-IsAlike _ _ _) (λ u. mark_all-IsAlike starts refs)

  rewrite_words-IsAlike :
      (forward : Forward) (starts addrs : List ℕ)
      → Keeps {W = W} (IsAlike functions old) (rewrite_words (moved structs forward starts) addrs)
  unfolding rewrite_words
  rewrite_words-IsAlike forward starts [] = search keeps_rules
  rewrite_words-IsAlike forward starts (addr ∷ addrs) = Keeps-bind _ _ (Keeps-peek _) (λ v.
      Keeps-bind _ _ (moved-Keeps structs forward starts v) (λ v'.
        Keeps-bind _ _ (write_word-IsAlike functions old addr v')
          (λ u. rewrite_words-IsAlike forward starts addrs)))

  update_blocks-IsAlike :
      (fuel : ℕ) (forward : Forward) (starts : List ℕ) (hdr : ℕ)
      → Keeps {W = W} (IsAlike functions old) (update_blocks structs fuel forward starts hdr)
  unfolding update_blocks
  update_blocks-IsAlike zero forward starts hdr = search keeps_rules
  update_blocks-IsAlike (suc fuel) forward starts hdr = Keeps-bind _ _ (Keeps-gets _) (λ ptr.
      Keeps-if _ _ _ (Keeps-pure tt) (
        Keeps-bind _ _ (Keeps-peek _) (λ b.
          Keeps-bind _ _
            (Keeps-if b _ _ (traced_words-Keeps structs (hdr + header_bytes)) (Keeps-pure []))
            (λ addrs.
              Keeps-bind _ _ (rewrite_words-IsAlike forward starts addrs)
                (λ u. Keeps-bind _ _ (Keeps-peek _) (update_blocks-IsAlike fuel forward starts))))))

  IsAlike-if :
      (b : Bool) (vm vm' : Vm W)
      → IsAlike functions old vm
      → IsAlike functions old vm'
      → IsAlike functions old (if b then vm else vm')
  IsAlike-if true vm vm' h h' = h
  IsAlike-if false vm vm' h h' = h'

  slide_block-IsAlike :
      (forward : Forward) (top hdr : ℕ)
      → Keeps {W = W} (IsAlike functions old) (slide_block structs forward top hdr)
  unfolding slide_block
  slide_block-IsAlike forward top hdr = Keeps-bind _ _ (Keeps-peek _) (λ payload.
      Keeps-bind _ _ (Keeps-peek _) (λ marked.
        Keeps-if marked _ _
          (Keeps-bind _ _ (Keeps-require _ _) (λ start.
            Keeps-bind _ _
              (Keeps-modify _ (λ vm h. IsAlike-if (start - header_bytes == hdr) vm _ h h))
              (λ u. Keeps-bind _ _ (set_mark-IsAlike functions old _ _) (λ u'. Keeps-pure _))))
          (Keeps-bind _ _ (Keeps-modify _ (λ vm h. h)) (λ u. Keeps-pure top))))

  slide_blocks-IsAlike :
      (forward : Forward) (top : ℕ) (hdrs : List ℕ)
      → Keeps {W = W} (IsAlike functions old) (slide_blocks structs forward top hdrs)
  unfolding slide_blocks
  slide_blocks-IsAlike forward top [] = search keeps_rules
  slide_blocks-IsAlike forward top (hdr ∷ hdrs) =
      Keeps-bind _ _ (slide_block-IsAlike forward top hdr)
        (λ top'. slide_blocks-IsAlike forward top' hdrs)

  slide-IsAlike :
      (forward : Forward) → Keeps {W = W} (IsAlike functions old) (slide structs forward)
  unfolding slide
  slide-IsAlike forward = Keeps-bind _ _ (Keeps-gets _) (λ ptr.
      Keeps-bind _ _ (Keeps-peek _) (λ hdrs.
        Keeps-bind _ _ (slide_blocks-IsAlike forward heap_start hdrs)
          (λ top. Keeps-modify _ (λ vm h. h))))

module _ {W : Type 0} (functions : List FunctionInfo) (structs : List StructLayout)
    (old : Vm W) where
  -- the state that `_update_references` makes of the one it reads and the one it writes to
  rewritten :
      (vm vm' : Vm W) (ls : List ℕ) (fs : List Frame) (vs lits vars : List ℕ)
      → IsAlike functions old vm
      → IsAlike functions old vm'
      → (length ls ≡ length vm.locals)
        × (blanked (ref_slots_of functions vm.current_fn) ls
            ≡ blanked (ref_slots_of functions vm.current_fn) vm.locals)
      → HasFields functions vm.call_stack fs
      → (length vs ≡ length vm.stack)
        × (plain_words vs vm.stack_is_ref ≡ plain_words vm.stack vm.stack_is_ref)
      → length lits ≡ length vm.literals
      → length vars ≡ length vm.variants
      → IsAlike functions old (record vm' {
        locals = ls;
        call_stack = fs;
        stack = vs;
        literals = lits;
        variants = vars;
      })
  rewritten vm vm' ls fs vs lits vars h g el ef es et ev = (
    g.0,
    g.1,
    g.2,
    g.3,
    es.0 ∙ h.4,
    (ef.0 ∙ (h.5).0, ef.1 ∙ (h.5).1, ef.2 ∙ (h.5).2, ef.3 ∙ (h.5).3),
    el.0 ∙ h.6,
    et ∙ h.7,
    g.8,
    g.9,
    subst (λ bs. plain_words vs bs ≡ plain_words vm.stack bs) h.3 es.1 ∙ h.10,
    subst
          (λ n.
            blanked (ref_slots_of functions n) ls ≡ blanked (ref_slots_of functions n) vm.locals)
          h.1 el.1
        ∙ h.11,
    ev ∙ h.12,
  )

  update_references-IsAlike :
      (forward : Forward) (starts : List ℕ)
      → Keeps {W = W} (IsAlike functions old) (update_references functions structs forward starts)
  unfolding update_references
  update_references-IsAlike forward starts = Keeps-gets_with _ _ (λ vm h.
      let move = moved structs forward starts in
      let k = moved-Keeps structs forward starts in
      let slots = ref_slots_of functions vm.current_fn in
      Keeps-bind_with _ _ _ (rewrite_slots-Keeps move k _ _)
        (Returns-both _ _ _ (rewrite_slots-length move slots vm.locals)
          (rewrite_slots-blanked move slots vm.locals))
        (λ ls el.
          Keeps-bind_with _ _ _ (rewrite_frames-Keeps move k _ _) (rewrite_frames-fields move _ _)
            (λ fs ef.
              Keeps-bind_with _ _ _ (rewrite_stack-Keeps move k _ _)
                (Returns-both _ _ _ (rewrite_stack-length move vm.stack vm.stack_is_ref)
                  (rewrite_stack-plain_words move vm.stack vm.stack_is_ref))
                (λ vs es.
                  Keeps-bind_with _ _ _ (rewrite_all-Keeps move k _) (rewrite_all-length move _)
                    (λ lits et.
                      Keeps-bind_with _ _ _ (rewrite_all-Keeps move k _) (rewrite_all-length move _)
                        (λ vars ev.
                          Keeps-bind _ _
                            (Keeps-modify _
                              (λ vm' g. rewritten vm vm' ls fs vs lits vars h g el ef es et ev))
                            (λ u.
                              update_blocks-IsAlike functions structs old vm.heap_ptr forward starts
                                heap_start)))))))

module _ {F W : Type 0} (setup : Setup F W) (old : Vm W) where
  -- A collection that starts in the state `old` leaves, whether it returns or raises.
  collect-IsAlike_from : Keeps {W = W} (IsAlike setup.functions old) (collect setup)
  unfolding collect
  collect-IsAlike_from = Keeps-bind _ _ (Keeps-modify _ (λ vm h. h)) (λ u.
      Keeps-bind _ _ (object_starts-Keeps setup.structs) (λ starts.
        Keeps-bind _ _ (Keeps-gets _) (λ rs.
          Keeps-bind _ _ (mark_all-IsAlike setup.functions setup.structs old starts rs) (λ u.
            Keeps-bind _ _ (plan_compaction-Keeps setup.structs) (λ forward.
              Keeps-bind _ _
                (update_references-IsAlike setup.functions setup.structs old forward starts)
                (λ u. slide-IsAlike setup.functions setup.structs old forward))))))

-- A collection, whether it returns or raises, leaves the program counter, the running function, the
-- frame base, the reference flags, the file error and the world as they were; of the operand stack the
-- words that are not tagged as references, of the locals of the running function and of each suspended
-- one the slots that are not listed as references, and of a suspended frame all else; and the number
-- of the words on the stack, of the locals, of the literals and of the variants.
pub collect-IsAlike :
    {F W : Type 0} (setup : Setup F W) (vm : Vm W) → IsAlike setup.functions vm (collect setup vm).1
collect-IsAlike setup vm = (collect-IsAlike_from setup vm).at vm (
  refl,
  refl,
  refl,
  refl,
  refl,
  (refl, refl, refl, refl),
  refl,
  refl,
  refl,
  refl,
  refl,
  refl,
  refl,
)
