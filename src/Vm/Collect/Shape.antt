-- ===== src/Vm/Collect/Shape.antt =====
-- The parts of the machine that a collection of runtime/vm.py should leave alone, over the steps that
-- read, and over those that write to the heap.
use quin_lang.Vm.Collect.Mark.{containing_object, object_starts, push_words, traced_words}
use quin_lang.Vm.Collect.Roots.{ref_slots_of}
use quin_lang.Vm.Collect.Compact.{
  Forward, moved, plan_compaction, plan_from, rewrite_all, rewrite_frames, rewrite_slots,
  rewrite_stack,
}
use quin_lang.Program.{FunctionInfo, StructLayout}
use quin_lang.Vm.Keeps.{Keeps, Keeps-bind, Keeps-if, Keeps-peek, Keeps-pure, keeps_rules}
use quin_lang.Vm.Store.{set_mark, write_word}
use quin_lang.Vm.Machine.{Exec, Frame, Vm, header_bytes}
use quin_lang.Prelude.{
  Bool, List, [], arith, false, if◌then◌else◌, length, map, set, true, ℕ, ◌+◌, ◌∷◌, ◌≡◌,
}

-- the words of the operand stack that are not tagged as references
abbrev pub plain_words : List ℕ → List Bool → List ℕ
plain_words [] bs = []
plain_words (v ∷ vs) [] = v ∷ vs
plain_words (v ∷ vs) (true ∷ bs) = plain_words vs bs
plain_words (v ∷ vs) (false ∷ bs) = v ∷ plain_words vs bs

-- the locals with each of these slots put to 0
abbrev pub blanked : List ℕ → List ℕ → List ℕ
blanked [] locals = locals
blanked (slot ∷ slots) locals = blanked slots (set locals slot 0)

module _ (functions : List FunctionInfo) where
  -- frames that differ in the locals that hold references at most
  abbrev pub HasFields : List Frame → List Frame → Type 0
  HasFields fs gs =
      (map (λ f. f.stack_base) gs ≡ map (λ f. f.stack_base) fs)
      × (map (λ f. f.return_pc) gs ≡ map (λ f. f.return_pc) fs)
      × (map (λ f. f.fn_index) gs ≡ map (λ f. f.fn_index) fs)
      × (map (λ f. blanked (ref_slots_of functions f.fn_index) f.locals) gs
          ≡ map (λ f. blanked (ref_slots_of functions f.fn_index) f.locals) fs)

  -- `vm` differs from `old` only in words that hold references, in the heap and in the statistics.
  abbrev pub IsAlike : {W : Type 0} → Vm W → Vm W → Type 0
  IsAlike old vm =
      (vm.pc ≡ old.pc)
      × (vm.current_fn ≡ old.current_fn)
      × (vm.frame_base ≡ old.frame_base)
      × (vm.stack_is_ref ≡ old.stack_is_ref)
      × (length vm.stack ≡ length old.stack)
      × HasFields old.call_stack vm.call_stack
      × (length vm.locals ≡ length old.locals)
      × (length vm.literals ≡ length old.literals)
      × (vm.file_error ≡ old.file_error)
      × (vm.world ≡ old.world)
      × (plain_words vm.stack old.stack_is_ref ≡ plain_words old.stack old.stack_is_ref)
      × (blanked (ref_slots_of functions old.current_fn) vm.locals
          ≡ blanked (ref_slots_of functions old.current_fn) old.locals)
      × (length vm.variants ≡ length old.variants)

module _ {W : Type 0} (functions : List FunctionInfo) (old : Vm W) where
  pub write_word-IsAlike : (addr v : ℕ) → Keeps {W = W} (IsAlike functions old) (write_word addr v)
  unfolding write_word
  write_word-IsAlike addr v = record { at = λ vm h. ground arith }

  pub set_mark-IsAlike :
      (hdr : ℕ) (b : Bool) → Keeps {W = W} (IsAlike functions old) (set_mark hdr b)
  unfolding set_mark
  set_mark-IsAlike hdr b = search (keeps_rules, write_word-IsAlike)

-- the actions of the collector that only read keep whatever holds
module _ {W : Type 0} {P : Vm W → Type 0} (structs : List StructLayout) where
  pub containing_object-Keeps :
      (ref : ℕ) (starts : List ℕ) → Keeps {W = W} P (containing_object structs ref starts)
  unfolding containing_object
  containing_object-Keeps ref starts = search keeps_rules

  pub traced_words-Keeps : (start : ℕ) → Keeps {W = W} P (traced_words structs start)
  unfolding traced_words
  traced_words-Keeps start = search keeps_rules

  pub object_starts-Keeps : Keeps {W = W} P (object_starts structs)
  unfolding object_starts
  object_starts-Keeps = search keeps_rules

  pub push_words-Keeps :
      (addrs pending : List ℕ) → Keeps {W = W} P (push_words structs addrs pending)
  unfolding push_words
  push_words-Keeps [] pending = search keeps_rules
  push_words-Keeps (a ∷ addrs) pending =
      Keeps-bind _ _ (Keeps-peek _) (λ v. push_words-Keeps addrs (v ∷ pending))

  pub plan_from-Keeps : (free : ℕ) (hdrs : List ℕ) → Keeps {W = W} P (plan_from structs free hdrs)
  unfolding plan_from
  plan_from-Keeps free [] = search keeps_rules
  plan_from-Keeps free (hdr ∷ hdrs) = Keeps-bind _ _ (Keeps-peek _) (λ b.
      Keeps-bind _ _ (Keeps-peek _) (λ n.
        Keeps-bind _ _ (plan_from-Keeps (if b then free + header_bytes + n else free) hdrs)
          (λ r. Keeps-pure _)))

  pub plan_compaction-Keeps : Keeps {W = W} P (plan_compaction structs)
  unfolding plan_compaction
  plan_compaction-Keeps = search (keeps_rules, plan_from-Keeps)

  pub moved-Keeps :
      (forward : Forward) (starts : List ℕ) (ref : ℕ)
      → Keeps {W = W} P (moved structs forward starts ref)
  unfolding moved
  moved-Keeps forward starts ref = search (keeps_rules, containing_object-Keeps)

module _ {W : Type 0} {P : Vm W → Type 0} (move : ℕ → Exec W ℕ)
    (k : (n : ℕ) → Keeps P (move n)) where
  pub rewrite_slots-Keeps : (slots locals : List ℕ) → Keeps P (rewrite_slots move slots locals)
  unfolding rewrite_slots
  rewrite_slots-Keeps [] locals = Keeps-pure _
  rewrite_slots-Keeps (slot ∷ slots) locals =
      Keeps-bind _ _ (k _) (λ v. rewrite_slots-Keeps slots _)

  pub rewrite_all-Keeps : (vs : List ℕ) → Keeps P (rewrite_all move vs)
  unfolding rewrite_all
  rewrite_all-Keeps [] = Keeps-pure _
  rewrite_all-Keeps (v ∷ vs) =
      Keeps-bind _ _ (k v) (λ v'. Keeps-bind _ _ (rewrite_all-Keeps vs) (λ vs'. Keeps-pure _))

  pub rewrite_stack-Keeps : (vs : List ℕ) (bs : List Bool) → Keeps P (rewrite_stack move vs bs)
  unfolding rewrite_stack
  rewrite_stack-Keeps [] bs = Keeps-pure _
  rewrite_stack-Keeps (v ∷ vs) [] = Keeps-pure _
  rewrite_stack-Keeps (v ∷ vs) (b ∷ bs) =
      Keeps-bind _ _ (Keeps-if b _ _ (k v) (Keeps-pure v))
        (λ v'. Keeps-bind _ _ (rewrite_stack-Keeps vs bs) (λ vs'. Keeps-pure _))

  pub rewrite_frames-Keeps :
      (functions : List FunctionInfo) (fs : List Frame) → Keeps P (rewrite_frames move functions fs)
  unfolding rewrite_frames
  rewrite_frames-Keeps functions [] = Keeps-pure _
  rewrite_frames-Keeps functions (f ∷ fs) =
      Keeps-bind _ _ (rewrite_slots-Keeps _ _)
        (λ ls. Keeps-bind _ _ (rewrite_frames-Keeps functions fs) (λ fs'. Keeps-pure _))
