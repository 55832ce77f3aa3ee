-- ===== src/Vm/Collect/Rewritten.antt =====
-- What the loops of `_update_references` in runtime/vm.py return.
use quin_lang.Vm.Collect.Shape.{HasFields, blanked, plain_words}
use quin_lang.Vm.Keeps.{Returns, Returns-bind, Returns-bind_any, Returns-mono, Returns-pure}
use quin_lang.Program.{FunctionInfo}
use quin_lang.Vm.Collect.Roots.{ref_slots_of}
use quin_lang.Vm.Collect.Compact.{rewrite_all, rewrite_frames, rewrite_slots, rewrite_stack}
use quin_lang.Vm.Machine.{Exec, Frame}
use quin_lang.Prelude.{
  Bool, List, [], ap, false, length, length-set, map, refl, set, suc, sym, true, zero, ℕ, ◌∙◌, ◌∷◌,
  ◌≡◌,
}

set-set_self : (xs : List ℕ) (i v w : ℕ) → set (set xs i v) i w ≡ set xs i w
set-set_self [] i v w = refl
set-set_self (x ∷ xs) zero v w = refl
set-set_self (x ∷ xs) (suc i) v w = ap (x ∷◌) (set-set_self xs i v w)

set-set_zero : (xs : List ℕ) (i j : ℕ) → set (set xs i 0) j 0 ≡ set (set xs j 0) i 0
set-set_zero [] i j = refl
set-set_zero (x ∷ xs) zero zero = refl
set-set_zero (x ∷ xs) zero (suc j) = refl
set-set_zero (x ∷ xs) (suc i) zero = refl
set-set_zero (x ∷ xs) (suc i) (suc j) = ap (x ∷◌) (set-set_zero xs i j)

blanked-set :
    (slots : List ℕ) (i : ℕ) (xs : List ℕ) → blanked slots (set xs i 0) ≡ set (blanked slots xs) i 0
blanked-set [] i xs = refl
blanked-set (slot ∷ slots) i xs =
    ap (blanked slots) (set-set_zero xs i slot) ∙ blanked-set slots i (set xs slot 0)

-- the rewriting loops return lists as long as the ones they are given
module _ {W : Type 0} (move : ℕ → Exec W ℕ) where
  pub rewrite_slots-length :
      (slots locals : List ℕ)
      → Returns (λ ls. length ls ≡ length locals) (rewrite_slots move slots locals)
  unfolding rewrite_slots
  rewrite_slots-length [] locals = Returns-pure _ refl
  rewrite_slots-length (slot ∷ slots) locals =
      Returns-bind_any _ _
        (λ v. Returns-mono _ (λ ls e. e ∙ length-set locals slot v) (rewrite_slots-length slots _))

  pub rewrite_all-length :
      (vs : List ℕ) → Returns (λ ls. length ls ≡ length vs) (rewrite_all move vs)
  unfolding rewrite_all
  rewrite_all-length [] = Returns-pure _ refl
  rewrite_all-length (v ∷ vs) =
      Returns-bind_any _ _
        (λ v'. Returns-bind _ _ _ _ (rewrite_all-length vs) (λ ls e. Returns-pure _ (ap suc e)))

  pub rewrite_stack-length :
      (vs : List ℕ) (bs : List Bool)
      → Returns (λ ls. length ls ≡ length vs) (rewrite_stack move vs bs)
  unfolding rewrite_stack
  rewrite_stack-length [] bs = Returns-pure _ refl
  rewrite_stack-length (v ∷ vs) [] = Returns-pure _ refl
  rewrite_stack-length (v ∷ vs) (b ∷ bs) =
      Returns-bind_any _ _ (λ v'.
        Returns-bind _ _ _ _ (rewrite_stack-length vs bs) (λ ls e. Returns-pure _ (ap suc e)))

  pub rewrite_slots-blanked :
      (slots locals : List ℕ)
      → Returns (λ ls. blanked slots ls ≡ blanked slots locals) (rewrite_slots move slots locals)
  unfolding rewrite_slots
  rewrite_slots-blanked [] locals = Returns-pure _ refl
  rewrite_slots-blanked (slot ∷ slots) locals = Returns-bind_any _ _ (λ v.
      Returns-mono _
        (λ ls e.
          blanked-set slots slot ls
          ∙ ap (λ xs. set xs slot 0) e
          ∙ sym (blanked-set slots slot (set locals slot v))
          ∙ ap (blanked slots) (set-set_self locals slot v 0))
        (rewrite_slots-blanked slots (set locals slot v)))

  pub rewrite_stack-plain_words :
      (vs : List ℕ) (bs : List Bool)
      → Returns (λ ls. plain_words ls bs ≡ plain_words vs bs) (rewrite_stack move vs bs)
  unfolding rewrite_stack
  rewrite_stack-plain_words [] bs = Returns-pure _ refl
  rewrite_stack-plain_words (v ∷ vs) [] = Returns-pure _ refl
  rewrite_stack-plain_words (v ∷ vs) (true ∷ bs) =
      Returns-bind_any _ _
        (λ v'. Returns-bind _ _ _ _ (rewrite_stack-plain_words vs bs) (λ ls e. Returns-pure _ e))
  rewrite_stack-plain_words (v ∷ vs) (false ∷ bs) =
      Returns-bind (λ v'. v' ≡ v) _ _ _ (Returns-pure _ refl)
        (λ v' q.
          Returns-bind _ _ _ _ (rewrite_stack-plain_words vs bs)
            (λ ls e. Returns-pure _ (ap (λ x. x ∷ plain_words ls bs) q ∙ ap (v ∷◌) e)))

  pub rewrite_frames-fields :
      (functions : List FunctionInfo) (fs : List Frame)
      → Returns (λ gs. HasFields functions fs gs) (rewrite_frames move functions fs)
  unfolding rewrite_frames
  rewrite_frames-fields functions [] = Returns-pure _ (refl, refl, refl, refl)
  rewrite_frames-fields functions (f ∷ fs) =
      Returns-bind _ _ _ _ (rewrite_slots-blanked (ref_slots_of functions f.fn_index) f.locals)
        (λ ls b. Returns-bind _ _ _ _ (rewrite_frames-fields functions fs) (λ gs e. Returns-pure _ (
          ap (f.stack_base ∷◌) e.0,
          ap (f.return_pc ∷◌) e.1,
          ap (f.fn_index ∷◌) e.2,
          ap (λ x. x ∷ map (λ (g : Frame). blanked (ref_slots_of functions g.fn_index) g.locals) gs)
                b
              ∙ ap (blanked (ref_slots_of functions f.fn_index) f.locals ∷◌) (e.3),
        )))
