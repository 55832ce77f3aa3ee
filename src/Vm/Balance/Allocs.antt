-- ===== src/Vm/Balance/Allocs.antt =====
-- The balance of the stacks over collecting and allocating in runtime/vm.py.
use quin_lang.Vm.Collect.Untouched.{collect-IsAlike}
use quin_lang.Vm.Collect.{collect}
use quin_lang.Vm.Balance.Moves.{write_header-IsBalanced, zero_words-IsBalanced}
use quin_lang.Vm.Balance.{IsAlike-IsBalanced, IsBalanced}
use quin_lang.Vm.Keeps.{
  Keeps, Keeps-bind, Keeps-forbid, Keeps-gets, Keeps-if, Keeps-modify, Keeps-pure, Keeps-raise,
  keeps_rules,
}
use quin_lang.Program.{Strings, StructLayout, Text}
use quin_lang.Vm.Machine.{Setup}
use quin_lang.Vm.Alloc.{
  after_collection, alloc_array, alloc_literal, alloc_raw, alloc_string, alloc_struct, bump,
  materialise_from, materialise_items, materialise_literals, materialise_variants, or_collect,
  reserve, string_from_text,
}
use quin_lang.Prelude.{Bool, List, Option, [], negsuc, none, pos, some, ℕ, ℤ, ◌+◌, ◌∷◌}

module _ {F W : Type 0} (setup : Setup F W) where
  pub collect-IsBalanced : Keeps {W = W} IsBalanced (collect setup)
  collect-IsBalanced = record {
    at = λ vm h.
        IsAlike-IsBalanced setup.functions vm (collect setup vm).1 (collect-IsAlike setup vm) h;
  }

module _ {W : Type 0} where
  pub bump-IsBalanced : (payload k n : ℕ) → Keeps {W = W} IsBalanced (bump payload k n)
  unfolding bump
  bump-IsBalanced payload k n = Keeps-bind _ _ (Keeps-gets _) (λ hdr.
      Keeps-if _ _ _ (Keeps-pure none) (
        Keeps-bind _ _ (Keeps-modify _ (λ vm h. h)) (λ u.
          Keeps-bind _ _ (write_header-IsBalanced hdr k n)
            (λ u. Keeps-bind _ _ (Keeps-modify _ (λ vm h. h)) (λ u. Keeps-pure _)))))

module _ {F W : Type 0} (setup : Setup F W) where
  or_collect-IsBalanced :
      (o : Option ℕ) (payload k n : ℕ) → Keeps {W = W} IsBalanced (or_collect setup o payload k n)
  unfolding or_collect after_collection
  or_collect-IsBalanced none payload k n = search (keeps_rules, bump-IsBalanced, collect-IsBalanced)
  or_collect-IsBalanced (some addr) payload k n = Keeps-pure addr

  reserve-IsBalanced : (payload k n : ℕ) → Keeps {W = W} IsBalanced (reserve setup payload k n)
  unfolding reserve
  reserve-IsBalanced payload k n = search (keeps_rules, bump-IsBalanced, or_collect-IsBalanced)

  pub alloc_struct-IsBalanced : (id : ℤ) → Keeps {W = W} IsBalanced (alloc_struct setup id)
  unfolding alloc_struct
  alloc_struct-IsBalanced (negsuc i) = search keeps_rules
  alloc_struct-IsBalanced (pos id) = search (keeps_rules, reserve-IsBalanced, zero_words-IsBalanced)

  pub alloc_array-IsBalanced :
      (count : ℤ) (refs : Bool) → Keeps {W = W} IsBalanced (alloc_array setup count refs)
  unfolding alloc_array
  alloc_array-IsBalanced (negsuc i) refs = search keeps_rules
  alloc_array-IsBalanced (pos n) refs =
      search (keeps_rules, reserve-IsBalanced, zero_words-IsBalanced)

  pub alloc_raw-IsBalanced : (size : ℤ) → Keeps {W = W} IsBalanced (alloc_raw setup size)
  unfolding alloc_raw
  alloc_raw-IsBalanced (negsuc i) = search keeps_rules
  alloc_raw-IsBalanced (pos n) = search (keeps_rules, reserve-IsBalanced, zero_words-IsBalanced)

  pub alloc_string-IsBalanced :
      (content : List ℕ) → Keeps {W = W} IsBalanced (alloc_string setup content)
  unfolding alloc_string
  alloc_string-IsBalanced content = Keeps-if _ _ _ (Keeps-raise _) (
      Keeps-bind _ _ (reserve-IsBalanced _ _ _)
        (λ addr. Keeps-bind _ _ (Keeps-modify _ (λ vm h. h)) (λ u. Keeps-pure addr)))

  pub string_from_text-IsBalanced :
      (text : Text) → Keeps {W = W} IsBalanced (string_from_text setup text)
  unfolding string_from_text
  string_from_text-IsBalanced text = search (keeps_rules, alloc_string-IsBalanced)

  materialise_items-IsBalanced :
      (items : Strings) → Keeps {W = W} IsBalanced (materialise_items setup items)
  unfolding materialise_items alloc_literal
  materialise_items-IsBalanced [] = Keeps-pure tt
  materialise_items-IsBalanced ((sid, text) ∷ items) =
      Keeps-bind _ _ (Keeps-bind _ _ (Keeps-forbid _ _) (λ u. alloc_string-IsBalanced text))
        (λ addr.
          Keeps-bind _ _ (Keeps-modify _ (λ vm h. h)) (λ u. materialise_items-IsBalanced items))

  pub materialise_literals-IsBalanced : Keeps {W = W} IsBalanced (materialise_literals setup)
  unfolding materialise_literals
  materialise_literals-IsBalanced =
      Keeps-bind _ _ (Keeps-modify _ (λ vm h. h)) (λ u. materialise_items-IsBalanced setup.strings)

  materialise_from-IsBalanced :
      (id : ℕ) (layouts : List StructLayout)
      → Keeps {W = W} IsBalanced (materialise_from setup id layouts)
  unfolding materialise_from
  materialise_from-IsBalanced id [] = Keeps-pure tt
  materialise_from-IsBalanced id (layout ∷ layouts) =
      Keeps-bind _ _
        (Keeps-if _ _ _
          (Keeps-bind _ _ (alloc_struct-IsBalanced (pos id)) (λ addr. Keeps-modify _ (λ vm h. h)))
          (Keeps-pure tt))
        (λ u. materialise_from-IsBalanced (id + 1) layouts)

  pub materialise_variants-IsBalanced : Keeps {W = W} IsBalanced (materialise_variants setup)
  unfolding materialise_variants
  materialise_variants-IsBalanced =
      Keeps-bind _ _ (Keeps-modify _ (λ vm h. h)) (λ u. materialise_from-IsBalanced 0 setup.structs)
