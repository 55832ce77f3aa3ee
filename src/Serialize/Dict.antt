-- ===== src/Serialize/Dict.antt =====
-- The string table of compiler/serialize.py as a dict: `sorted(strings.items())`, and storing the
-- entries again one by one.
use quin_lang.Prelude.{
  Bool-cases, [], append-nil, append_assoc, arith, inl, inr, leb, refl, subst, sym, ℕ, ◌++◌, ◌∙◌,
  ◌∷◌, ◌≡◌, ◌⊎◌,
}
use quin_lang.Serialize.Write.{insert_item, sort_items}
use quin_lang.Serialize.Read.{dict_of, dict_set}
use quin_lang.Program.{Strings, Text}

-- the keys of a dict are all different
abbrev pub HasKey : ℕ → Strings → Type 0
HasKey k [] = ⊥
HasKey k ((j, s) ∷ d) = (j ≡ k) ⊎ HasKey k d

abbrev pub IsDict : Strings → Type 0
IsDict [] = Unit
IsDict ((k, s) ∷ d) = (HasKey k d → ⊥) × IsDict d

dict_set-new :
    (k : ℕ) (s : Text) (d : Strings) → (HasKey k d → ⊥) → dict_set k s d ≡ d ++ (k, s) ∷ []
unfolding dict_set
dict_set-new k s [] h = refl
dict_set-new k s ((j, t) ∷ d) h =
    ground (arith, λ (e : j ≡ k). h (inl e), dict_set-new k s d (λ m. h (inr m)))

HasKey-append : (k : ℕ) (s : Text) (d items : Strings) → HasKey k (d ++ (k, s) ∷ items)
HasKey-append k s [] items = inl refl
HasKey-append k s ((j, t) ∷ d) items = inr (HasKey-append k s d items)

fresh_in_front :
    (k : ℕ) (s : Text) (d items : Strings) → IsDict (d ++ (k, s) ∷ items) → HasKey k d → ⊥
fresh_in_front k s [] items h m = m
fresh_in_front k s ((j, t) ∷ d) items h (inl e) =
    h.0 (subst (λ x. HasKey x (d ++ (k, s) ∷ items)) (sym e) (HasKey-append k s d items))
fresh_in_front k s ((j, t) ∷ d) items h (inr m) = fresh_in_front k s d items h.1 m

-- Storing items with new keys one by one appends them.
pub dict_of-append : (d items : Strings) → IsDict (d ++ items) → dict_of d items ≡ d ++ items
unfolding dict_of
dict_of-append d [] h = sym (append-nil d)
dict_of-append d ((k, s) ∷ items) h = rw (dict_set-new k s d (fresh_in_front k s d items h)) (
    dict_of-append (d ++ (k, s) ∷ []) items
      (subst IsDict (sym (append_assoc d ((k, s) ∷ []) items)) h)
    ∙ append_assoc d ((k, s) ∷ []) items)

HasKey-insert_item :
    (k : ℕ) (i : ℕ × Text) (d : Strings) → HasKey k (insert_item i d) → HasKey k (i ∷ d)
unfolding insert_item
HasKey-insert_item k (j, t) [] h = h
HasKey-insert_item k (j, t) ((l, u) ∷ d) h = ground (arith, HasKey-insert_item k (j, t) d)

HasKey-sort_items : (k : ℕ) (d : Strings) → HasKey k (sort_items d) → HasKey k d
unfolding sort_items
HasKey-sort_items k [] h = h
HasKey-sort_items k ((j, t) ∷ d) h =
    ground (arith, HasKey-insert_item k (j, t) (sort_items d) h, HasKey-sort_items k d)

insert_item-IsDict :
    (k : ℕ) (s : Text) (d : Strings) → (HasKey k d → ⊥) → IsDict d → IsDict (insert_item (k, s) d)
unfolding insert_item
insert_item-IsDict k s [] h v = (h, tt)
insert_item-IsDict k s ((j, t) ∷ d) h v = elim (Bool-cases (leb k j)) [
  | inl e ↦ rw e (h, v)
  | inr e ↦ rw e (fresh, insert_item-IsDict k s d (λ m. h (inr m)) v.1)
]
  where
    fresh : HasKey j (insert_item (k, s) d) → ⊥
    fresh m = ground (
      arith,
      HasKey-insert_item j (k, s) d m,
      λ (e : j ≡ k). h (inl e),
      λ (x : HasKey j d). v.0 x,
    )

pub sort_items-IsDict : (d : Strings) → IsDict d → IsDict (sort_items d)
unfolding sort_items
sort_items-IsDict [] h = tt
sort_items-IsDict ((k, s) ∷ d) h =
    insert_item-IsDict k s (sort_items d) (λ m. h.0 (HasKey-sort_items k d m))
      (sort_items-IsDict d h.1)
