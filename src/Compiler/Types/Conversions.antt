-- ===== src/Compiler/Types/Conversions.antt =====
-- The conversions of compiler/compiler_types.py: `assignable` and `comparable`.
use quin_lang.Prelude.{
  Bool, Bool-cases, [], ap, arith, false, if◌then◌else◌, inl, inr, refl, same_name, subst, sym,
  true, ◌&&◌, ◌==◌, ◌||◌, ◌↔◌, ◌∙◌, ◌∷◌, ◌≡◌, ◌⊎◌,
}
use quin_lang.Program.{Text}
use quin_lang.Compiler.Types.{
  Class, QuinType, QuinTypes, array_obj_class, assignable, class_of, comparable, enum_class,
  eq_class, eq_type, eq_types, func_class, heap_ptr_type, is_array_obj_class, is_array_obj_type,
  is_enum_class, is_enum_type, is_nullable, is_struct_class, is_struct_type, more_types, no_types,
  null_type, plain_class, struct_class, typ,
}

pub both : (a b : Bool) → (a && b) ≡ true → (a ≡ true) × (b ≡ true)
both true true h = (refl, refl)
both true false h = absurd (ground arith)
both false b h = absurd (ground arith)

pub same_name→≡ : (a b : Text) → same_name a b ≡ true → a ≡ b
unfolding same_name
same_name→≡ [] [] h = refl
same_name→≡ [] (c ∷ b) h = absurd (ground arith)
same_name→≡ (c ∷ a) [] h = absurd (ground arith)
same_name→≡ (c ∷ a) (d ∷ b) h =
    let (e, t) = both (c == d) (same_name a b) h in
    let first : c ≡ d = ground arith in let rest = same_name→≡ a b t in cc

pub same_name_refl : (a : Text) → same_name a a ≡ true
unfolding same_name
same_name_refl [] = refl
same_name_refl (c ∷ a) = ground (arith, same_name_refl a)

mutual
  unfolding eq_type

  eq_type→≡ : (t u : QuinType) → eq_type t u ≡ true → t ≡ u
  eq_type→≡ (typ n s c) (typ m t d) h =
      let (a, rest) = both (same_name n m) (s == t && eq_class c d) h in
      let (b, e) = both (s == t) (eq_class c d) rest in
      let names = same_name→≡ n m a in
      let sizes : s ≡ t = ground arith in let classes = eq_class→≡ c d e in cc

  eq_class→≡ : (c d : Class) → eq_class c d ≡ true → c ≡ d
  eq_class→≡ plain_class plain_class h = refl
  eq_class→≡ plain_class struct_class h = absurd (ground arith)
  eq_class→≡ plain_class enum_class h = absurd (ground arith)
  eq_class→≡ plain_class (func_class qs q) h = absurd (ground arith)
  eq_class→≡ plain_class (array_obj_class f) h = absurd (ground arith)
  eq_class→≡ struct_class plain_class h = absurd (ground arith)
  eq_class→≡ struct_class struct_class h = refl
  eq_class→≡ struct_class enum_class h = absurd (ground arith)
  eq_class→≡ struct_class (func_class qs q) h = absurd (ground arith)
  eq_class→≡ struct_class (array_obj_class f) h = absurd (ground arith)
  eq_class→≡ enum_class plain_class h = absurd (ground arith)
  eq_class→≡ enum_class struct_class h = absurd (ground arith)
  eq_class→≡ enum_class enum_class h = refl
  eq_class→≡ enum_class (func_class qs q) h = absurd (ground arith)
  eq_class→≡ enum_class (array_obj_class f) h = absurd (ground arith)
  eq_class→≡ (func_class ps r) plain_class h = absurd (ground arith)
  eq_class→≡ (func_class ps r) struct_class h = absurd (ground arith)
  eq_class→≡ (func_class ps r) enum_class h = absurd (ground arith)
  eq_class→≡ (func_class ps r) (func_class qs q) h =
      let (s, t) = both _ _ h in let params = eq_types→≡ ps qs s in let ret = eq_type→≡ r q t in cc
  eq_class→≡ (func_class ps r) (array_obj_class f) h = absurd (ground arith)
  eq_class→≡ (array_obj_class e) plain_class h = absurd (ground arith)
  eq_class→≡ (array_obj_class e) struct_class h = absurd (ground arith)
  eq_class→≡ (array_obj_class e) enum_class h = absurd (ground arith)
  eq_class→≡ (array_obj_class e) (func_class qs q) h = absurd (ground arith)
  eq_class→≡ (array_obj_class e) (array_obj_class f) h = ap array_obj_class (eq_type→≡ e f h)

  eq_types→≡ : (ts us : QuinTypes) → eq_types ts us ≡ true → ts ≡ us
  eq_types→≡ no_types no_types h = refl
  eq_types→≡ no_types (more_types u us) h = absurd (ground arith)
  eq_types→≡ (more_types t ts) no_types h = absurd (ground arith)
  eq_types→≡ (more_types t ts) (more_types u us) h =
      let (a, b) = both _ _ h in let first = eq_type→≡ t u a in let rest = eq_types→≡ ts us b in cc

mutual
  unfolding eq_type

  eq_type_refl : (t : QuinType) → eq_type t t ≡ true
  eq_type_refl (typ n s c) = rw (same_name_refl n, eq_class_refl c) (ground arith)

  eq_class_refl : (c : Class) → eq_class c c ≡ true
  eq_class_refl plain_class = refl
  eq_class_refl struct_class = refl
  eq_class_refl enum_class = refl
  eq_class_refl (func_class ps r) = rw (eq_types_refl ps, eq_type_refl r) refl
  eq_class_refl (array_obj_class e) = eq_type_refl e

  eq_types_refl : (ts : QuinTypes) → eq_types ts ts ≡ true
  eq_types_refl no_types = refl
  eq_types_refl (more_types t ts) = rw (eq_type_refl t, eq_types_refl ts) refl

eq_type_back : (t u : QuinType) → eq_type t u ≡ true → eq_type u t ≡ true
eq_type_back t u h = subst (λ v. eq_type v t ≡ true) (eq_type→≡ t u h) (eq_type_refl t)

eq_type_sym : (t u : QuinType) → eq_type t u ≡ eq_type u t
eq_type_sym t u = elim (Bool-cases (eq_type t u)) [
  | inl a ↦ a ∙ sym (eq_type_back t u a)
  | inr a ↦ elim (Bool-cases (eq_type u t)) [
    | inl b ↦ eq_type_back u t b ∙ sym b
    | inr b ↦ a ∙ sym b
  ]
]

either_way :
    (a p q : Bool)
    → (if a then true else (p || q)) ≡ ((if a then true else q) || (if a then true else p))
either_way true p q = refl
either_way false true true = refl
either_way false true false = refl
either_way false false true = refl
either_way false false false = refl

allowed :
    (a p n : Bool) → (if a then true else (p && n)) ≡ true → (a ≡ true) ⊎ ((p ≡ true) × (n ≡ true))
allowed true p n h = inl refl
allowed false p n h = inr (both p n h)

-- the types that null stands in for
nullable_class :
    (t : QuinType)
    → is_nullable t ≡ true
    → (class_of t ≡ struct_class)
      ⊎ ((class_of t ≡ enum_class)
          ⊎ (((e : QuinType) × (class_of t ≡ array_obj_class e)) ⊎ (t ≡ heap_ptr_type)))
unfolding is_nullable is_struct_type is_struct_class is_enum_type is_enum_class is_array_obj_type
    is_array_obj_class class_of
nullable_class (typ n s plain_class) h =
    inr (inr (inr (eq_type→≡ (typ n s plain_class) heap_ptr_type h)))
nullable_class (typ n s struct_class) h = inl refl
nullable_class (typ n s enum_class) h = inr (inl refl)
nullable_class (typ n s (func_class ps r)) h =
    inr (inr (inr (eq_type→≡ (typ n s (func_class ps r)) heap_ptr_type h)))
nullable_class (typ n s (array_obj_class e)) h = inr (inr (inl (e, refl)))

nullable_of :
    (t : QuinType)
    → (class_of t ≡ struct_class)
      ⊎ ((class_of t ≡ enum_class)
          ⊎ (((e : QuinType) × (class_of t ≡ array_obj_class e)) ⊎ (t ≡ heap_ptr_type)))
    → is_nullable t ≡ true
unfolding is_nullable is_struct_type is_struct_class is_enum_type is_enum_class is_array_obj_type
    is_array_obj_class class_of
nullable_of t (inl e) = rw e refl
nullable_of t (inr (inl e)) = rw e refl
nullable_of t (inr (inr (inl (e, q)))) = rw q refl
nullable_of t (inr (inr (inr e))) =
    subst (λ v. is_nullable v ≡ true) (sym e) (eq_type_refl heap_ptr_type)

-- A value may be assigned exactly to its own type, and null besides to a type of the class of structs,
-- of enums or of array objects and to `heapptr`: there is no other conversion.
pub assignable_iff :
    (target value : QuinType)
    → (assignable target value ≡ true) ↔ (
        (target ≡ value)
        ⊎ ((value ≡ null_type)
            × ((class_of target ≡ struct_class)
                ⊎ ((class_of target ≡ enum_class)
                    ⊎ (((e : QuinType) × (class_of target ≡ array_obj_class e))
                        ⊎ (target ≡ heap_ptr_type))))))
unfolding assignable
assignable_iff target value = (
  (λ h. elim (allowed (eq_type target value) (eq_type value null_type) (is_nullable target) h) [
    | inl e ↦ inl (eq_type→≡ target value e)
    | inr (e, n) ↦ inr (eq_type→≡ value null_type e, nullable_class target n)
  ]),
  (λ (s : (target ≡ value)
        ⊎ ((value ≡ null_type)
            × ((class_of target ≡ struct_class)
                ⊎ ((class_of target ≡ enum_class)
                    ⊎ (((e : QuinType) × (class_of target ≡ array_obj_class e))
                        ⊎ (target ≡ heap_ptr_type)))))).
      elim s [
        | inl e ↦ rw (subst (λ v. eq_type target v ≡ true) e (eq_type_refl target)) refl
        | inr (e, n) ↦
            rw
              (
                subst (λ v. eq_type v null_type ≡ true) (sym e) (eq_type_refl null_type),
                nullable_of target n,
              )
              (elim (Bool-cases (eq_type target value)) [ inl q ↦ rw q refl | inr q ↦ rw q refl ])
      ]),
)

-- Two types may be compared exactly when one of them may be assigned to the other.
pub comparable-assignable :
    (left right : QuinType)
    → comparable left right ≡ (assignable left right || assignable right left)
unfolding comparable assignable
comparable-assignable left right = rw (eq_type_sym right left) (either_way (eq_type left right) _ _)
