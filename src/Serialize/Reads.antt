-- ===== src/Serialize/Reads.antt =====
-- When a reader reads back what a writer wrote, whatever bytes follow, with one rule for each way in
-- which the two halves are built.
use quin_lang.Prelude.{
  Bool, List, Result-cases, [], ap, append_assoc, arith, drop, err, false, if◌then◌else◌, inl, inr,
  length, length-append, ltb, ok, refl, subst, take, true, ℕ, ◌%◌, ◌++◌, ◌/◌, ◌∷◌, ◌≡◌,
}
use quin_lang.Serialize.Errors.{Res, SerialError, pack_range}
use quin_lang.Serialize.Utf8.{decode-encode, encode}
use quin_lang.Serialize.Write.{
  Bytes, write_bool, write_each, write_list, write_text, write_u16, write_u32, write_u8, ◌▷◌,
}
use quin_lang.Serialize.Read.{
  Reader, decode_text, pure, read_bool, read_list, read_text, read_times, read_u16, read_u32,
  read_u8, take_bytes, ◌>>=◌,
}
use quin_lang.Program.{Text}

pub record Reads {A : Type 0} (r : Reader A) (w : Res Bytes) (a : A) : Type 0 where
  pub after : (bs rest : Bytes) → w ≡ ok bs → r (bs ++ rest) ≡ ok (a, rest)

module _ {A : Type 0} where
  pub Reads-pure : (a : A) → Reads (pure a) (ok []) a
  unfolding pure
  Reads-pure a = record { after = λ bs rest h. ground arith }

module _ {A B : Type 0} {r : Reader A} (k : A → Reader B) {w w' : Res Bytes} {a : A} {b : B} where
  pub Reads-bind : Reads r w a → Reads (k a) w' b → Reads (r >>= k) (w ▷ w') b
  unfolding ◌>>=◌ ◌▷◌
  Reads-bind p q = record {
    after = λ bs rest h. elim (Result-cases w) [
      | inl (x, ex) ↦ elim (Result-cases w') [
        | inl (y, ey) ↦
            let e : x ++ y ≡ bs = ground arith in
            subst (λ z. (r >>= k) (z ++ rest) ≡ ok (b, rest)) e
              (rw (append_assoc, ◌>>=◌, p.after x (y ++ rest) ex) (q.after y rest ey))
        | inr (y, ey) ↦ ground arith
      ]
      | inr (x, ex) ↦ ground arith
    ];
  }

module _ {A B : Type 0} {r : Reader A} (k : A → Reader B) {w : Res Bytes} {a : A} {b : B} where
  pub Reads-last : Reads r w a → Reads (k a) (ok []) b → Reads (r >>= k) w b
  unfolding ◌>>=◌
  Reads-last p q = record {
    after = λ bs rest h. rw (p.after bs rest h, ◌>>=◌) (q.after [] rest refl);
  }

module _ {A B : Type 0} {r : Reader A} (k : A → Reader B) {w : Res Bytes} {a : A} {b : B} where
  pub Reads-skip : Reads r (ok []) a → Reads (k a) w b → Reads (r >>= k) w b
  unfolding ◌>>=◌
  Reads-skip p q = record {
    after = λ bs rest h. rw (p.after [] (bs ++ rest) refl, ◌>>=◌) (q.after bs rest h);
  }

module _ {A : Type 0} {r : Reader A} {a : A} where
  Reads-written :
      (bs : Bytes) → ((rest : Bytes) → r (bs ++ rest) ≡ ok (a, rest)) → Reads r (ok bs) a
  Reads-written bs h = record {
    after = λ x rest e. subst (λ z. r (z ++ rest) ≡ ok (a, rest)) (ground arith) (h rest);
  }

  pub Reads-err : (e : SerialError) → Reads r (err e) a
  Reads-err e = record { after = λ x rest h. ground arith }

  pub Reads-if :
      (b : Bool) {w w' : Res Bytes}
      → (b ≡ true → Reads r w a)
      → (b ≡ false → Reads r w' a)
      → Reads r (if b then w else w') a
  Reads-if true p q = p refl
  Reads-if false p q = q refl

take-append : (bs rest : Bytes) → take (length bs) (bs ++ rest) ≡ bs
take-append [] rest = refl
take-append (b ∷ bs) rest = ap (λ x. b ∷ x) (take-append bs rest)

drop-append : (bs rest : Bytes) → drop (length bs) (bs ++ rest) ≡ rest
drop-append [] rest = refl
drop-append (b ∷ bs) rest = drop-append bs rest

take_exact : (bs rest : Bytes) → take_bytes (length bs) (bs ++ rest) ≡ ok (bs, rest)
unfolding take_bytes
take_exact bs rest = ground (arith, length-append bs rest, take-append bs rest, drop-append bs rest)

pub Reads-take : (bs : Bytes) → Reads (take_bytes (length bs)) (ok bs) bs
Reads-take bs = Reads-written bs (take_exact bs)

pub Reads-u8 : (v : ℕ) → Reads read_u8 (write_u8 v) v
unfolding read_u8 write_u8
Reads-u8 v =
    Reads-if (ltb v 256)
      (λ h.
        Reads-last _ (Reads-take (v ∷ []))
          (subst (λ n. Reads (pure n) (ok []) v) (omega arith) (Reads-pure v)))
      (λ h. Reads-err pack_range)

pub Reads-u16 : (v : ℕ) → Reads read_u16 (write_u16 v) v
unfolding read_u16 write_u16
Reads-u16 v =
    Reads-if (ltb v 65536)
      (λ h.
        Reads-last _ (Reads-take ((v % 256) ∷ (v / 256) ∷ []))
          (subst (λ n. Reads (pure n) (ok []) v) (omega arith) (Reads-pure v)))
      (λ h. Reads-err pack_range)

pub Reads-u32 : (v : ℕ) → Reads read_u32 (write_u32 v) v
unfolding read_u32 write_u32
Reads-u32 v =
    Reads-if (ltb v 0x1_0000_0000)
      (λ h.
        Reads-last _
          (Reads-take ((v % 256) ∷ (v / 256 % 256) ∷ (v / 65536 % 256) ∷ (v / 0x100_0000) ∷ []))
          (subst (λ n. Reads (pure n) (ok []) v) (omega arith) (Reads-pure v)))
      (λ h. Reads-err pack_range)

Reads-chunk : (s : Text) (chunk : Bytes) → encode s ≡ ok chunk → Reads (decode_text chunk) (ok []) s
unfolding decode_text
Reads-chunk s chunk e = Reads-written [] (λ rest. rw (decode-encode s chunk e, decode_text))

pub Reads-text : (s : Text) → Reads read_text (write_text s) s
unfolding read_text write_text
Reads-text s = elim (Result-cases (encode s)) [
  | inl (chunk, e) ↦ rw e (
      Reads-bind _ (Reads-u32 (length chunk))
        (Reads-last _ (Reads-take chunk) (Reads-chunk s chunk e)))
  | inr (x, e) ↦ rw e (Reads-err x)
]

pub Reads-bool : (b : Bool) → Reads read_bool (write_bool b) b
unfolding read_bool write_bool
Reads-bool true = Reads-last _ (Reads-u8 1) (Reads-pure true)
Reads-bool false = Reads-last _ (Reads-u8 0) (Reads-pure false)

module _ {A : Type 0} (r : Reader A) (w : A → Res Bytes) (each : (a : A) → Reads r (w a) a) where
  Reads-times : (xs : List A) → Reads (read_times (length xs) r) (write_each w xs) xs
  unfolding read_times write_each
  Reads-times [] = Reads-pure []
  Reads-times (x ∷ xs) = Reads-bind _ (each x) (Reads-last _ (Reads-times xs) (Reads-pure (x ∷ xs)))

  pub Reads-list : (xs : List A) → Reads (read_list r) (write_list w xs) xs
  unfolding read_list
  Reads-list xs = Reads-bind _ (Reads-u32 (length xs)) (Reads-times xs)
