-- ===== src/Serialize/Utf8.antt =====
-- Python's UTF-8 codec in strict mode, which `_Writer.text` and `_Reader.text` call: no surrogates,
-- no overlong forms, nothing past U+10FFFF.
use quin_lang.Prelude.{
  Bool, List, Result-cases, [], arith, err, if◌then◌else◌, inl, inr, leb, length, length-append,
  ltb, not, ok, refl, subst, suc, sym, zero, ℕ, ◌%◌, ◌&&◌, ◌*◌, ◌++◌, ◌+◌, ◌-◌, ◌/◌, ◌>>=◌, ◌∷◌,
  ◌≡◌, ◌≤◌,
}
use quin_lang.Serialize.Errors.{Res, not_utf8, unencodable}

unfoldable pub encode_char : ℕ → Res (List ℕ)
encode_char c =
    if ltb c 0x80
    then ok (c ∷ [])
    else if ltb c 0x800
    then ok ((0xc0 + c / 64) ∷ (0x80 + c % 64) ∷ [])
    else if leb 0xd800 c && ltb c 0xe000
    then err unencodable
    else if ltb c 0x1_0000
    then ok ((0xe0 + c / 4096) ∷ (0x80 + c / 64 % 64) ∷ (0x80 + c % 64) ∷ [])
    else if ltb c 0x11_0000
    then ok
        ((0xf0 + c / 262144) ∷ (0x80 + c / 4096 % 64) ∷ (0x80 + c / 64 % 64) ∷ (0x80 + c % 64) ∷ [])
    else err unencodable

-- str.encode("utf-8")
unfoldable pub encode : List ℕ → Res (List ℕ)
encode [] = ok []
encode (c ∷ cs) = do b ← encode_char c; bs ← encode cs; ok (b ++ bs)

is_continuation : ℕ → Bool
is_continuation b = leb 0x80 b && ltb b 0xc0

two_bytes : ℕ → List ℕ → Res (ℕ × List ℕ)
two_bytes b (c₁ ∷ r) =
    if is_continuation c₁ then ok ((b - 0xc0) * 64 + (c₁ - 0x80), r) else err not_utf8
two_bytes b r = err not_utf8

three_bytes : ℕ → List ℕ → Res (ℕ × List ℕ)
three_bytes b (c₁ ∷ c₂ ∷ r) =
    let c = (b - 0xe0) * 4096 + (c₁ - 0x80) * 64 + (c₂ - 0x80) in
    if is_continuation c₁ && is_continuation c₂ && leb 0x800 c && not (leb 0xd800 c && ltb c 0xe000)
    then ok (c, r)
    else err not_utf8
three_bytes b r = err not_utf8

four_bytes : ℕ → List ℕ → Res (ℕ × List ℕ)
four_bytes b (c₁ ∷ c₂ ∷ c₃ ∷ r) =
    let c = (b - 0xf0) * 262144 + (c₁ - 0x80) * 4096 + (c₂ - 0x80) * 64 + (c₃ - 0x80) in
    if is_continuation c₁
      && is_continuation c₂
      && is_continuation c₃
      && leb 0x1_0000 c
      && ltb c 0x11_0000
    then ok (c, r)
    else err not_utf8
four_bytes b r = err not_utf8

unfoldable pub decode_char : ℕ → List ℕ → Res (ℕ × List ℕ)
unfolding is_continuation two_bytes three_bytes four_bytes
decode_char b r =
    if ltb b 0x80
    then ok (b, r)
    else if ltb b 0xc2
    then err not_utf8
    else if ltb b 0xe0
    then two_bytes b r
    else if ltb b 0xf0
    then three_bytes b r
    else if ltb b 0xf5
    then four_bytes b r
    else err not_utf8

decode_loop : ℕ → List ℕ → Res (List ℕ)
decode_loop zero bs = elim bs [ [] ↦ ok [] | _ ↦ err not_utf8 ]
decode_loop (suc fuel) [] = ok []
decode_loop (suc fuel) (b ∷ r) = do
  (c, rest) ← decode_char b r
  cs ← decode_loop fuel rest
  ok (c ∷ cs)

-- bytes.decode("utf-8"); a character takes a byte at least, so the length is fuel enough.
unfoldable pub decode : List ℕ → Res (List ℕ)
unfolding decode_loop
decode bs = decode_loop (length bs) bs

encode_char-ne-nil : (c : ℕ) → encode_char c ≡ ok [] → ⊥
unfolding encode_char
encode_char-ne-nil c h = ground arith

-- The decoder reads back the first character and leaves what follows.
decode_char-encode_char :
    (c b : ℕ) (bs rest : List ℕ)
    → encode_char c ≡ ok (b ∷ bs)
    → decode_char b (bs ++ rest) ≡ ok (c, rest)
unfolding encode_char decode_char
decode_char-encode_char c b bs rest h = ground arith

decode_step :
    (c : ℕ) (bs rest : List ℕ) (fuel : ℕ) {cs : List ℕ}
    → encode_char c ≡ ok bs
    → length (bs ++ rest) ≤ fuel
    → ((f : ℕ) → length rest ≤ f → decode_loop f rest ≡ ok cs)
    → decode_loop fuel (bs ++ rest) ≡ ok (c ∷ cs)
unfolding decode_loop
decode_step c [] rest fuel e l k = absurd (encode_char-ne-nil c e)
decode_step c (b ∷ bs) rest zero e l k = absurd (omega arith)
decode_step c (b ∷ bs) rest (suc fuel) e l k =
    rw (decode_char-encode_char c b bs rest e, k fuel (omega (arith, length-append bs rest)))

decode_loop-encode :
    (cs bs : List ℕ) → encode cs ≡ ok bs → (f : ℕ) → length bs ≤ f → decode_loop f bs ≡ ok cs
unfolding encode decode_loop
decode_loop-encode [] [] e zero l = refl
decode_loop-encode [] [] e (suc f) l = refl
decode_loop-encode [] (b ∷ bs) e f l = cc
decode_loop-encode (c ∷ cs) bs e f l = elim (Result-cases (encode_char c)) [
  | inl (b, eb) ↦ elim (Result-cases (encode cs)) [
    | inl (r, er) ↦
        let e' : b ++ r ≡ bs = ground arith in
        subst (λ x. decode_loop f x ≡ ok (c ∷ cs)) e'
          (decode_step c b r f eb (subst (λ x. length x ≤ f) (sym e') l)
            (decode_loop-encode cs r er))
    | inr (x, ex) ↦ ground arith
  ]
  | inr (x, ex) ↦ ground arith
]

-- Decoding gives back any text that can be encoded: one whose characters are at most U+10FFFF and no
-- surrogates.
pub decode-encode : (cs bs : List ℕ) → encode cs ≡ ok bs → decode bs ≡ ok cs
unfolding decode
decode-encode cs bs e = decode_loop-encode cs bs e (length bs) (omega arith)
