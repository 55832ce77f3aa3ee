-- ===== src/Compiler/Lexer/Literals.antt =====
-- What the scanning of numbers and strings in compiler/lexer.py reads and makes.
use quin_lang.Compiler.Lexer.Strings.{
  after_escape, close_string, escape_of, plain_char, read_char, scan_string, string_loop,
}
use quin_lang.Prelude.{
  Bool, Option, Result, [], arith, err, false, if◌then◌else◌, length, ltb, none, not, ok, pos, refl,
  some, true, ℕ, ℤ, ◌++◌, ◌-ℤ◌, ◌==◌, ◌>>=◌, ◌||◌, ◌∷◌, ◌≡◌, ◌≢◌,
}
use quin_lang.Program.{Text}
use quin_lang.Vm.Floats.{FloatOps}
use quin_lang.Compiler.Tokens.{chars, float_number, int_value, number, string}
use quin_lang.Compiler.Lexer.{
  LexError, Lexer, add_token, advance, advance_while, cut_off, float_range, lexeme_of, no_fraction,
  no_hex_digits, peek_in, peek_next_in, start_col, unknown_escape, unterminated_string, value_error,
}
use quin_lang.Compiler.Lexer.Chars.{
  UnicodeTables, int_of, is_digit, is_float_text, is_hex_digit, is_word,
}
use quin_lang.Compiler.Lexer.Numbers.{
  add_float, add_int, check_float_range, check_range, check_trailing, is_too_large, scan_decimal,
  scan_fraction, scan_hex, scan_number,
}
use quin_lang.Compiler.Lexer.Moves.{
  AllPass, AllPass-append, Moved, Moved-still, Moved-twice, advance_over-Moved, advance-Moved,
  advance_while-Moved, read_char-Moved,
}
use quin_lang.Compiler.Lexer.Spelling.{Scans, Scans-if, add_token-Scanned, is_byte}

module _ {F : Type 0} (floats : FloatOps F) (u : UnicodeTables) (c : ℕ) (s : Lexer F)
    (begun : lexeme_of s ≡ c ∷ []) where
  -- what stands behind a check that raises
  checked :
      (b : Bool) (e : LexError) (r : Result LexError (Lexer F))
      → e ≢ cut_off
      → (b ≡ false → Scans c s r)
      → Scans c s (do x ← (if b then err e else ok tt); r)
  checked true e r h k = h
  checked false e r h k = k refl

  add_int-Scanned :
      (base : ℕ) (digits w : Text) (s' : Lexer F)
      → Moved w s s'
      → Scans c s (add_int floats u base digits s')
  unfolding add_int check_range
  add_int-Scanned base digits w s' m = found (int_of u base digits)
    where
      found :
          (o : Option ℕ)
          → Scans c s (elim o [
            | none ↦ err value_error
            | some n ↦ (do fits ← check_range floats u n s'; ok (add_token number (int_value n) s'))
          ])
      found none = λ q. cc
      found (some n) =
          checked (ltb 0xffff n) _ _ (λ q. cc)
            (λ q. add_token-Scanned c s begun w s' number (int_value n) m (ground arith))

  add_float-Scanned : (w : Text) (s' : Lexer F) → Moved w s s' → Scans c s (add_float floats u s')
  unfolding add_float check_float_range
  add_float-Scanned w s' m =
      Scans-if c s begun (not (is_float_text u (lexeme_of s'))) _ _ (λ q. cc)
        (checked
          (not (floats.is_finite (floats.parse (lexeme_of s')))
            || is_too_large floats u (floats.parse (lexeme_of s')))
          (float_range (lexeme_of s') s'.line (start_col s')) _ (λ q. cc)
          (λ q. add_token-Scanned c s begun w s' float_number _ m tt))

  trailing-Scanned :
      (s' : Lexer F) (r : Result LexError (Lexer F))
      → Scans c s r
      → Scans c s (do alone ← check_trailing floats u s'; r)
  unfolding check_trailing
  trailing-Scanned s' r h = checked (is_word u (peek_in s'.rest)) _ r (λ q. cc) (λ q. h)

  -- a loop behind one character more
  loop_behind :
      (p : ℕ → Bool) (v : Text) (s' : Lexer F)
      → Moved v s s'
      → (w : Text) × Moved w s (advance_while p (advance s'))
  loop_behind p v s' m =
      let (d, n) = advance-Moved s' in
      let (w, k, a) = advance_while-Moved p (advance s') in
      (_, Moved-twice _ w s (advance s') _ (Moved-twice v d s s' (advance s') m n) k)

  scan_hex-Scanned : Scans c s (scan_hex floats u s)
  unfolding scan_hex
  scan_hex-Scanned =
      let (w, m) = loop_behind (is_hex_digit u) [] s (Moved-still s) in
      Scans-if c s begun
        (length (advance_while (is_hex_digit u) (advance s)).taken == length (advance s).taken)
        (err (
          no_hex_digits (advance_while (is_hex_digit u) (advance s)).line
            (start_col (advance_while (is_hex_digit u) (advance s)))))
        _ (λ q. cc) (trailing-Scanned _ _ (add_int-Scanned 16 _ w _ m))

  scan_decimal-Scanned :
      (w : Text) (s' : Lexer F) → Moved w s s' → Scans c s (scan_decimal floats u s')
  unfolding scan_decimal scan_fraction
  scan_decimal-Scanned w s' m =
      let (v, n) = loop_behind (is_digit u) w s' m in
      Scans-if c s begun (peek_in s'.rest == b'.') _ _
        (Scans-if c s begun (not (is_digit u (peek_next_in s'.rest)))
          (err (no_fraction s'.line (pos s'.col))) _ (λ q. cc)
          (trailing-Scanned _ _ (add_float-Scanned v _ n)))
        (trailing-Scanned s' _ (add_int-Scanned 10 _ w s' m))

  pub scan_number-Scanned : Scans c s (scan_number floats u c s)
  unfolding scan_number
  scan_number-Scanned =
      let (w, m, a) = advance_while-Moved (is_digit u) s in
      Scans-if c s begun _ _ _ scan_hex-Scanned (scan_decimal-Scanned w _ m)

escape_of_byte : (c v : ℕ) → escape_of c ≡ some v → is_byte v ≡ true
unfolding escape_of
escape_of_byte c v h = ground arith

-- The outcome of the loop of `_string`: it has read on, and has bytes only; or an error that is not
-- the model's own.
abbrev Strung : {F : Type 0} → Lexer F → Result LexError (Text × Lexer F) → Type 0
Strung s (ok (v, s')) = (w : Text) × Moved w s s' × AllPass is_byte v
Strung s (err e) = e ≢ cut_off

module _ {F : Type 0} where
  Strung-if :
      (s : Lexer F) (b : Bool) (x y : Result LexError (Text × Lexer F))
      → Strung s x
      → (b ≡ false → Strung s y)
      → Strung s (if b then x else y)
  Strung-if s true x y h k = h
  Strung-if s false x y h k = k refl

  -- a move first
  Strung-after :
      (v : Text) (s t : Lexer F) (r : Result LexError (Text × Lexer F))
      → Moved v s t
      → Strung t r
      → Strung s r
  Strung-after v s t (ok (x, r)) m (w, n, b) = (v ++ w, Moved-twice v w s t r m n, b)
  Strung-after v s t (err e) m h = h

  Strung-escape :
      (s : Lexer F) (go : ℕ → Result LexError (Text × Lexer F)) (e : ℕ) (t : Lexer F)
      → ((v : ℕ) → is_byte v ≡ true → Strung s (go v))
      → Strung s (after_escape go e t)
  unfolding after_escape
  Strung-escape s go e t h = found (escape_of e) refl
    where
      found :
          (o : Option ℕ)
          → escape_of e ≡ o
          → Strung s
              (elim o [ none ↦ err (unknown_escape e t.line (pos t.col -ℤ pos 2)) | some v ↦ go v ])
      found none q = λ n. cc
      found (some v) q = h v (escape_of_byte e v q)

  Strung-plain :
      (s : Lexer F) (go : Result LexError (Text × Lexer F)) (c : ℕ) (t : Lexer F)
      → (is_byte c ≡ true → Strung s go)
      → Strung s (plain_char go c t)
  unfolding plain_char
  Strung-plain s go c t h = Strung-if s (ltb 0xff c) _ go (λ q. cc) (λ q. h (ground arith))

  string_loop-Strung :
      (cs value : Text) (s : Lexer F)
      → s.rest ≡ cs
      → AllPass is_byte value
      → Strung s (string_loop cs value s)
  unfolding string_loop
  string_loop-Strung [] value s e b = ([], Moved-still s, b)
  string_loop-Strung (c ∷ []) value s e b =
      let (m, r) = read_char-Moved c [] s e in
      Strung-if s (c == 34) _ _ ([], Moved-still s, b)
        (λ q.
          Strung-if s (c == 92) _ _ (c ∷ [], (advance_over-Moved c [] s e).0, b)
            (λ q'.
              Strung-plain s _ c (read_char c s)
                (λ k. (c ∷ [], m, AllPass-append is_byte value (c ∷ []) b (k, tt)))))
  string_loop-Strung (c ∷ e ∷ cs) value s h b =
      let (m, r) = read_char-Moved c (e ∷ cs) s h in
      let (n, r') = read_char-Moved e cs (read_char c s) r in
      let both = Moved-twice (c ∷ []) (e ∷ []) s (read_char c s) _ m n in
      Strung-if s (c == 34) _ _ ([], Moved-still s, b)
        (λ q.
          Strung-if s (c == 92) _ _
            (Strung-escape s _ e (read_char e (read_char c s)) (λ v k.
              Strung-after (c ∷ e ∷ []) s (read_char e (read_char c s)) _ both (
                string_loop-Strung cs (value ++ v ∷ []) (read_char e (read_char c s)) r'
                  (AllPass-append is_byte value (v ∷ []) b (k, tt)))))
            (λ q'. Strung-plain s _ c (read_char c s) (λ k.
              Strung-after (c ∷ []) s (read_char c s) _ m (
                string_loop-Strung (e ∷ cs) (value ++ c ∷ []) (read_char c s) r
                  (AllPass-append is_byte value (c ∷ []) b (k, tt))))))

module _ {F : Type 0} (c : ℕ) (s : Lexer F) (begun : lexeme_of s ≡ c ∷ []) where
  close-Scanned :
      (line : ℕ) (col : ℤ) (r : Result LexError (Text × Lexer F))
      → Strung s r
      → Scans c s (do found ← r; close_string line col found)
  unfolding close_string
  close-Scanned line col (err e) h = h
  close-Scanned line col (ok (v, s')) (w, m, b) = closed s'.rest
    where
      closed :
          (r : Text)
          → Scans c s (elim r [
            | [] ↦ err (unterminated_string line col)
            | d ∷ ds ↦ ok (add_token string (chars v) (advance s'))
          ])
      closed [] = λ q. cc
      closed (d ∷ ds) =
          let (x, n) = advance-Moved s' in
          add_token-Scanned c s begun (w ++ x) (advance s') string (chars v)
            (Moved-twice w x s s' (advance s') m n) b

  pub scan_string-Scanned : Scans c s (scan_string s)
  unfolding scan_string
  scan_string-Scanned = close-Scanned _ _ _ (string_loop-Strung s.rest [] s refl tt)
