-- ===== src/Dap/Protocol/Searching.antt =====
-- The search for the header terminator, and the parts of a header, in dap/protocol.py.
use mathlib.Core.List.{reverse-append, reverse-reverse}
use quin_lang.Prelude.{
  IsDigits, [], ap, arith, drop, drop_spaces, false, int_of_bytes, is_space, length, none, ok,
  parse_digits, parse_digits-str_ℕ, pos, refl, reverse, some, str_ℕ, str_ℕ-IsDigits, strip, subst,
  suc, sym, take, zero, ℕ, ◌++◌, ◌+◌, ◌==◌, ◌∙◌, ◌∷◌, ◌≡◌,
}
use quin_lang.Dap.Protocol.{
  Bytes, content_length, eq_bytes, goes_on, index_in, is_length_name, length_header, length_in,
  length_in_line, length_of_int, length_of_value, lower, partition_colon, push_byte, split_lines,
}

-- no byte is a carriage return
abbrev pub NoReturn : Bytes → Type 0
NoReturn [] = Unit
NoReturn (b ∷ bs) = (b == 13 ≡ false) × NoReturn bs

pub NoReturn-append : (v w : Bytes) → NoReturn v → NoReturn w → NoReturn (v ++ w)
NoReturn-append [] w h k = k
NoReturn-append (b ∷ v) w (a, h) k = (a, NoReturn-append v w h k)

module _ (t : Bytes) where
  pub index_in-none : (b : Bytes) → NoReturn b → index_in t ≡ none → index_in (b ++ t) ≡ none
  unfolding index_in goes_on
  index_in-none [] n h = h
  index_in-none (c ∷ b) (a, n) h = rw (a, index_in-none b n h) refl

  pub index_in-some :
      (i : ℕ) (b : Bytes)
      → NoReturn b
      → index_in t ≡ some i
      → index_in (b ++ t) ≡ some (length b + i)
  unfolding index_in goes_on
  index_in-some i [] n h = h ∙ ap some (omega arith)
  index_in-some i (c ∷ b) (a, n) h = rw (a, index_in-some i b n h) (ap some (omega arith))

  pub take-length : (b : Bytes) (n : ℕ) → n ≡ length b → take n (b ++ t) ≡ b
  take-length [] zero h = refl
  take-length [] (suc n) h = absurd (omega arith)
  take-length (c ∷ b) zero h = absurd (omega arith)
  take-length (c ∷ b) (suc n) h = ap (λ x. c ∷ x) (take-length b n (omega arith))

  pub drop-length : (b : Bytes) (n : ℕ) → n ≡ length b → drop n (b ++ t) ≡ t
  drop-length [] zero h = refl
  drop-length [] (suc n) h = absurd (omega arith)
  drop-length (c ∷ b) zero h = absurd (omega arith)
  drop-length (c ∷ b) (suc n) h = drop-length b n (omega arith)

-- a header of one line
pub split_lines-NoReturn : (b : Bytes) → NoReturn b → split_lines b ≡ b ∷ []
unfolding split_lines push_byte
split_lines-NoReturn [] h = refl
split_lines-NoReturn (c ∷ []) h = refl
split_lines-NoReturn (c ∷ d ∷ b) (a, h) = rw (a, split_lines-NoReturn (d ∷ b) h) refl

IsDigits-NoReturn : (d : Bytes) → IsDigits d → NoReturn d
IsDigits-NoReturn [] h = tt
IsDigits-NoReturn (c ∷ d) (a, b, h) = (ground arith, IsDigits-NoReturn d h)

drop_spaces-IsDigits : (d : Bytes) → IsDigits d → drop_spaces d ≡ d
unfolding drop_spaces is_space
drop_spaces-IsDigits [] h = refl
drop_spaces-IsDigits (c ∷ d) (a, b, h) = ground arith

IsDigits-join : (v w : Bytes) → IsDigits v → IsDigits w → IsDigits (v ++ w)
IsDigits-join [] w h k = k
IsDigits-join (c ∷ v) w (a, b, h) k = (a, b, IsDigits-join v w h k)

reverse-IsDigits : (d : Bytes) → IsDigits d → IsDigits (reverse d)
reverse-IsDigits [] h = tt
reverse-IsDigits (c ∷ d) (a, b, h) =
    subst IsDigits (sym (reverse-append (c ∷ []) d))
      (IsDigits-join (reverse d) (c ∷ []) (reverse-IsDigits d h) (a, b, tt))

first_blank : (d : Bytes) → drop_spaces (32 ∷ d) ≡ drop_spaces d
unfolding drop_spaces is_space
first_blank d = refl

-- a blank in front of digits
strip-IsDigits : (d : Bytes) → IsDigits d → strip (32 ∷ d) ≡ d
unfolding strip
strip-IsDigits d h =
    ap (λ x. reverse (drop_spaces (reverse x))) (first_blank d ∙ drop_spaces-IsDigits d h)
    ∙ ap reverse (drop_spaces-IsDigits (reverse d) (reverse-IsDigits d h))
    ∙ reverse-reverse d

int_of_bytes-IsDigits :
    (n : ℕ) (d : Bytes)
    → IsDigits d
    → parse_digits false 0 d ≡ some n
    → int_of_bytes d ≡ some (pos n)
unfolding int_of_bytes parse_digits
int_of_bytes-IsDigits n [] h e = cc
int_of_bytes-IsDigits n (c ∷ d) (a, b, h) e = ground arith

pub header-NoReturn : (n : ℕ) → NoReturn (length_header n)
unfolding length_header
header-NoReturn n = (
  refl,
  (
    refl,
    (
      refl,
      (
        refl,
        (
          refl,
          (
            refl,
            (
              refl,
              (
                refl,
                (
                  refl,
                  (
                    refl,
                    (
                      refl,
                      (
                        refl,
                        (
                          refl,
                          (refl, (refl, (refl, IsDigits-NoReturn (str_ℕ n) (str_ℕ-IsDigits n)))),
                        ),
                      ),
                    ),
                  ),
                ),
              ),
            ),
          ),
        ),
      ),
    ),
  ),
)

length_of_value-str_ℕ : (n : ℕ) → length_of_value (32 ∷ str_ℕ n) ≡ ok n
unfolding length_of_value
length_of_value-str_ℕ n = ap (length_of_int (32 ∷ str_ℕ n)) (
    ap int_of_bytes (strip-IsDigits (str_ℕ n) (str_ℕ-IsDigits n))
    ∙ int_of_bytes-IsDigits n (str_ℕ n) (str_ℕ-IsDigits n) (parse_digits-str_ℕ n))

-- The length that `write` puts into a header is the one that `read` finds there.
pub content_length-length_header : (n : ℕ) → content_length (length_header n) ≡ ok n
unfolding content_length length_in length_in_line partition_colon length_header is_length_name
    eq_bytes lower strip drop_spaces is_space
content_length-length_header n =
    ap length_in (split_lines-NoReturn (length_header n) (header-NoReturn n))
    ∙ length_of_value-str_ℕ n
