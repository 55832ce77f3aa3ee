-- ===== src/Compiler/Tokens.antt =====
-- compiler/tokens.py: the types of token, the keywords and the token itself. The types that are named
-- by a keyword of the source have the prefix kw here, as some of them are keywords here too.
use quin_lang.Prelude.{List, [], if◌then◌else◌, same_name, ℕ, ℤ, ◌∷◌}
use quin_lang.Program.{Text}

pub data TokenType : Type 0 where
  left_paren right_paren left_brace right_brace left_bracket right_bracket : TokenType
  comma dot minus plus semicolon slash star colon equal amp at : TokenType
  bang tilde bang_equal equal_equal greater greater_equal less less_equal : TokenType
  and_and or_or percent caret pipe shl shr fat_arrow colon_colon : TokenType
  identifier string number float_number : TokenType
  kw_fn kw_let kw_return kw_if kw_else kw_while kw_for kw_break kw_continue kw_true kw_false kw_null
        kw_int kw_str kw_float kw_void kw_print kw_println kw_ptr kw_heapptr kw_vm_asm kw_include
        kw_struct kw_enum kw_match :
      TokenType
  eof : TokenType

-- what a token carries: nothing, the characters of a string, or the value of a number
pub data Literal (F : Type 0) : Type 0 where
  no_literal : Literal F
  chars : Text → Literal F
  int_value : ℕ → Literal F
  float_value : F → Literal F

pub record Token (F : Type 0) : Type 0 where
  pub kind : TokenType
  pub lexeme : Text
  pub line : ℕ
  pub col : ℤ
  pub literal : Literal F

-- KEYWORDS
abbrev pub keywords : List (Text × TokenType)
keywords =
    (b'f' ∷ b'n' ∷ [], kw_fn)
    ∷ (b'l' ∷ b'e' ∷ b't' ∷ [], kw_let)
    ∷ (b'r' ∷ b'e' ∷ b't' ∷ b'u' ∷ b'r' ∷ b'n' ∷ [], kw_return)
    ∷ (b'i' ∷ b'f' ∷ [], kw_if)
    ∷ (b'e' ∷ b'l' ∷ b's' ∷ b'e' ∷ [], kw_else)
    ∷ (b'w' ∷ b'h' ∷ b'i' ∷ b'l' ∷ b'e' ∷ [], kw_while)
    ∷ (b'f' ∷ b'o' ∷ b'r' ∷ [], kw_for)
    ∷ (b'b' ∷ b'r' ∷ b'e' ∷ b'a' ∷ b'k' ∷ [], kw_break)
    ∷ (b'c' ∷ b'o' ∷ b'n' ∷ b't' ∷ b'i' ∷ b'n' ∷ b'u' ∷ b'e' ∷ [], kw_continue)
    ∷ (b't' ∷ b'r' ∷ b'u' ∷ b'e' ∷ [], kw_true)
    ∷ (b'f' ∷ b'a' ∷ b'l' ∷ b's' ∷ b'e' ∷ [], kw_false)
    ∷ (b'n' ∷ b'u' ∷ b'l' ∷ b'l' ∷ [], kw_null)
    ∷ (b'i' ∷ b'n' ∷ b't' ∷ [], kw_int)
    ∷ (b's' ∷ b't' ∷ b'r' ∷ [], kw_str)
    ∷ (b'f' ∷ b'l' ∷ b'o' ∷ b'a' ∷ b't' ∷ [], kw_float)
    ∷ (b'v' ∷ b'o' ∷ b'i' ∷ b'd' ∷ [], kw_void)
    ∷ (b'p' ∷ b'r' ∷ b'i' ∷ b'n' ∷ b't' ∷ [], kw_print)
    ∷ (b'p' ∷ b'r' ∷ b'i' ∷ b'n' ∷ b't' ∷ b'l' ∷ b'n' ∷ [], kw_println)
    ∷ (b'p' ∷ b't' ∷ b'r' ∷ [], kw_ptr)
    ∷ (b'h' ∷ b'e' ∷ b'a' ∷ b'p' ∷ b'p' ∷ b't' ∷ b'r' ∷ [], kw_heapptr)
    ∷ (b'v' ∷ b'm' ∷ b'_' ∷ b'a' ∷ b's' ∷ b'm' ∷ [], kw_vm_asm)
    ∷ (b'i' ∷ b'n' ∷ b'c' ∷ b'l' ∷ b'u' ∷ b'd' ∷ b'e' ∷ [], kw_include)
    ∷ (b's' ∷ b't' ∷ b'r' ∷ b'u' ∷ b'c' ∷ b't' ∷ [], kw_struct)
    ∷ (b'e' ∷ b'n' ∷ b'u' ∷ b'm' ∷ [], kw_enum)
    ∷ (b'm' ∷ b'a' ∷ b't' ∷ b'c' ∷ b'h' ∷ [], kw_match)
    ∷ []

unfoldable pub keyword_in : List (Text × TokenType) → Text → TokenType
keyword_in [] s = identifier
keyword_in ((k, t) ∷ ks) s = let rest = keyword_in ks s in if same_name k s then t else rest

-- KEYWORDS.get(text, TokenType.IDENTIFIER)
unfoldable pub keyword_or_identifier : Text → TokenType
keyword_or_identifier s = keyword_in keywords s
