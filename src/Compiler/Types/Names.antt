-- ===== src/Compiler/Types/Names.antt =====
-- The spelling of types in compiler/compiler_types.py: how a name is taken apart.
use quin_lang.Prelude.{
  Bool, List, Option, Result, [], drop, ends_with, err, false, if◌then◌else◌, int_of_bytes, length,
  ltb, map, negsuc, none, ok, pos, reverse, same_name, some, starts_with, strip, suc, take, true,
  zero, ℕ, ℤ, ◌&&◌, ◌+ℤ◌, ◌+◌, ◌-ℤ◌, ◌-◌, ◌==◌, ◌>>=◌, ◌||◌, ◌∷◌,
}
use quin_lang.Program.{Text}
use quin_lang.Compiler.Types.{array_prefix}
use quin_lang.Compiler.Lexer.Chars.{between, is_letter}

-- UnknownTypeError, with a constructor for each message, and a recursion of the model that was cut
-- off
pub data UnknownTypeError : Type 0 where
  invalid_length : Text → Text → UnknownTypeError
  not_positive : ℤ → Text → UnknownTypeError
  unbalanced malformed empty_parameter empty_argument : Text → UnknownTypeError
  element_count : ℕ → Text → UnknownTypeError
  void_parameter array_parameter ptr_parameter array_return ptr_return : Text → UnknownTypeError
  void_element float_element array_element unknown_type : Text → UnknownTypeError
  recursion_cut_off : UnknownTypeError

-- The Unicode tables of Python on code points from 128 on: what `str.isidentifier` takes at the start
-- and behind it, and the decimal digits that int() reads.
pub record NameTables : Type 0 where
  pub starts : ℕ → Bool
  pub continues : ℕ → Bool
  pub decimal : ℕ → Option ℕ

-- the blanks of str.strip
unfoldable pub is_white : ℕ → Bool
is_white c =
    between 9 13 c
    || (between 28 32 c
        || (c == 133
            || (c == 160
                || (c == 5760
                    || (between 8192 8202 c
                        || (between 8232 8233 c || (c == 8239 || (c == 8287 || c == 12288))))))))

unfoldable pub drop_white : Text → Text
drop_white [] = []
drop_white (c ∷ cs) = let rest = drop_white cs in if is_white c then rest else c ∷ cs

-- p.strip()
unfoldable pub strip_white : Text → Text
strip_white s = reverse (drop_white (reverse (drop_white s)))

unfoldable pub is_top_level : ℤ → Bool
is_top_level (pos zero) = true
is_top_level _ = false

-- the depth behind a character
unfoldable pub depth_after : ℤ → ℕ → ℤ
depth_after depth c =
    if c == b'(' || c == b'<'
    then depth +ℤ pos 1
    else if c == b')' || c == b'>'
    then depth -ℤ pos 1
    else depth

-- a character in front of the first part
unfoldable pub push_char : ℕ → List Text → List Text
push_char c [] = (c ∷ []) ∷ []
push_char c (p ∷ ps) = (c ∷ p) ∷ ps

-- the loop of `split_top_level`
unfoldable pub split_from : ℤ → Text → List Text
split_from depth [] = [] ∷ []
split_from depth (c ∷ cs) =
    let rest = split_from (depth_after depth c) cs in
    if c == b',' && is_top_level depth then [] ∷ rest else push_char c rest

unfoldable pub split_top_level : Text → List Text
split_top_level text = map strip_white (split_from (pos 0) text)

-- any(not p for p in parts)
unfoldable pub has_empty : List Text → Bool
has_empty [] = false
has_empty ([] ∷ ps) = true
has_empty ((c ∷ cs) ∷ ps) = has_empty ps

-- the loop of `func_signature_from_name`: the index of the bracket that closes the first one
unfoldable pub close_from : ℕ → ℕ → Text → Option ℕ
close_from i depth [] = none
close_from i depth (c ∷ cs) =
    let deeper = close_from (i + 1) (depth + 1) cs in
    let outer = close_from (i + 1) (depth - 1) cs in
    let same = close_from (i + 1) depth cs in
    if c == b'(' then deeper else if c == b')' then if depth == 1 then some i else outer else same

-- the parameters' names
unfoldable pub parameter_names : Text → List Text
parameter_names inner = elim (strip_white inner) [ [] ↦ [] | _ ∷ _ ↦ split_top_level inner ]

unfoldable pub with_parameters :
    Text → List Text → Text → Result UnknownTypeError (Option (List Text × Text))
with_parameters name params ret =
    if has_empty params then err (empty_parameter name) else ok (some (params, ret))

-- the return type's name behind the parameters
unfoldable pub signature_parts :
    Text → Text → Text → Result UnknownTypeError (Option (List Text × Text))
signature_parts name inner [] =
    with_parameters name (parameter_names inner) (b'v' ∷ b'o' ∷ b'i' ∷ b'd' ∷ [])
signature_parts name inner (c ∷ []) = err (malformed name)
signature_parts name inner (c ∷ d ∷ rest) =
    if c == b':'
    then with_parameters name (parameter_names inner) (d ∷ rest)
    else err (malformed name)

unfoldable pub closed_at : Text → Option ℕ → Result UnknownTypeError (Option (List Text × Text))
closed_at name none = err (unbalanced name)
closed_at name (some close) =
    signature_parts name (take (close - 3) (drop 3 name)) (drop (close + 1) name)

-- FUNC_PREFIX
abbrev pub func_prefix : Text
func_prefix = (b'f' ∷ b'n' ∷ b'(' ∷ [])

unfoldable pub func_signature_from_name : Text → Result UnknownTypeError (Option (List Text × Text))
func_signature_from_name name =
    if starts_with name func_prefix then closed_at name (close_from 2 0 (drop 2 name)) else ok none

-- name.find("<")
unfoldable pub find_angle : Text → Option ℕ
find_angle [] = none
find_angle (c ∷ cs) =
    let rest = find_angle cs in
    if c == b'<' then some 0 else elim rest [ none ↦ none | some i ↦ some (suc i) ]

module _ (u : NameTables) where
  -- a character of the text as int() reads it
  unfoldable pub to_ascii : ℕ → ℕ
  to_ascii c =
      if ltb c 127
      then c
      else if is_white c
      then 32
      else elim (u.decimal c) [ none ↦ b'?' | some d ↦ 48 + d ]

  -- int(inner)
  unfoldable pub int_of_text : Text → Option ℤ
  int_of_text s = int_of_bytes (strip (map to_ascii s))

  unfoldable pub checked_length : Text → Text → Option ℤ → Result UnknownTypeError (Option ℕ)
  checked_length name inner none = err (invalid_length inner name)
  checked_length name inner (some (pos zero)) = err (not_positive (pos 0) name)
  checked_length name inner (some (pos (suc n))) = ok (some (suc n))
  checked_length name inner (some (negsuc n)) = err (not_positive (negsuc n) name)

  -- name[len(ARRAY_PREFIX):-1]
  unfoldable pub between_brackets : Text → Text
  between_brackets name = drop 4 (take (length name - 1) name)

  unfoldable pub array_length_from_name : Text → Result UnknownTypeError (Option ℕ)
  array_length_from_name name =
      if starts_with name array_prefix && ends_with name (b']' ∷ [])
      then checked_length name (between_brackets name) (int_of_text (between_brackets name))
      else ok none

  unfoldable pub starts_identifier : ℕ → Bool
  starts_identifier c = if ltb c 128 then is_letter c || c == b'_' else u.starts c

  unfoldable pub all_continue : Text → Bool
  all_continue [] = true
  all_continue (c ∷ cs) =
      (if ltb c 128 then is_letter c || (between 48 57 c || c == b'_') else u.continues c)
      && all_continue cs

  -- isidentifier
  unfoldable pub is_identifier : Text → Bool
  is_identifier [] = false
  is_identifier (c ∷ cs) = starts_identifier c && all_continue cs

  unfoldable pub with_arguments :
      Text → Text → List Text → Result UnknownTypeError (Option (Text × List Text))
  with_arguments name base args =
      if has_empty args then err (empty_argument name) else ok (some (base, args))

  unfoldable pub opened_at : Text → Option ℕ → Result UnknownTypeError (Option (Text × List Text))
  opened_at name none = ok none
  opened_at name (some zero) = ok none
  opened_at name (some (suc i)) =
      if is_identifier (take (suc i) name)
      then with_arguments name (take (suc i) name)
          (split_top_level (drop (suc i + 1) (take (length name - 1) name)))
      else ok none

  unfoldable pub generic_application : Text → Result UnknownTypeError (Option (Text × List Text))
  generic_application name =
      if ends_with name (b'>' ∷ []) then opened_at name (find_angle name) else ok none

  unfoldable pub one_element : Text → List Text → Result UnknownTypeError (Option Text)
  one_element name (a ∷ []) = ok (some a)
  one_element name args = err (element_count (length args) name)

  unfoldable pub element_of :
      Text → Option (Text × List Text) → Result UnknownTypeError (Option Text)
  element_of name none = ok none
  element_of name (some (base, args)) =
      if same_name base (b'A' ∷ b'r' ∷ b'r' ∷ b'a' ∷ b'y' ∷ [])
      then one_element name args
      else ok none

  unfoldable pub element_type_from_name : Text → Result UnknownTypeError (Option Text)
  element_type_from_name name = do app ← generic_application name; element_of name app
