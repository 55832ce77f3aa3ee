-- ===== src/Dap/Messages.antt =====
-- The messages that the adapter builds: `response` and `event` of dap/protocol.py, and the dicts of
-- dap/values.py that a value is sent as.
use quin_lang.Prelude.{Bool, Option, [], if◌then◌else◌, none, same_name, some, ℕ, ◌+◌, ◌∷◌}
use quin_lang.Program.{Text}
use quin_lang.Debugger.Values.{Elements, Value, array, element, no_more, summary, value}
use quin_lang.Dap.Protocol.{Message, set_field}

-- JSON values, of which a dict is the list of its entries
mutual
  pub data Json : Type 0 where
    null_value : Json
    flag : Bool → Json
    number : ℕ → Json
    text : Text → Json
    dict : Entries → Json

  pub data Entries : Type 0 where
    no_entries : Entries
    entry_of_key : Text → Json → Entries → Entries

-- request.get(key, default)
unfoldable pub field_or : Message Json → Text → Json → Json
field_or [] key default = default
field_or ((k, v) ∷ m) key default =
    let rest = field_or m key default in if same_name k key then v else rest

-- a field that is left out where it is None
unfoldable pub with_optional : Text → Option Json → Message Json → Message Json
with_optional key none m = m
with_optional key (some v) m = set_field key v m

unfoldable pub option_text : Option Text → Option Json
option_text none = none
option_text (some t) = some (text t)

unfoldable pub response : Message Json → Option Json → Bool → Option Text → Message Json
response request body success message =
    with_optional (b'm' ∷ b'e' ∷ b's' ∷ b's' ∷ b'a' ∷ b'g' ∷ b'e' ∷ []) (option_text message) (
      with_optional (b'b' ∷ b'o' ∷ b'd' ∷ b'y' ∷ []) body (
        (
          (b't' ∷ b'y' ∷ b'p' ∷ b'e' ∷ []),
          text (b'r' ∷ b'e' ∷ b's' ∷ b'p' ∷ b'o' ∷ b'n' ∷ b's' ∷ b'e' ∷ []),
        )
        ∷ (
          (b'r' ∷ b'e' ∷ b'q' ∷ b'u' ∷ b'e' ∷ b's' ∷ b't' ∷ b'_' ∷ b's' ∷ b'e' ∷ b'q' ∷ []),
          field_or request (b's' ∷ b'e' ∷ b'q' ∷ []) (number 0),
        )
        ∷ ((b's' ∷ b'u' ∷ b'c' ∷ b'c' ∷ b'e' ∷ b's' ∷ b's' ∷ []), flag success)
        ∷ (
          (b'c' ∷ b'o' ∷ b'm' ∷ b'm' ∷ b'a' ∷ b'n' ∷ b'd' ∷ []),
          field_or request (b'c' ∷ b'o' ∷ b'm' ∷ b'm' ∷ b'a' ∷ b'n' ∷ b'd' ∷ []) (text []),
        )
        ∷ []))

unfoldable pub event : Text → Option Json → Message Json
event name body = with_optional (b'b' ∷ b'o' ∷ b'd' ∷ b'y' ∷ []) body (
    ((b't' ∷ b'y' ∷ b'p' ∷ b'e' ∷ []), text (b'e' ∷ b'v' ∷ b'e' ∷ b'n' ∷ b't' ∷ []))
    ∷ ((b'e' ∷ b'v' ∷ b'e' ∷ b'n' ∷ b't' ∷ []), text name)
    ∷ [])

unfoldable pub element_count_of : Elements → ℕ
element_count_of no_more = 0
element_count_of (element name v es) = 1 + element_count_of es

-- `_described`
unfoldable pub described : Value → ℕ → Message Json
described (value s t array a o es) reference =
    ((b't' ∷ b'y' ∷ b'p' ∷ b'e' ∷ []), text t)
    ∷ (
      (b'v' ∷ b'a' ∷ b'r' ∷ b'i' ∷ b'a' ∷ b'b' ∷ b'l' ∷ b'e' ∷ b's' ∷ b'R' ∷ b'e' ∷ b'f' ∷ b'e'
          ∷ b'r' ∷ b'e' ∷ b'n' ∷ b'c' ∷ b'e' ∷ []),
      number reference,
    )
    ∷ (
      (b'i' ∷ b'n' ∷ b'd' ∷ b'e' ∷ b'x' ∷ b'e' ∷ b'd' ∷ b'V' ∷ b'a' ∷ b'r' ∷ b'i' ∷ b'a' ∷ b'b'
          ∷ b'l' ∷ b'e' ∷ b's' ∷ []),
      number (element_count_of es),
    )
    ∷ []
described (value s t k a o es) reference =
    ((b't' ∷ b'y' ∷ b'p' ∷ b'e' ∷ []), text t)
    ∷ (
      (b'v' ∷ b'a' ∷ b'r' ∷ b'i' ∷ b'a' ∷ b'b' ∷ b'l' ∷ b'e' ∷ b's' ∷ b'R' ∷ b'e' ∷ b'f' ∷ b'e'
          ∷ b'r' ∷ b'e' ∷ b'n' ∷ b'c' ∷ b'e' ∷ []),
      number reference,
    )
    ∷ []

-- body.update(more)
unfoldable pub updated : Message Json → Message Json → Message Json
updated body [] = body
updated body ((k, v) ∷ more) = updated (set_field k v body) more

-- `if evaluate_name`
unfoldable pub with_evaluate_name : Option Text → Message Json → Message Json
with_evaluate_name (some (c ∷ cs)) m =
    set_field
      (b'e' ∷ b'v' ∷ b'a' ∷ b'l' ∷ b'u' ∷ b'a' ∷ b't' ∷ b'e' ∷ b'N' ∷ b'a' ∷ b'm' ∷ b'e' ∷ [])
      (text (c ∷ cs)) m
with_evaluate_name _ m = m

unfoldable pub variable : Text → Value → ℕ → Option Text → Message Json
variable name v reference evaluate_name = with_evaluate_name evaluate_name (
    updated
      (((b'n' ∷ b'a' ∷ b'm' ∷ b'e' ∷ []), text name)
        ∷ ((b'v' ∷ b'a' ∷ b'l' ∷ b'u' ∷ b'e' ∷ []), text (summary v))
        ∷ [])
      (described v reference))

unfoldable pub evaluation : Value → ℕ → Message Json
evaluation v reference =
    updated (((b'r' ∷ b'e' ∷ b's' ∷ b'u' ∷ b'l' ∷ b't' ∷ []), text (summary v)) ∷ [])
      (described v reference)
