-- ===== src/Dap/Tests.antt =====
-- A message over a stream in pieces, with a plain notation in place of JSON.
use quin_lang.Debugger.Values.{ValueKind, no_more, summary, value}
use quin_lang.Prelude.{
  Option, [], arith, drop, false, length, none, ok, refl, same_name, some, str_ℕ, suc, take, zero,
  ℕ, ◌++◌, ◌∷◌, ◌≡◌,
}
use quin_lang.Program.{Text}
use quin_lang.Serialize.Utf8.{encode, encode_char}
use quin_lang.Dap.Messages.{
  described, field_or, flag, number, option_text, response, text, updated, variable,
  with_evaluate_name, with_optional,
}
use quin_lang.Dap.Protocol.{
  Bytes, JsonCodec, Message, MessageStream, encode_body, eq_bytes, frame, is_empty, length_header,
  read, set_field, with_seq, write, write_body,
}
use quin_lang.Dap.Protocol.Reading.{Ends}
use quin_lang.Dap.Protocol.RoundTrip.{read-write}
use quin_lang.Dap.Values.{clear, frame_of, frame_scope, get, keyed, new_keyed, no_handles, store}
use quin_lang.Dap.Values.Stale.{by_scope, get-clear, same}

-- the length of the key, the key and the value of each entry
abbrev plain_dumps : Message ℕ → Text
plain_dumps [] = []
plain_dumps ((k, n) ∷ m) = length k ∷ (k ++ n ∷ plain_dumps m)

abbrev plain_entry : (Text → Option (Message ℕ)) → Text → Text → Option (Message ℕ)
plain_entry go k [] = none
plain_entry go k (n ∷ rest) = elim (go rest) [ none ↦ none | some m ↦ some ((k, n) ∷ m) ]

abbrev plain_loads : ℕ → Text → Option (Message ℕ)
plain_loads fuel [] = some []
plain_loads zero (l ∷ rest) = none
plain_loads (suc fuel) (l ∷ rest) =
    plain_entry (λ t. plain_loads fuel t) (take l rest) (drop l rest)

abbrev plain : JsonCodec ℕ
plain = record { of_number = λ n. n; dumps = plain_dumps; loads = λ t. plain_loads (length t) t }

abbrev message : Message ℕ
message = (b'a' ∷ [], 7) ∷ []

abbrev silent : MessageStream
silent = record { incoming = []; written = []; buffer = []; seq = 0 }

abbrev body : Bytes
body = 1 ∷ 97 ∷ 7 ∷ 3 ∷ 115 ∷ 101 ∷ 113 ∷ 1 ∷ []

abbrev sent : Bytes
sent = frame body

abbrev told : MessageStream
told = record silent { written = sent; seq = 1 }

written : write plain message silent ≡ (ok 1, told)
unfolding write write_body encode_body encode encode_char with_seq set_field eq_bytes
written = refl

-- the same bytes in three pieces, with one byte of the next message
abbrev in_pieces : MessageStream
in_pieces = record silent { incoming = take 7 sent ∷ drop 7 sent ∷ (b'C' ∷ []) ∷ [] }

read-write_example :
    Ends
      (read plain in_pieces)
      (ok (some ((b'a' ∷ [], 7) ∷ (b's' ∷ b'e' ∷ b'q' ∷ [], 1) ∷ [])))
      in_pieces
      (b'C' ∷ [])
unfolding with_seq set_field eq_bytes encode_body encode encode_char length_header frame str_ℕ
    is_empty
read-write_example =
    read-write plain message silent told in_pieces 1 body (b'C' ∷ []) written refl refl
      (omega arith) refl (refl, (refl, (refl, tt))) refl

-- a frame before a stop, and another one behind it
get-clear_example : get (keyed frame_scope 0 (clear (keyed frame_scope 0 no_handles).1)).1 1 ≡ none
unfolding keyed frame_of new_keyed store
get-clear_example =
    get-clear 1 (keyed frame_scope 0 no_handles).1 _ (omega arith)
      (by_scope (clear (keyed frame_scope 0 no_handles).1) _ frame_scope 0 (same _))

-- the answer to a `launch` with seq 7, and a local name that can be evaluated
answered_launch :
    (response
        (((b's' ∷ b'e' ∷ b'q' ∷ []), number 7)
          ∷ (
            (b'c' ∷ b'o' ∷ b'm' ∷ b'm' ∷ b'a' ∷ b'n' ∷ b'd' ∷ []),
            text (b'l' ∷ b'a' ∷ b'u' ∷ b'n' ∷ b'c' ∷ b'h' ∷ []),
          )
          ∷ [])
        none
        false
        (some (b'g' ∷ b'o' ∷ b'n' ∷ b'e' ∷ []))
      ≡ (
        (b't' ∷ b'y' ∷ b'p' ∷ b'e' ∷ []),
        text (b'r' ∷ b'e' ∷ b's' ∷ b'p' ∷ b'o' ∷ b'n' ∷ b's' ∷ b'e' ∷ []),
      )
        ∷ (
          (b'r' ∷ b'e' ∷ b'q' ∷ b'u' ∷ b'e' ∷ b's' ∷ b't' ∷ b'_' ∷ b's' ∷ b'e' ∷ b'q' ∷ []),
          number 7,
        )
        ∷ ((b's' ∷ b'u' ∷ b'c' ∷ b'c' ∷ b'e' ∷ b's' ∷ b's' ∷ []), flag false)
        ∷ (
          (b'c' ∷ b'o' ∷ b'm' ∷ b'm' ∷ b'a' ∷ b'n' ∷ b'd' ∷ []),
          text (b'l' ∷ b'a' ∷ b'u' ∷ b'n' ∷ b'c' ∷ b'h' ∷ []),
        )
        ∷ (
          (b'm' ∷ b'e' ∷ b's' ∷ b's' ∷ b'a' ∷ b'g' ∷ b'e' ∷ []),
          text (b'g' ∷ b'o' ∷ b'n' ∷ b'e' ∷ []),
        )
        ∷ [])
    × (variable
          (b'n' ∷ [])
          (value (b'3' ∷ []) (b'i' ∷ b'n' ∷ b't' ∷ []) ValueKind.scalar 0 [] no_more)
          0
          (some (b'n' ∷ []))
        ≡ ((b'n' ∷ b'a' ∷ b'm' ∷ b'e' ∷ []), text (b'n' ∷ []))
          ∷ ((b'v' ∷ b'a' ∷ b'l' ∷ b'u' ∷ b'e' ∷ []), text (b'3' ∷ []))
          ∷ ((b't' ∷ b'y' ∷ b'p' ∷ b'e' ∷ []), text (b'i' ∷ b'n' ∷ b't' ∷ []))
          ∷ (
            (b'v' ∷ b'a' ∷ b'r' ∷ b'i' ∷ b'a' ∷ b'b' ∷ b'l' ∷ b'e' ∷ b's' ∷ b'R' ∷ b'e' ∷ b'f'
                ∷ b'e' ∷ b'r' ∷ b'e' ∷ b'n' ∷ b'c' ∷ b'e' ∷ []),
            number 0,
          )
          ∷ (
            (b'e' ∷ b'v' ∷ b'a' ∷ b'l' ∷ b'u' ∷ b'a' ∷ b't' ∷ b'e' ∷ b'N' ∷ b'a' ∷ b'm' ∷ b'e'
                ∷ []),
            text (b'n' ∷ []),
          )
          ∷ [])
unfolding response field_or with_optional option_text set_field eq_bytes same_name variable
    with_evaluate_name updated described summary
answered_launch = (refl, refl)
