-- ===== src/Dap/Protocol.antt =====
-- The class `MessageStream` of dap/protocol.py: the framing of messages in both directions.
pub mod Searching
pub mod Reading
pub mod RoundTrip
use quin_lang.Prelude.{
  Bool, List, Option, Result, [], drop, err, false, if◌then◌else◌, int_of_bytes, leb, length, ltb,
  map, negsuc, none, ok, pos, some, str_ℕ, strip, suc, take, true, zero, ℕ, ℤ, ◌&&◌, ◌++◌, ◌+◌, ◌-◌,
  ◌==◌, ◌∷◌,
}
use quin_lang.Program.{Text}
use quin_lang.Serialize.Utf8.{decode, encode}

abbrev pub Bytes : Type 0
Bytes = List ℕ

-- a message: a dict from str to JSON values
abbrev pub Message : Type 0 → Type 0
Message J = List (Text × J)

-- What the `json` module does: an int as a value, dumps and loads, with `none` for JSONDecodeError.
pub record JsonCodec (J : Type 0) : Type 0 where
  pub of_number : ℕ → J
  pub dumps : Message J → Text
  pub loads : Text → Option (Message J)

-- ProtocolError, with a constructor for each message; the UnicodeEncodeError of a body with a lone
-- surrogate; and a loop of the model that was cut off.
pub data ProtocolError : Type 0 where
  body_ended : ℕ → ℕ → ProtocolError
  not_json : ProtocolError
  no_terminator : ProtocolError
  header_ended : ProtocolError
  bad_length : Bytes → ProtocolError
  negative_length : ℤ → ProtocolError
  no_length : ProtocolError
  unencodable : ProtocolError
  cut_off : ProtocolError

-- The reader holds what it will deliver, in the pieces in which it arrives; the writer has what was
-- written to it.
pub record MessageStream : Type 0 where
  pub incoming : List Bytes
  pub written : Bytes
  pub buffer : Bytes
  pub seq : ℕ

abbrev pub max_header_bytes : ℕ
max_header_bytes = 8192

-- self._reader.read(n): at most n bytes of the next piece, none at the end of the stream
unfoldable pub read_chunk : ℕ → List Bytes → Bytes × List Bytes
read_chunk n [] = ([], [])
read_chunk n (c ∷ cs) = if leb (length c) n then (c, cs) else (take n c, drop n c ∷ cs)

-- whether the buffer goes on with the header terminator, a byte at a time
unfoldable pub goes_on : Bytes → Bytes → Bool
goes_on [] buffer = true
goes_on (t ∷ ts) [] = false
goes_on (t ∷ ts) (b ∷ bs) = b == t && goes_on ts bs

-- HEADER_TERMINATOR
abbrev pub header_terminator : Bytes
header_terminator = 13 ∷ 10 ∷ 13 ∷ 10 ∷ []

-- self._buffer.index(HEADER_TERMINATOR), `none` where it is not in the buffer
unfoldable pub index_in : Bytes → Option ℕ
index_in [] = none
index_in (b ∷ bs) =
    if goes_on header_terminator (b ∷ bs)
    then some 0
    else elim (index_in bs) [ none ↦ none | some i ↦ some (i + 1) ]

unfoldable pub is_empty : Bytes → Bool
is_empty [] = true
is_empty (b ∷ bs) = false

-- what follows a read of the header loop
unfoldable pub header_more :
    (MessageStream → Result ProtocolError (Option Bytes) × MessageStream)
    → MessageStream
    → Bytes × List Bytes
    → Result ProtocolError (Option Bytes) × MessageStream
header_more go s ([], more) =
    (if is_empty s.buffer then ok none else err header_ended, record s { incoming = more })
header_more go s (c ∷ cs, more) = go (record s { incoming = more; buffer = s.buffer ++ c ∷ cs })

-- the loop of `_read_header` and what follows it, for so many rounds
unfoldable pub header_loop : ℕ → MessageStream → Result ProtocolError (Option Bytes) × MessageStream
header_loop zero s = (err cut_off, s)
header_loop (suc fuel) s = elim (index_in s.buffer) [
  | some i ↦ (ok (some (take i s.buffer)), record s { buffer = drop (i + 4) s.buffer })
  | none ↦
      if ltb max_header_bytes (length s.buffer)
      then (err no_terminator, s)
      else header_more (λ t. header_loop fuel t) s (read_chunk 1 s.incoming)
]

-- `_read_header`: the buffer grows with each round, up to a byte over the limit
unfoldable pub read_header : MessageStream → Result ProtocolError (Option Bytes) × MessageStream
read_header s = header_loop (max_header_bytes + 2) s

-- a byte in front of the first part
unfoldable pub push_byte : ℕ → List Bytes → List Bytes
push_byte b [] = (b ∷ []) ∷ []
push_byte b (l ∷ ls) = (b ∷ l) ∷ ls

-- header.split(b"\r\n")
unfoldable pub split_lines : Bytes → List Bytes
split_lines [] = [] ∷ []
split_lines (b ∷ []) = (b ∷ []) ∷ []
split_lines (b ∷ c ∷ bs) =
    let behind = split_lines bs in
    let onward = split_lines (c ∷ bs) in
    if b == 13 && c == 10 then [] ∷ behind else push_byte b onward

-- line.partition(b":"): the name, and the value where there is a separator
unfoldable pub partition_colon : Bytes → Bytes × Option Bytes
partition_colon [] = ([], none)
partition_colon (b ∷ bs) =
    let (name, value) = partition_colon bs in if b == b':' then ([], some bs) else (b ∷ name, value)

-- lower()
unfoldable pub lower : Bytes → Bytes
lower bs = map (λ b. if leb b'A' b && leb b b'Z' then b + 32 else b) bs

unfoldable pub eq_bytes : Bytes → Bytes → Bool
eq_bytes [] [] = true
eq_bytes (a ∷ as') (b ∷ bs) = a == b && eq_bytes as' bs
eq_bytes _ _ = false

-- CONTENT_LENGTH
abbrev pub content_length_name : Bytes
content_length_name =
    b'c' ∷ b'o' ∷ b'n' ∷ b't' ∷ b'e' ∷ b'n' ∷ b't' ∷ b'-' ∷ b'l' ∷ b'e' ∷ b'n' ∷ b'g' ∷ b't' ∷ b'h'
    ∷ []

-- the checks on the number that the value of the header is
unfoldable pub length_of_int : Bytes → Option ℤ → Result ProtocolError ℕ
length_of_int value none = err (bad_length value)
length_of_int value (some (pos n)) = ok n
length_of_int value (some (negsuc n)) = err (negative_length (negsuc n))

unfoldable pub length_of_value : Bytes → Result ProtocolError ℕ
unfolding length_of_int
length_of_value value = length_of_int value (int_of_bytes (strip value))

-- name.strip().lower() == CONTENT_LENGTH
unfoldable pub is_length_name : Bytes → Bool
is_length_name name = eq_bytes (lower (strip name)) content_length_name

-- one line of the header, or else the lines behind it
unfoldable pub length_in_line :
    Result ProtocolError ℕ → Bytes × Option Bytes → Result ProtocolError ℕ
length_in_line others (name, none) = others
length_in_line others (name, some value) =
    if is_length_name name then length_of_value value else others

unfoldable pub length_in : List Bytes → Result ProtocolError ℕ
length_in [] = err no_length
length_in (l ∷ ls) = length_in_line (length_in ls) (partition_colon l)

-- `_content_length`
unfoldable pub content_length : Bytes → Result ProtocolError ℕ
content_length header = length_in (split_lines header)

-- what follows a read of the body loop
unfoldable pub body_more :
    (MessageStream → Option Bytes × MessageStream)
    → MessageStream
    → Bytes × List Bytes
    → Option Bytes × MessageStream
body_more go s ([], more) = (none, record s { incoming = more })
body_more go s (c ∷ cs, more) = go (record s { incoming = more; buffer = s.buffer ++ c ∷ cs })

-- `_read_exactly`, for so many rounds, of which each reads a byte at least
unfoldable pub exact_loop : ℕ → ℕ → MessageStream → Option Bytes × MessageStream
exact_loop zero count s = (none, s)
exact_loop (suc fuel) count s =
    if leb count (length s.buffer)
    then (some (take count s.buffer), record s { buffer = drop count s.buffer })
    else body_more (λ t. exact_loop fuel count t) s
        (read_chunk (count - length s.buffer) s.incoming)

unfoldable pub read_exactly : ℕ → MessageStream → Option Bytes × MessageStream
read_exactly count s = exact_loop (suc count) count s

module _ {J : Type 0} (codec : JsonCodec J) where
  -- json.loads(body.decode("utf-8"))
  unfoldable pub parse_body : Bytes → Result ProtocolError (Option (Message J))
  parse_body body = elim (decode body) [
    | err e ↦ err not_json
    | ok text ↦ elim (codec.loads text) [ none ↦ err not_json | some m ↦ ok (some m) ]
  ]

  -- behind the length: the body
  unfoldable pub after_body :
      ℕ → Option Bytes × MessageStream → Result ProtocolError (Option (Message J)) × MessageStream
  after_body count (none, s) = (err (body_ended (length s.buffer) count), s)
  after_body count (some body, s) = (parse_body body, s)

  unfoldable pub after_length :
      Result ProtocolError ℕ
      → MessageStream
      → Result ProtocolError (Option (Message J)) × MessageStream
  after_length (err e) s = (err e, s)
  after_length (ok count) s = after_body count (read_exactly count s)

  unfoldable pub after_header :
      Result ProtocolError (Option Bytes) × MessageStream
      → Result ProtocolError (Option (Message J)) × MessageStream
  after_header (err e, s) = (err e, s)
  after_header (ok none, s) = (ok none, s)
  after_header (ok (some header), s) = after_length (content_length header) s

  -- `read`
  unfoldable pub read : MessageStream → Result ProtocolError (Option (Message J)) × MessageStream
  read s = after_header (read_header s)

-- dict(message, key=value): a known key keeps its place
unfoldable pub set_field : {J : Type 0} → Text → J → Message J → Message J
set_field key v [] = (key, v) ∷ []
set_field key v ((k, w) ∷ m) =
    let rest = set_field key v m in if eq_bytes k key then (k, v) ∷ m else (k, w) ∷ rest

-- f"Content-Length: {n}"
unfoldable pub length_header : ℕ → Bytes
length_header n =
    b'C'
    ∷ b'o'
    ∷ b'n'
    ∷ b't'
    ∷ b'e'
    ∷ b'n'
    ∷ b't'
    ∷ b'-'
    ∷ b'L'
    ∷ b'e'
    ∷ b'n'
    ∷ b'g'
    ∷ b't'
    ∷ b'h'
    ∷ b':'
    ∷ 32
    ∷ str_ℕ n

-- the header, the terminator and the body
unfoldable pub frame : Bytes → Bytes
frame body = length_header (length body) ++ (header_terminator ++ body)

module _ {J : Type 0} (codec : JsonCodec J) where
  -- dict(message, seq=self._seq)
  unfoldable pub with_seq : ℕ → Message J → Message J
  with_seq n m = set_field (b's' ∷ b'e' ∷ b'q' ∷ []) (codec.of_number n) m

  unfoldable pub write_body :
      MessageStream → ℕ → Option Bytes → Result ProtocolError ℕ × MessageStream
  write_body s n none = (err unencodable, record s { seq = n })
  write_body s n (some body) = (ok n, record s { seq = n; written = s.written ++ frame body })

  -- json.dumps(...).encode("utf-8")
  unfoldable pub encode_body : Message J → Option Bytes
  encode_body m = elim (encode (codec.dumps m)) [ err e ↦ none | ok bs ↦ some bs ]

  -- `write`, which the lock makes one step
  unfoldable pub write : Message J → MessageStream → Result ProtocolError ℕ × MessageStream
  write m s = write_body s (s.seq + 1) (encode_body (with_seq (s.seq + 1) m))
