-- ===== src/Dap/Protocol/RoundTrip.antt =====
-- What `write` of dap/protocol.py sends is what `read` at the other end hands back.
use quin_lang.Prelude.{
  Option-cases, Result-cases, [], ap, append_assoc, arith, drop, inl, inr, length, ok, refl, some,
  some-injective, sym, ℕ, ◌++◌, ◌+◌, ◌∙◌, ◌≡◌, ◌≤◌,
}
use quin_lang.Serialize.Utf8.{decode-encode, encode}
use quin_lang.Dap.Protocol.{
  Bytes, JsonCodec, Message, MessageStream, after_body, after_header, after_length, encode_body,
  frame, header_terminator, length_header, max_header_bytes, parse_body, read, with_seq, write,
  write_body,
}
use quin_lang.Dap.Protocol.Searching.{content_length-length_header, drop-length, header-NoReturn}
use quin_lang.Dap.Protocol.Reading.Header.{read_header-Ends}
use quin_lang.Dap.Protocol.Reading.Body.{read_exactly-Ends}
use quin_lang.Dap.Protocol.Reading.{AllFull, Ends, flat}

module _ {J : Type 0} (codec : JsonCodec J) where
  parse_body-encode_body :
      (m : Message J) (body : Bytes)
      → codec.loads (codec.dumps m) ≡ some m
      → encode_body codec m ≡ some body
      → parse_body codec body ≡ ok (some m)
  unfolding encode_body parse_body
  parse_body-encode_body m body h e = elim (Result-cases (encode (codec.dumps m))) [
    | inr (x, q) ↦ absurd (ground arith)
    | inl (bs, q) ↦
        let sent : encode (codec.dumps m) ≡ ok body = q ∙ ap ok (ground arith) in
        ground (arith, decode-encode (codec.dumps m) body sent, h)
  ]

  -- a frame in front of anything else, in any pieces
  pub read-frame :
      (m : Message J) (body rest : Bytes) (s : MessageStream)
      → parse_body codec body ≡ ok (some m)
      → length (length_header (length body)) + 3 ≤ max_header_bytes
      → s.buffer ≡ []
      → AllFull s.incoming
      → flat s.incoming ≡ frame body ++ rest
      → Ends (read codec s) (ok (some m)) s rest
  unfolding read frame after_header after_length after_body
  read-frame m body rest s p l b f h =
      let header : Bytes = length_header (length body) in
      let behind =
        read_header-Ends header (body ++ rest) s (header-NoReturn (length body)) l b f
          (h ∙ append_assoc header (header_terminator ++ body) rest) in
      let t : MessageStream = record s { incoming = behind.left; buffer = [] } in
      let r = read_exactly-Ends body rest t refl behind.full behind.whole in
      record {
        left = r.left;
        ends =
            ap (after_header codec) behind.ends
            ∙ ap (λ n. after_length codec n t) (content_length-length_header (length body))
            ∙ ap (after_body codec (length body)) r.ends
            ∙ ap (λ x. (x, record t { incoming = r.left; buffer = [] })) p;
        whole = r.whole;
        full = r.full;
      }

  write_lem :
      (m : Message J) (s s' : MessageStream) (n : ℕ)
      → write codec m s ≡ (ok n, s')
      → (body : Bytes) × (encode_body codec (with_seq codec (s.seq + 1) m) ≡ some body)
        × (s'.written ≡ s.written ++ frame body)
        × (n ≡ s.seq + 1)
        × (s'.seq ≡ s.seq + 1)
  unfolding write write_body
  write_lem m s s' n h = elim (Option-cases (encode_body codec (with_seq codec (s.seq + 1) m))) [
    | inl e ↦ absurd (ground arith)
    | inr (body, e) ↦ (body, e, ground arith, ground arith, ground arith)
  ]

  -- What `write` adds to the stream is read back at the other end, whatever pieces it arrives in and
  -- whatever follows it, as the message with the seq that `write` returned; the reader stops at its
  -- last byte, with an empty buffer. Conditions: json reads back that message, the header of its body
  -- keeps to the limit, and the reader has nothing in its buffer and no empty piece before it.
  pub read-write :
      (m : Message J) (s s' r : MessageStream) (n : ℕ) (body rest : Bytes)
      → write codec m s ≡ (ok n, s')
      → codec.loads (codec.dumps (with_seq codec n m)) ≡ some (with_seq codec n m)
      → encode_body codec (with_seq codec n m) ≡ some body
      → length (length_header (length body)) + 3 ≤ max_header_bytes
      → r.buffer ≡ []
      → AllFull r.incoming
      → flat r.incoming ≡ drop (length s.written) s'.written ++ rest
      → Ends (read codec r) (ok (some (with_seq codec n m))) r rest
  read-write m s s' r n body rest w j c l b f h =
      let (sent, e, added, q, _) = write_lem m s s' n w in
      let same : sent ≡ body =
        some-injective (sym e ∙ ap (λ k. encode_body codec (with_seq codec k m)) (sym q) ∙ c) in
      let frame_left : drop (length s.written) s'.written ≡ frame body =
        ap (drop (length s.written)) added
        ∙ drop-length (frame sent) s.written (length s.written) refl
        ∙ ap frame same in
      read-frame (with_seq codec n m) body rest r
        (parse_body-encode_body (with_seq codec n m) body j c) l b f
        (h ∙ ap (λ v. v ++ rest) frame_left)
