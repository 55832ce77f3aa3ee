-- ===== src/Dap/Protocol/Reading/Header.antt =====
-- `_read_header` of dap/protocol.py, over a stream that arrives in any pieces.
use quin_lang.Dap.Protocol.Searching.{
  NoReturn, NoReturn-append, drop-length, index_in-none, index_in-some, take-length,
}
use quin_lang.Prelude.{
  List, [], ap, append-nil, append_assoc, arith, drop, length, length-append, none, ok, refl, some,
  subst, suc, sym, take, zero, ℕ, ◌++◌, ◌+◌, ◌<◌, ◌∙◌, ◌∷◌, ◌≡◌, ◌≤◌,
}
use quin_lang.Dap.Protocol.{
  Bytes, MessageStream, goes_on, header_loop, header_more, header_terminator, index_in,
  max_header_bytes, read_chunk, read_header,
}
use quin_lang.Dap.Protocol.Reading.{AllFull, Ends, fed, flat, read_chunk-Delivers}

nil_of_short : (v : Bytes) → length v < 1 → v ≡ []
nil_of_short [] h = refl
nil_of_short (x ∷ v) h = absurd (omega arith)

header_goes_on :
    (fuel : ℕ) (s : MessageStream)
    → index_in s.buffer ≡ none
    → length s.buffer ≤ max_header_bytes
    → header_loop (suc fuel) s ≡ header_more (λ t. header_loop fuel t) s (read_chunk 1 s.incoming)
unfolding header_loop
header_goes_on fuel s i l = ground arith

-- a round of the header loop, which reads one byte
header_round :
    (fuel x : ℕ) (xs : Bytes) (s : MessageStream)
    → index_in s.buffer ≡ none
    → length s.buffer ≤ max_header_bytes
    → AllFull s.incoming
    → flat s.incoming ≡ x ∷ xs
    → (left : List Bytes) × (header_loop (suc fuel) s ≡ header_loop fuel (fed s (x ∷ []) left))
      × (flat left ≡ xs)
      × AllFull left
unfolding header_more
header_round fuel x xs s i l f h =
    let d = read_chunk-Delivers 0 x xs s.incoming f h in
    let alone = nil_of_short d.others d.short in
    let same : d.first ∷ flat d.left ≡ x ∷ xs =
      ap (λ v. d.first ∷ (v ++ flat d.left)) (sym alone) ∙ d.whole ∙ h in
    let byte : d.first ∷ d.others ≡ x ∷ [] =
      ap (λ v. d.first ∷ v) alone ∙ ap (λ y. y ∷ []) (let e : d.first ≡ x = cc in e) in
    (
      d.left,
      header_goes_on fuel s i l
          ∙ ap (header_more (λ t. header_loop fuel t) s) d.given
          ∙ ap (λ v. header_loop fuel (fed s v d.left)) byte,
      cc,
      d.full,
    )

-- the end of the header loop
header_found :
    (fuel k : ℕ) (s : MessageStream)
    → index_in s.buffer ≡ some k
    → header_loop (suc fuel) s
      ≡ (ok (some (take k s.buffer)), record s { buffer = drop (k + 4) s.buffer })
unfolding header_loop
header_found fuel k s i = ground arith

-- No terminator ends before the last of these bytes is in the buffer.
abbrev Opens : Bytes → Bytes → Type 0
Opens b [] = Unit
Opens b (x ∷ v) = (index_in b ≡ none) × Opens (b ++ x ∷ []) v

no_terminator_in : (b : Bytes) → NoReturn b → index_in b ≡ none
unfolding index_in
no_terminator_in b n = ap index_in (sym (append-nil b)) ∙ index_in-none [] b n refl

Opens-terminator : (b : Bytes) → NoReturn b → Opens b header_terminator
unfolding index_in goes_on
Opens-terminator b n = (
  no_terminator_in b n,
  (
    index_in-none (13 ∷ []) b n refl,
    (
      ap index_in (append_assoc b (13 ∷ []) (10 ∷ [])) ∙ index_in-none (13 ∷ 10 ∷ []) b n refl,
      (
        ap index_in (
              ap (λ v. v ++ 13 ∷ []) (append_assoc b (13 ∷ []) (10 ∷ []))
              ∙ append_assoc b (13 ∷ 10 ∷ []) (13 ∷ []))
            ∙ index_in-none (13 ∷ 10 ∷ 13 ∷ []) b n refl,
        tt,
      ),
    ),
  ),
)

Opens-header : (b r : Bytes) → NoReturn b → NoReturn r → Opens b (r ++ header_terminator)
Opens-header b [] n m = Opens-terminator b n
Opens-header b (x ∷ r) n (a, m) =
    (no_terminator_in b n, Opens-header (b ++ x ∷ []) r (NoReturn-append b (x ∷ []) n (a, tt)) m)

-- the whole of the header loop, byte by byte
header_walk :
    (v rest : Bytes) (fuel k : ℕ) (s : MessageStream)
    → Opens s.buffer v
    → length s.buffer + length v ≤ max_header_bytes + 1
    → length v < fuel
    → AllFull s.incoming
    → flat s.incoming ≡ v ++ rest
    → index_in (s.buffer ++ v) ≡ some k
    → k + 4 ≡ length (s.buffer ++ v)
    → Ends (header_loop fuel s) (ok (some (take k (s.buffer ++ v)))) s rest
header_walk v rest zero k s o l g f h i e = absurd (omega arith)
header_walk [] rest (suc fuel) k s o l g f h i e = record {
  left = s.incoming;
  ends =
      header_found fuel k s (ap index_in (sym (append-nil s.buffer)) ∙ i)
      ∙ ap (λ b. (ok (some (take k b)), record s { buffer = drop (k + 4) b }))
          (sym (append-nil s.buffer))
      ∙ ap (λ b. (ok (some (take k (s.buffer ++ []))), record s { buffer = b })) emptied;
  whole = h;
  full = f;
}
  where
    emptied : drop (k + 4) (s.buffer ++ []) ≡ []
    emptied = drop-length [] s.buffer (k + 4) (e ∙ ap length (append-nil s.buffer))
header_walk (x ∷ v) rest (suc fuel) k s (o, os) l g f h i e =
    let (left, step, flat_left, full_left) =
      header_round fuel x (v ++ rest) s o (omega arith) f h in
    let joined : (s.buffer ++ x ∷ []) ++ v ≡ s.buffer ++ x ∷ v = append_assoc s.buffer (x ∷ []) v in
    let r =
      header_walk v rest fuel k (fed s (x ∷ []) left) os
        (omega (arith, length-append s.buffer (x ∷ []))) (omega arith) full_left flat_left
        (ap index_in joined ∙ i) (e ∙ ap length (sym joined)) in
    record {
      left = r.left;
      ends =
          step
          ∙ r.ends
          ∙ ap (λ b. (ok (some (take k b)), record s { incoming = r.left; buffer = [] })) joined;
      whole = r.whole;
      full = r.full;
    }

-- `_read_header` on a header of one line, with an empty buffer
pub read_header-Ends :
    (header rest : Bytes) (s : MessageStream)
    → NoReturn header
    → length header + 3 ≤ max_header_bytes
    → s.buffer ≡ []
    → AllFull s.incoming
    → flat s.incoming ≡ header ++ (header_terminator ++ rest)
    → Ends (read_header s) (ok (some header)) s rest
unfolding read_header index_in goes_on
read_header-Ends header rest s n l b f h =
    let v : Bytes = header ++ header_terminator in
    let at_end : index_in (s.buffer ++ v) ≡ some (length header + 0) =
      ap (λ x. index_in (x ++ v)) b ∙ index_in-some header_terminator 0 header n refl in
    let same : take (length header + 0) (s.buffer ++ v) ≡ header =
      ap (λ x. take (length header + 0) (x ++ v)) b
      ∙ take-length header_terminator header (length header + 0) (omega arith) in
    subst (λ x. Ends (header_loop (max_header_bytes + 2) s) (ok (some x)) s rest) same
      (header_walk v rest (max_header_bytes + 2) (length header + 0) s
        (subst (λ x. Opens x v) (sym b) (Opens-header [] header tt n))
        (omega (arith, ap length b, length-append header header_terminator))
        (omega (arith, length-append header header_terminator)) f
        (h ∙ sym (append_assoc header header_terminator rest)) at_end
        (omega
          (arith, ap length b, length-append s.buffer v, length-append header header_terminator)))
