-- ===== src/Dap/Protocol/Reading/Body.antt =====
-- `_read_exactly` of dap/protocol.py, over a stream that arrives in any pieces.
use quin_lang.Dap.Protocol.Searching.{drop-length, take-length}
use quin_lang.Prelude.{
  [], ap, append-nil, append_assoc, arith, drop, length, length-append, refl, some, subst, suc, sym,
  take, zero, ℕ, ◌++◌, ◌+◌, ◌-◌, ◌<◌, ◌∙◌, ◌∷◌, ◌≡◌, ◌≤◌,
}
use quin_lang.Dap.Protocol.{Bytes, MessageStream, body_more, exact_loop, read_chunk, read_exactly}
use quin_lang.Dap.Protocol.Reading.{AllFull, Ends, fed, flat, read_chunk-Delivers}

-- a first part that is no longer than the first part of the other reading
prefix :
    (xs ys v rest : Bytes)
    → xs ++ ys ≡ v ++ rest
    → length xs ≤ length v
    → (w : Bytes) × (v ≡ xs ++ w) × (ys ≡ w ++ rest)
prefix [] ys v rest h l = (v, refl, h)
prefix (x ∷ xs) ys [] rest h l = absurd (omega arith)
prefix (x ∷ xs) ys (y ∷ v) rest h l =
    let shorter : length xs ≤ length v = omega arith in
    let (w, a, b) = prefix xs ys v rest (cc) shorter in
    (w, (let e : x ≡ y = cc in ap (λ z. z ∷ v) (sym e)) ∙ ap (λ z. x ∷ z) a, b)

exact_done :
    (fuel count : ℕ) (s : MessageStream)
    → count ≡ length s.buffer
    → exact_loop (suc fuel) count s
      ≡ (some (take count s.buffer), record s { buffer = drop count s.buffer })
unfolding exact_loop
exact_done fuel count s e = ground arith

exact_goes_on :
    (fuel count : ℕ) (s : MessageStream)
    → length s.buffer < count
    → exact_loop (suc fuel) count s
      ≡ body_more (λ t. exact_loop fuel count t) s (read_chunk (count - length s.buffer) s.incoming)
unfolding exact_loop
exact_goes_on fuel count s l = ground arith

-- the whole of the body loop
exact_walk :
    (fuel count : ℕ) (v rest : Bytes) (s : MessageStream)
    → length s.buffer + length v ≡ count
    → length v < fuel
    → AllFull s.incoming
    → flat s.incoming ≡ v ++ rest
    → Ends (exact_loop fuel count s) (some (s.buffer ++ v)) s rest
unfolding body_more
exact_walk zero count v rest s e l f h = absurd (omega arith)
exact_walk (suc fuel) count [] rest s e l f h = record {
  left = s.incoming;
  ends =
      exact_done fuel count s (omega arith)
      ∙ ap (λ b. (some (take count b), record s { buffer = drop count b }))
          (sym (append-nil s.buffer))
      ∙ ap (λ b. (some b, record s { buffer = drop count (s.buffer ++ []) }))
          (take-length [] s.buffer count (omega arith) ∙ sym (append-nil s.buffer))
      ∙ ap (λ b. (some (s.buffer ++ []), record s { buffer = b }))
          (drop-length [] s.buffer count (omega arith));
  whole = h;
  full = f;
}
exact_walk (suc fuel) count (x ∷ v) rest s e l f h =
    let d = read_chunk-Delivers (length v) x (v ++ rest) s.incoming f h in
    let short : length (d.first ∷ d.others) ≤ length (x ∷ v) = omega (arith, d.short) in
    let (w, split, flat_left) =
      prefix (d.first ∷ d.others) (flat d.left) (x ∷ v) rest (d.whole ∙ h) short in
    let wanted : count - length s.buffer ≡ suc (length v) = omega arith in
    let joined : (s.buffer ++ d.first ∷ d.others) ++ w ≡ s.buffer ++ x ∷ v =
      append_assoc s.buffer (d.first ∷ d.others) w ∙ ap (λ z. s.buffer ++ z) (sym split) in
    let r =
      exact_walk fuel count w rest (fed s (d.first ∷ d.others) d.left)
        (omega (
          arith,
          ap length joined,
          length-append s.buffer (x ∷ v),
          length-append (s.buffer ++ d.first ∷ d.others) w,
        ))
        (omega (arith, ap length split, length-append (d.first ∷ d.others) w)) d.full flat_left in
    record {
      left = r.left;
      ends =
          exact_goes_on fuel count s (omega arith)
          ∙ ap (λ n. body_more (λ t. exact_loop fuel count t) s (read_chunk n s.incoming)) wanted
          ∙ ap (body_more (λ t. exact_loop fuel count t) s) d.given
          ∙ r.ends
          ∙ ap (λ b. (some b, record s { incoming = r.left; buffer = [] })) joined;
      whole = r.whole;
      full = r.full;
    }

-- `_read_exactly` with an empty buffer
pub read_exactly-Ends :
    (body rest : Bytes) (s : MessageStream)
    → s.buffer ≡ []
    → AllFull s.incoming
    → flat s.incoming ≡ body ++ rest
    → Ends (read_exactly (length body) s) (some body) s rest
unfolding read_exactly
read_exactly-Ends body rest s b f h =
    subst (λ x. Ends (exact_loop (suc (length body)) (length body) s) (some x) s rest)
      (ap (λ x. x ++ body) b)
      (exact_walk (suc (length body)) (length body) body rest s (omega (arith, ap length b))
        (omega arith) f h)
