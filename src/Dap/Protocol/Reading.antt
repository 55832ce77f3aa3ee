-- ===== src/Dap/Protocol/Reading.antt =====
-- The pieces in which a stream arrives, as the loops of dap/protocol.py read them.
pub mod Header
pub mod Body
use quin_lang.Prelude.{
  Bool-cases, List, [], ap, append_assoc, arith, drop, false, inl, inr, leb, length, length-take,
  refl, suc, sym, take, take-append-drop, zero, ℕ, ◌++◌, ◌<◌, ◌∙◌, ◌∷◌, ◌≡◌,
}
use quin_lang.Dap.Protocol.{Bytes, MessageStream, is_empty, read_chunk}

-- what the pieces hold together
abbrev pub flat : List Bytes → Bytes
flat [] = []
flat (c ∷ cs) = c ++ flat cs

-- No piece is empty: an empty read is the end of the stream.
abbrev pub AllFull : List Bytes → Type 0
AllFull [] = Unit
AllFull (c ∷ cs) = (is_empty c ≡ false) × AllFull cs

-- A read has given some bytes, at most n, and has left the rest.
pub record Delivers (n : ℕ) (cs : List Bytes) : Type 0 where
  pub first : ℕ
  pub others : Bytes
  pub left : List Bytes
  pub given : read_chunk n cs ≡ (first ∷ others, left)
  pub whole : first ∷ others ++ flat left ≡ flat cs
  pub short : length others < n
  pub full : AllFull left

pub is_empty-drop : (k : ℕ) (d : Bytes) → k < length d → is_empty (drop k d) ≡ false
unfolding is_empty
is_empty-drop k [] h = absurd (omega arith)
is_empty-drop zero (x ∷ d) h = refl
is_empty-drop (suc k) (x ∷ d) h = is_empty-drop k d (omega arith)

pub read_chunk-Delivers :
    (n x : ℕ) (xs : Bytes) (cs : List Bytes) → AllFull cs → flat cs ≡ x ∷ xs → Delivers (suc n) cs
unfolding read_chunk is_empty
read_chunk-Delivers n x xs [] f h = cc
read_chunk-Delivers n x xs ([] ∷ cs) (e, f) h = cc
read_chunk-Delivers n x xs ((b ∷ bs) ∷ cs) (e, f) h =
    elim (Bool-cases (leb (length (b ∷ bs)) (suc n))) [
      | inl l ↦ record {
        first = b;
        others = bs;
        left = cs;
        given = rw l refl;
        whole = refl;
        short = ground arith;
        full = f;
      }
      | inr l ↦ record {
        first = b;
        others = take n bs;
        left = drop n bs ∷ cs;
        given = rw l refl;
        whole =
            ap (λ v. b ∷ v)
              (sym (append_assoc (take n bs) (drop n bs) (flat cs))
                ∙ ap (λ v. v ++ flat cs) (take-append-drop n bs));
        short = omega (arith, length-take n bs);
        full = (is_empty-drop n bs (ground arith), f);
      }
    ]

-- the stream as one piece has left it
abbrev pub fed : MessageStream → Bytes → List Bytes → MessageStream
fed s v left = record s { incoming = left; buffer = s.buffer ++ v }

-- From a stream on which a loop goes on, it ends with this result in front of what is left.
pub record Ends {A : Type 0} (r : A × MessageStream) (a : A) (s : MessageStream) (rest : Bytes)
    : Type 0 where
  pub left : List Bytes
  pub ends : r ≡ (a, record s { incoming = left; buffer = [] })
  pub whole : flat left ≡ rest
  pub full : AllFull left
