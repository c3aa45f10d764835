-- ===== src/Rpc/Buffer/Laws.antt =====
-- What the common steps of the codecs leave in the buffer.
use mathlib.Core.List.{append_assoc, append-nil}
use ubturbo.Rpc.Bytes.{drop, take-all, take, drop-all, drop-drop}
use ubturbo.Rpc.Buffer.{
  fault, returned, write_at, overwrite, Piece, Runtime, IsLawful, copy_pieces, memory_limit, Buffer,
  encode, encode_into, smap_reset_buf, copied_or_reset, Encoded, Decoded, Accepts, from_bytes,
  from_data, copy_out,
}
use ubturbo.Prelude.{
  ◌≡◌, ◌≤◌, zero, arith, ◌++◌, suc, ◌∷◌, ap, ◌<◌, ◌-◌, List, [], ◌+◌, refl, ℕ, length, All, none,
  Bool, ◌||◌, some, length-append, Option,
}

overwrite-fits :
    (ds ps : List ℕ) → length ps ≤ length ds → overwrite ds ps ≡ ps ++ drop (length ps) ds
overwrite-fits ds [] h = refl
overwrite-fits [] (p ∷ ps) h = absurd (omega arith)
overwrite-fits (d ∷ ds) (p ∷ ps) h = ap (p ∷◌) (overwrite-fits ds ps (omega arith))

write_at-append :
    (xs ds ps : List ℕ)
    → length ps ≤ length ds
    → write_at (xs ++ ds) (length xs) ps ≡ xs ++ (ps ++ drop (length ps) ds)
write_at-append [] ds ps h = overwrite-fits ds ps h
write_at-append (x ∷ xs) ds ps h = ap (x ∷◌) (write_at-append xs ds ps h)

pub length-drop : (n : ℕ) (xs : List ℕ) → length (drop n xs) ≡ length xs - n
length-drop zero xs = omega arith
length-drop (suc n) [] = omega arith
length-drop (suc n) (x ∷ xs) = omega (arith, length-drop n xs)

-- A piece whose `count` is the length of its source, and not 0.
abbrev pub IsExact : Piece → Type 0
IsExact p = (0 < p.count) × (length p.source ≡ p.count)

abbrev pub total : List Piece → ℕ
total [] = 0
total (p ∷ ps) = p.count + total ps

abbrev pub content : List Piece → List ℕ
content [] = []
content (p ∷ ps) = p.source ++ content ps

-- What the caller of an encoder relies on: bytes with the return value 0, no memory with any other.
abbrev pub IsSettled : Encoded → Type 0
IsSettled (returned buffer zero) = (bs : List ℕ) × (buffer.data_bytes ≡ some bs)
IsSettled (returned buffer (suc code)) = buffer.data_bytes ≡ none
IsSettled fault = ⊥

module _ (R : Runtime) (buffer : Buffer) (size : ℕ) (frees : Bool) where
  copied_or_reset-Settled :
      (result : ℕ × List ℕ) → IsSettled (copied_or_reset R buffer size frees result)
  unfolding smap_reset_buf
  copied_or_reset-Settled (zero, bs) = (bs, refl)
  copied_or_reset-Settled (suc code, bs) = refl

  pub encode_into-Settled :
      (ps : List Piece) (memory : Option (List ℕ))
      → IsSettled (encode_into R buffer size frees ps memory)
  unfolding encode_into
  encode_into-Settled ps none = refl
  encode_into-Settled ps (some bs) = copied_or_reset-Settled (copy_pieces R size ps 0 bs)

module _ (R : Runtime) (lawful : IsLawful R) where
  -- Exact pieces for which there is room stand one behind the other, before the bytes left over.
  pub copy_pieces-prefix :
      (size : ℕ) (ps : List Piece) (ds rest : List ℕ) (copied : ℕ) (bs : List ℕ)
      → All IsExact ps
      → size ≤ memory_limit
      → copied ≡ length ds
      → bs ≡ ds ++ rest
      → length ds + length rest ≡ size
      → total ps ≤ length rest
      → copy_pieces R size ps copied bs ≡ (0, (ds ++ content ps) ++ drop (total ps) rest)
  unfolding copy_pieces
  copy_pieces-prefix size [] ds rest copied bs h k c b e t = rw (b, append-nil ds) refl
  copy_pieces-prefix size (p ∷ ps) ds rest copied bs h k c b e t =
      let fits : length p.source ≤ length rest = omega (arith, h.0.1) in
      let written : write_at bs copied (take p.count p.source)
          ≡ (ds ++ p.source) ++ drop (length p.source) rest =
        rw (
          c,
          b,
          take-all p.count p.source h.0.1,
          write_at-append ds rest p.source fits,
          append_assoc ds p.source (drop (length p.source) rest),
        ) in
      rw (
        lawful.memcpy_s-fits (size - copied) p.count (omega arith) (omega arith) (omega arith),
        copy_pieces-prefix size ps (ds ++ p.source) (drop (length p.source) rest) (copied + p.count)
            (write_at bs copied (take p.count p.source)) h.1 k
            (omega (arith, length-append ds p.source, h.0.1)) written
            (omega (arith, length-append ds p.source, length-drop (length p.source) rest))
            (omega (arith, length-drop (length p.source) rest, h.0.1)),
        append_assoc ds p.source (content ps),
        drop-drop (length p.source) (total ps) (p.count + total ps) rest (omega (arith, h.0.1)),
      )

  -- Exact pieces of the right total size are sent as they are, one behind the other.
  pub encode-exact :
      (buffer : Buffer) (size : ℕ) (frees : Bool) (ps : List Piece) (bs : List ℕ)
      → All IsExact ps
      → size ≤ memory_limit
      → total ps ≡ size
      → R.new_bytes size ≡ some bs
      → encode R buffer size frees ps
        ≡ returned
            (record {
              data_bytes = some (content ps);
              len = size;
              with_free = frees || buffer.with_free;
            })
            0
  unfolding encode_into
  encode-exact buffer size frees ps bs h k t new =
      let enough : length bs ≡ size = lawful.new-length size bs new in
      rw (
        new,
        copy_pieces-prefix size ps [] bs 0 bs h k (omega arith) refl (omega arith) (omega arith),
        drop-all (total ps) bs (omega arith),
        append-nil (content ps),
      )

-- What a decoder accepts, step by step.
module _ {κ} {V : Type 0} (P : V → Type κ) where
  from_bytes-Accepts :
      (f : List ℕ → Decoded V) (memory : Option (List ℕ))
      → ((bs : List ℕ) → memory ≡ some bs → Accepts P (f bs))
      → Accepts P (from_bytes f memory)
  from_bytes-Accepts f none h = tt
  from_bytes-Accepts f (some bs) h = h bs refl

  pub from_data-Accepts :
      (buffer : Buffer) (f : List ℕ → Decoded V)
      → ((bs : List ℕ) → buffer.data_bytes ≡ some bs → Accepts P (f bs))
      → Accepts P (from_data buffer f)
  from_data-Accepts buffer f h = from_bytes-Accepts f buffer.data_bytes h

  pub copy_out-Accepts :
      (code : ℕ) (next : Decoded V) → (code ≡ 0 → Accepts P next) → Accepts P (copy_out code next)
  copy_out-Accepts zero next h = h refl
  copy_out-Accepts (suc code) next h = tt
