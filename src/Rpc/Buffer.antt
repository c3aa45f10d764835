-- ===== src/Rpc/Buffer.antt =====
-- TurboByteBuffer of include/turbo_def.h, and the steps that every codec of
-- src/smap/smap_handler_msg.cpp takes: allocate, copy the pieces one behind the other, set `len`.
-- An `int` that a codec returns is its bit pattern. The allocator and `memcpy_s` are parameters.
pub mod Laws
use ubturbo.Rpc.Bytes.{take, Layout, drop}
use ubturbo.Prelude.{
  ◌≡◌, ◌≤◌, zero, ◌≢◌, false, none, suc, ◌∷◌, ◌<◌, ◌-◌, some, List, [], ◌||◌, Bool, Option, ◌+◌, ℕ,
  if◌then◌else◌, ◌==◌, length, true,
}

-- What `new (std::nothrow) uint8_t[size]` gives (the bytes that lie there, or no memory), and what
-- `memcpy_s` returns for a `destMax` and a `count`.
pub record Runtime : Type 0 where
  pub new_bytes : ℕ → Option (List ℕ)
  pub memcpy_s : ℕ → ℕ → ℕ

-- SECUREC_MEM_MAX_LEN of the secure C library.
abbrev pub memory_limit : ℕ
memory_limit = 2147483647

-- The documented behaviour of both.
pub record IsLawful (R : Runtime) : Type 0 where
  pub new-length : (n : ℕ) (bs : List ℕ) → R.new_bytes n ≡ some bs → length bs ≡ n
  pub memcpy_s-fits :
      (dest_max count : ℕ)
      → 0 < dest_max
      → dest_max ≤ memory_limit
      → count ≤ dest_max
      → R.memcpy_s dest_max count ≡ 0
  pub memcpy_s-large : (dest_max count : ℕ) → dest_max < count → R.memcpy_s dest_max count ≢ 0

-- `with_free` tells that `freeFunc` is set.
pub record Buffer : Type 0 where
  pub data_bytes : Option (List ℕ)
  pub len : ℕ
  pub with_free : Bool

abbrev pub no_buffer : Buffer
no_buffer = record { data_bytes = none; len = 0; with_free = false }

abbrev pub einval_code : ℕ
einval_code = 4294967274

abbrev pub ipc_error : ℕ
ipc_error = 1

-- What an encoder leaves and returns; `fault` is a write through a null pointer.
pub data Encoded : Type 0 where
  returned : Buffer → ℕ → Encoded
  fault : Encoded

-- `SmapResetBuf`
unfoldable pub smap_reset_buf : Buffer → Buffer
smap_reset_buf buffer = record { data_bytes = none; len = 0; with_free = false }

-- A copy over the bytes from index `i` on; no byte is written behind the array.
abbrev pub overwrite : List ℕ → List ℕ → List ℕ
overwrite ds [] = ds
overwrite [] (p ∷ ps) = []
overwrite (d ∷ ds) (p ∷ ps) = p ∷ overwrite ds ps

abbrev pub write_at : List ℕ → ℕ → List ℕ → List ℕ
write_at ds zero ps = overwrite ds ps
write_at [] (suc i) ps = []
write_at (d ∷ ds) (suc i) ps = d ∷ write_at ds i ps

-- A source of a copy with the `count` that the call names.
pub record Piece : Type 0 where
  pub count : ℕ
  pub source : List ℕ

abbrev pub piece : {M : Type 0} → Layout M → M → Piece
piece L m = record { count = L.size; source = L.to_bytes m }

module _ (R : Runtime) where
  -- The copies in turn, each to the end of the one before, up to the first that fails.
  unfoldable pub copy_pieces : ℕ → List Piece → ℕ → List ℕ → ℕ × List ℕ
  copy_pieces size [] copied bs = (0, bs)
  copy_pieces size (p ∷ ps) copied bs =
      let code = R.memcpy_s (size - copied) p.count in
      let more =
        copy_pieces size ps (copied + p.count) (write_at bs copied (take p.count p.source)) in
      if code == 0 then more else (code, bs)

  abbrev pub copied_or_reset : Buffer → ℕ → Bool → ℕ × List ℕ → Encoded
  copied_or_reset buffer size frees (zero, bs) =
      returned (record { data_bytes = some bs; len = size; with_free = frees || buffer.with_free })
        0
  copied_or_reset buffer size frees (suc code, bs) = returned (smap_reset_buf buffer) (suc code)

  -- Copy and set `len` (and `freeFunc` where `frees`), when there is memory.
  unfoldable pub encode_into : Buffer → ℕ → Bool → List Piece → Option (List ℕ) → Encoded
  encode_into buffer size frees pieces none =
      returned (record buffer { data_bytes = none }) einval_code
  encode_into buffer size frees pieces (some bs) =
      copied_or_reset buffer size frees (copy_pieces size pieces 0 bs)

  abbrev pub encode : Buffer → ℕ → Bool → List Piece → Encoded
  encode buffer size frees pieces = encode_into buffer size frees pieces (R.new_bytes size)

-- What a decoder gives; `bad_read` is a read through a null pointer.
pub data Decoded (V : Type 0) : Type 0 where
  got : V → Decoded V
  refused : ℕ → Decoded V
  bad_read : Decoded V

-- The reads of a decoder, when `data` is not null.
abbrev pub from_bytes : {V : Type 0} → (List ℕ → Decoded V) → Option (List ℕ) → Decoded V
from_bytes f none = bad_read
from_bytes f (some bs) = f bs

abbrev pub from_data : {V : Type 0} → Buffer → (List ℕ → Decoded V) → Decoded V
from_data buffer f = from_bytes f buffer.data_bytes

abbrev pub has_data : Buffer → Bool
has_data buffer = elim buffer.data_bytes [ none ↦ false | some bs ↦ true ]

-- `memcpy_s` out of the buffer: what follows when it returns 0.
abbrev pub copy_out : {V : Type 0} → ℕ → Decoded V → Decoded V
copy_out zero next = next
copy_out (suc code) next = refused (suc code)

-- `*static_cast<T *>(data + offset)`
abbrev pub value_at : {M : Type 0} → Layout M → ℕ → List ℕ → M
value_at L offset bs = L.of_bytes (drop offset bs)

-- What the receiver's decoder makes of the bytes that an encoder sent; nothing is sent unless the
-- encoder returned 0.
abbrev pub received : {V : Type 0} → (Buffer → Decoded V) → Encoded → Option (Decoded V)
received decode (returned buffer zero) = some (decode buffer)
received decode (returned buffer (suc code)) = none
received decode fault = none

-- A property of what a decoder accepts.
abbrev pub Accepts {κ} : {V : Type 0} → (V → Type κ) → Decoded V → Type κ
Accepts P (got v) = P v
Accepts P (refused code) = Unit
Accepts P bad_read = Unit
