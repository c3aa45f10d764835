-- ===== src/Rpc/Tracking/Arrays.antt =====
-- The requests to remove processes and to enable their migration come back as they were sent.
use ubturbo.Rpc.Requests.RoundTrip.{piece-Exact, int-head, ltb_self}
use mathlib.Core.Path.{subst}
use ubturbo.Rpc.Bytes.{
  int_layout, array_of, length-array_bytes, array_bytes, array_of-array_bytes, le_bytes,
}
use ubturbo.Rpc.Buffer.Laws.{IsExact, encode-exact}
use ubturbo.Rpc.Tracking.{
  scaled, array_piece, decode_remove_tracking_request, encode_remove_tracking_request,
  decode_enable_migrate_request, encode_enable_migrate_request,
}
use ubturbo.Prelude.{
  ◌++◌, ◌<◌, false, ◌+◌, refl, ℕ, ◌^◌, ◌*◌, arith, ◌≤◌, some, List, ◌≡◌, ◌∷◌, [], length, All, u64,
  ltb,
}
use ubturbo.Rpc.Buffer.{got, Runtime, IsLawful, Buffer, received, piece}

-- The array of a `len` between 1 and 40.
pub scaled_small : (len : ℕ) → len ≤ 40 → scaled 4 len ≡ 4 * len
scaled_small len h = ground arith

pub array_piece-Exact :
    (len : ℕ) (xs : List ℕ)
    → 0 < len
    → len ≤ 40
    → length xs ≡ len
    → IsExact (array_piece int_layout len xs)
array_piece-Exact len xs pos small h = (
  omega (arith, scaled_small len small),
  omega (arith, scaled_small len small, length-array_bytes int_layout xs),
)

pub array-head :
    (xs rest : List ℕ) (len : ℕ)
    → length xs ≡ len
    → All int_layout.Fits xs
    → array_of int_layout len (array_bytes int_layout xs ++ rest) ≡ xs
array-head xs rest len h fits =
    subst (λ n. array_of int_layout n (array_bytes int_layout xs ++ rest) ≡ xs) h
      (array_of-array_bytes int_layout xs rest fits)

module _ (R : Runtime) (lawful : IsLawful R) (buffer : Buffer) (bs : List ℕ) (len : ℕ)
    (pos : 0 < len) (small : len ≤ 40) (pids : List ℕ) (enough : length pids ≡ len)
    (fits : All int_layout.Fits pids) where
  pub remove-round_trip :
      (flag : ℕ)
      → flag < 2 ^ 32
      → R.new_bytes (8 + 4 * len) ≡ some bs
      → received
          (decode_remove_tracking_request R)
          (encode_remove_tracking_request R buffer pids len flag)
        ≡ some (got (pids, len, flag))
  unfolding decode_remove_tracking_request
  remove-round_trip flag flag_fits new =
      let array = scaled_small len small in
      let size = u64 (8 + scaled 4 len) in
      let known : size ≡ 8 + 4 * len = omega arith in
      let memory : R.new_bytes size ≡ some bs = rw known new in
      let short : ltb size 4 ≡ false = ground arith in
      let rest = array_bytes int_layout pids ++ [] in
      rw
        (
          encode-exact R lawful buffer size false
              (piece int_layout len ∷ piece int_layout flag ∷ array_piece int_layout len pids ∷ [])
              bs
              (
                piece-Exact int_layout len,
                (piece-Exact int_layout flag, (array_piece-Exact len pids pos small enough, tt)),
              )
              (omega arith) (omega arith) memory,
          short,
          int-head len (le_bytes 4 flag ++ rest) (omega arith),
          ltb_self size,
          lawful.memcpy_s-fits 160 (scaled 4 len) (omega arith) (omega arith) (omega arith),
          int-head flag rest flag_fits,
          array-head pids [] len enough fits,
        )
        refl

  pub enable-round_trip :
      (enable flags : ℕ)
      → enable < 2 ^ 32
      → flags < 2 ^ 32
      → R.new_bytes (12 + 4 * len) ≡ some bs
      → received
          (decode_enable_migrate_request R)
          (encode_enable_migrate_request R buffer pids len enable flags)
        ≡ some (got (pids, len, enable, flags))
  unfolding decode_enable_migrate_request
  enable-round_trip enable flags enable_fits flags_fits new =
      let array = scaled_small len small in
      let size = u64 (12 + scaled 4 len) in
      let known : size ≡ 12 + 4 * len = omega arith in
      let memory : R.new_bytes size ≡ some bs = rw known new in
      let short : ltb size 4 ≡ false = ground arith in
      let rest = array_bytes int_layout pids ++ [] in
      rw
        (
          encode-exact R lawful (record buffer { len = size }) size false
              (piece int_layout len
                ∷ piece int_layout enable
                ∷ piece int_layout flags
                ∷ array_piece int_layout len pids
                ∷ [])
              bs
              (
                piece-Exact int_layout len,
                (
                  piece-Exact int_layout enable,
                  (piece-Exact int_layout flags, (array_piece-Exact len pids pos small enough, tt)),
                ),
              )
              (omega arith) (omega arith) memory,
          short,
          int-head len (le_bytes 4 enable ++ (le_bytes 4 flags ++ rest)) (omega arith),
          ltb_self size,
          lawful.memcpy_s-fits 160 (scaled 4 len) (omega arith) (omega arith) (omega arith),
          int-head enable (le_bytes 4 flags ++ rest) enable_fits,
          int-head flags rest flags_fits,
          array-head pids [] len enough fits,
        )
        refl
