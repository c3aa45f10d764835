-- ===== src/Rpc/Queries/RoundTrip.antt =====
-- The responses of the queries come back from their decoders as they were sent.
use ubturbo.Rpc.Requests.RoundTrip.{piece-Exact, int-head, ltb_self}
use native.Mathlib.Decide.{dec_lt}
use native.Mathlib.Nat.{mul_comm}
use ubturbo.Rpc.Queries.{
  decode_query_vm_freq_response, encode_query_vm_freq_response,
  decode_query_process_config_response, encode_query_process_config_response,
  decode_query_remote_numa_freq_response, encode_query_remote_numa_freq_response,
}
use mathlib.Core.Path.{subst}
use ubturbo.Rpc.Buffer.Laws.{IsExact, encode-exact}
use ubturbo.Prelude.{
  List, ℕ, ◌∷◌, ◌+◌, [], arith, ◌≤◌, ◌++◌, ◌<◌, some, ◌*◌, true, ◌^◌, false, refl, ◌≡◌, ltb, ◌==◌,
  All, length, ◌||◌, is_negative, int_lt,
}
use ubturbo.Rpc.Buffer.{got, Runtime, value_at, IsLawful, Buffer, received, piece}
use ubturbo.Rpc.Bytes.{
  Layout, int_layout, u16_layout, u64_layout, array_of, le_bytes, array_bytes, le_value-le_bytes,
  length-array_bytes, array_of-array_bytes,
}

u16-head : (n : ℕ) (rest : List ℕ) → n < 2 ^ 16 → value_at u16_layout 0 (le_bytes 2 n ++ rest) ≡ n
u16-head n rest h = le_value-le_bytes 2 n rest h

array_head :
    {P : Type 0} (L : Layout P) (ps : List P) (n : ℕ)
    → length ps ≡ n
    → All L.Fits ps
    → array_of L n (array_bytes L ps ++ []) ≡ ps
array_head L ps n h fits =
    subst (λ k. array_of L k (array_bytes L ps ++ []) ≡ ps) h (array_of-array_bytes L ps [] fits)

array-Exact :
    {P : Type 0} (L : Layout P) (ps : List P) (n : ℕ)
    → 0 < n
    → length ps ≡ n
    → IsExact (record { count = n * L.size; source = array_bytes L ps })
array-Exact L ps n pos h =
    (grind (arith, L.size_pos), rw (length-array_bytes L ps, h) (mul_comm L.size n))

size_small : (size n : ℕ) → size ≤ 10000000 → n ≤ 40 → size * n ≤ 400000000
size_small size n h k = grind arith

empty_lem : {P : Type 0} (ps : List P) (n : ℕ) → length ps ≡ n → n ≡ 0 → ps ≡ []
empty_lem [] n h k = refl
empty_lem (p ∷ ps) n h k = absurd (omega arith)

module _ (R : Runtime) (lawful : IsLawful R) (buffer : Buffer) (bs : List ℕ) (n r : ℕ)
    (r_fits : r < 2 ^ 32) where
  -- A reply of no element: the return value and the length.
  vm_freq-empty :
      R.new_bytes 8 ≡ some bs
      → received (decode_query_vm_freq_response R) (encode_query_vm_freq_response R buffer [] 0 r)
        ≡ some (got ([], 0, r))
  vm_freq-empty new =
      rw
        (
          encode-exact R lawful buffer 8 true (piece int_layout r ∷ piece int_layout 0 ∷ []) bs
              (piece-Exact int_layout r, (piece-Exact int_layout 0, tt)) (omega arith) refl new,
          int-head r (le_bytes 4 0 ++ []) r_fits,
        )
        refl

  config-empty :
      {P : Type 0} (L : Layout P)
      → R.new_bytes (8 + L.size * 0) ≡ some bs
      → received
          (λ recv. decode_query_process_config_response R recv L)
          (encode_query_process_config_response R buffer L [] 0 r)
        ≡ some (got ([], 0, r))
  config-empty L new =
      let long : ltb (8 + L.size * 0) 8 ≡ false = ground arith in
      rw
        (
          encode-exact R lawful buffer (8 + L.size * 0) true
              (piece int_layout r ∷ piece int_layout 0 ∷ []) bs
              (piece-Exact int_layout r, (piece-Exact int_layout 0, tt)) (omega arith) (omega arith)
              new,
          long,
          int-head r (le_bytes 4 0 ++ []) r_fits,
        )
        refl

  vm_freq-round_trip :
      (freq : List ℕ)
      → length freq ≡ n
      → All u16_layout.Fits freq
      → n ≤ 1000000000
      → R.new_bytes (8 + n * 2) ≡ some bs
      → received (decode_query_vm_freq_response R) (encode_query_vm_freq_response R buffer freq n r)
        ≡ some (got (freq, n, r))
  vm_freq-round_trip freq e fits small new = elim (dec_lt 0 n) [
    | yes pos ↦
        let nonzero : (n == 0) ≡ false = ground arith in
        let short : ltb (8 + n * 2) 8 ≡ false = ground arith in
        let rest = array_bytes u16_layout freq ++ [] in
        rw
          (
            nonzero,
            encode-exact R lawful buffer (8 + n * 2) true
                (piece int_layout r
                  ∷ piece int_layout n
                  ∷ record { count = n * 2; source = array_bytes u16_layout freq }
                  ∷ [])
                bs
                (
                  piece-Exact int_layout r,
                  (piece-Exact int_layout n, (array-Exact u16_layout freq n pos e, tt)),
                )
                (omega arith) (omega arith) new,
            short,
            int-head r (le_bytes 4 n ++ rest) r_fits,
            int-head n rest (omega arith),
            nonzero,
            ltb_self (8 + n * 2),
            lawful.memcpy_s-fits (n * 2) (n * 2) (omega arith) (omega arith) (omega arith),
            array_head u16_layout freq n e fits,
          )
          refl
    | no zero_n ↦
        let none_left : n ≡ 0 = omega arith in
        rw (none_left, empty_lem freq n e none_left) (vm_freq-empty (rw none_left at new))
  ]

  pub config-round_trip :
      {P : Type 0} (L : Layout P) (payload : List P)
      → length payload ≡ n
      → All L.Fits payload
      → n ≤ 40
      → L.size ≤ 10000000
      → R.new_bytes (8 + L.size * n) ≡ some bs
      → received
          (λ recv. decode_query_process_config_response R recv L)
          (encode_query_process_config_response R buffer L payload n r)
        ≡ some (got (payload, n, r))
  config-round_trip L payload e fits small struct_small new =
      let allowed : (is_negative n || int_lt 40 n) ≡ false = ground arith in
      let size : L.size * n ≤ 400000000 = size_small L.size n struct_small small in
      elim (dec_lt 0 n) [
        | yes pos ↦
            let nonzero : (n == 0) ≡ false = ground arith in
            let short : ltb (8 + L.size * n) 8 ≡ false = ground arith in
            let rest = array_bytes L payload ++ [] in
            rw
              (
                allowed,
                nonzero,
                encode-exact R lawful buffer (8 + L.size * n) true
                    (piece int_layout r
                      ∷ piece int_layout n
                      ∷ record { count = n * L.size; source = array_bytes L payload }
                      ∷ [])
                    bs
                    (
                      piece-Exact int_layout r,
                      (piece-Exact int_layout n, (array-Exact L payload n pos e, tt)),
                    )
                    (omega arith) (omega (arith, mul_comm L.size n)) new,
                short,
                int-head r (le_bytes 4 n ++ rest) r_fits,
                int-head n rest (omega arith),
                allowed,
                nonzero,
                mul_comm L.size n,
                ltb_self (8 + n * L.size),
                lawful.memcpy_s-fits (n * L.size) (n * L.size) (array-Exact L payload n pos e).0
                    (omega (arith, mul_comm L.size n)) (omega arith),
                array_head L payload n e fits,
              )
              refl
        | no zero_n ↦
            let none_left : n ≡ 0 = omega arith in
            rw (none_left, empty_lem payload n e none_left) (config-empty L (rw none_left at new))
      ]

  numa_freq-round_trip :
      (freq : List ℕ)
      → length freq ≡ n
      → All u64_layout.Fits freq
      → 0 < n
      → n ≤ 18
      → R.new_bytes (2 + 8 * n + 4) ≡ some bs
      → received
          (decode_query_remote_numa_freq_response R)
          (encode_query_remote_numa_freq_response R buffer freq n r)
        ≡ some (got (freq, n, r))
  numa_freq-round_trip freq e fits pos small new =
      let allowed : ltb 18 n ≡ false = ground arith in
      let short : ltb (2 + 8 * n + 4) 6 ≡ false = ground arith in
      let long : ltb (2 + 8 * n + 4) (6 + n * 8) ≡ false = ground arith in
      let rest = array_bytes u64_layout freq ++ [] in
      rw
        (
          allowed,
          encode-exact R lawful buffer (2 + 8 * n + 4) true
              (piece int_layout r
                ∷ piece u16_layout n
                ∷ record { count = n * 8; source = array_bytes u64_layout freq }
                ∷ [])
              bs
              (
                piece-Exact int_layout r,
                (piece-Exact u16_layout n, (array-Exact u64_layout freq n pos e, tt)),
              )
              (omega arith) (omega arith) new,
          short,
          u16-head n rest (omega arith),
          allowed,
          long,
          lawful.memcpy_s-fits (n * 8) (n * 8) (omega arith) (omega arith) (omega arith),
          int-head r (le_bytes 2 n ++ rest) r_fits,
          array_head u64_layout freq n e fits,
        )
        refl

module _ (R : Runtime) (lawful : IsLawful R) (buffer : Buffer) (r : ℕ) (r_fits : r < 2 ^ 32)
    {P : Type 0} (L : Layout P) (struct_small : L.size ≤ 10000000) where
  -- The responses of the three queries come back as they were sent: up to 10^9 frequencies of a
  -- process, none included, up to 40 process configurations, and those of 1 to 18 remote nodes.
  pub replies-round_trip :
      (freq nodes : List ℕ) (payload : List P) (a b c : List ℕ)
      → All u16_layout.Fits freq
      → length freq ≤ 1000000000
      → All L.Fits payload
      → length payload ≤ 40
      → All u64_layout.Fits nodes
      → 0 < length nodes
      → length nodes ≤ 18
      → R.new_bytes (8 + length freq * 2) ≡ some a
      → R.new_bytes (8 + L.size * length payload) ≡ some b
      → R.new_bytes (2 + 8 * length nodes + 4) ≡ some c
      → (received
            (decode_query_vm_freq_response R)
            (encode_query_vm_freq_response R buffer freq (length freq) r)
          ≡ some (got (freq, length freq, r)))
        × (received
              (λ recv. decode_query_process_config_response R recv L)
              (encode_query_process_config_response R buffer L payload (length payload) r)
            ≡ some (got (payload, length payload, r)))
        × (received
              (decode_query_remote_numa_freq_response R)
              (encode_query_remote_numa_freq_response R buffer nodes (length nodes) r)
            ≡ some (got (nodes, length nodes, r)))
  replies-round_trip freq nodes payload a b c fit_f small_f fit_p small_p fit_n pos_n small_n new_f
        new_p new_n =
      (
        vm_freq-round_trip R lawful buffer a (length freq) r r_fits freq refl fit_f small_f new_f,
        config-round_trip R lawful buffer b (length payload) r r_fits L payload refl fit_p small_p
            struct_small new_p,
        numa_freq-round_trip R lawful buffer c (length nodes) r r_fits nodes refl fit_n pos_n
            small_n new_n,
      )
