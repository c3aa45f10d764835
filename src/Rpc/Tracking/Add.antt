-- ===== src/Rpc/Tracking/Add.antt =====
-- The request to add processes comes back as it was sent.
use mathlib.Core.List.{append-nil, append_assoc}
use ubturbo.Rpc.Requests.RoundTrip.{piece-Exact, int-head}
use ubturbo.Rpc.Bytes.{
  int_layout, length-array_bytes, array_bytes, le_bytes, drop, drop-all, drop-append, drop-drop,
}
use ubturbo.Rpc.Buffer.Laws.{total, content, length-drop, copy_pieces-prefix}
use ubturbo.Rpc.Tracking.{
  scaled, array_piece, add_arrays, add_scan_time, add_duration, encode_add_tracking_request,
  decode_add_tracking_request,
}
use ubturbo.Prelude.{
  ◌++◌, ◌<◌, false, ◌+◌, refl, ℕ, ◌^◌, ◌*◌, arith, ◌≤◌, some, List, ◌≡◌, ◌∷◌, [], length, All, u64,
  ltb, ◌-◌, length-append,
}
use ubturbo.Rpc.Buffer.{got, Runtime, IsLawful, Buffer, received, piece, returned}
use ubturbo.Rpc.Tracking.Arrays.{scaled_small, array_piece-Exact, array-head}

module _ (R : Runtime) (lawful : IsLawful R) (buffer : Buffer) (bs : List ℕ) (len : ℕ)
    (pos : 0 < len) (small : len ≤ 40) (pids : List ℕ) (enough : length pids ≡ len)
    (fits : All int_layout.Fits pids) where
  module _ (times periods : List ℕ) (times_enough : length times ≡ len)
      (periods_enough : length periods ≡ len) (scan_type : ℕ)
      (new : R.new_bytes (8 + 12 * len) ≡ some bs) where
    -- What the encoder of the add request sends.
    add-exact :
        encode_add_tracking_request R buffer pids times periods len scan_type
        ≡ returned
            (record {
              data_bytes = some (
                  le_bytes 4 len
                  ++ (le_bytes 4 scan_type
                      ++ (array_bytes int_layout pids
                          ++ (array_bytes int_layout times ++ array_bytes int_layout periods))));
              len = 8 + 12 * len;
              with_free = buffer.with_free;
            })
            0
    unfolding add_arrays add_scan_time add_duration
    add-exact =
        let array = scaled_small len small in
        let size = u64 (8 + scaled 4 len + scaled 4 len + scaled 4 len) in
        let known : size ≡ 8 + 12 * len = omega arith in
        let memory : R.new_bytes size ≡ some bs = rw known new in
        let bytes : length bs ≡ size = lawful.new-length size bs memory in
        let head =
          piece int_layout len
          ∷ piece int_layout scan_type
          ∷ array_piece int_layout len pids
          ∷ [] in
        let p = array_piece int_layout len times in
        let q = array_piece int_layout len periods in
        let after = drop (total head) bs in
        let later = drop (total (p ∷ [])) after in
        let p_exact = array_piece-Exact len times pos small times_enough in
        let q_exact = array_piece-Exact len periods pos small periods_enough in
        let sent = length-array_bytes int_layout pids in
        let sent_p = length-array_bytes int_layout times in
        let left : length after ≡ size - total head = omega (arith, length-drop (total head) bs) in
        let left_p : length later ≡ size - total head - p.count =
          omega (arith, length-drop (total (p ∷ [])) after) in
        let ds_length : length (content head) ≡ 8 + 4 * len =
          omega (arith, sent, length-append (array_bytes int_layout pids) []) in
        rw
          (
            memory,
            copy_pieces-prefix R lawful size head [] bs 0 bs
                (
                  piece-Exact int_layout len,
                  (
                    piece-Exact int_layout scan_type,
                    (array_piece-Exact len pids pos small enough, tt),
                  ),
                )
                (omega arith) (omega arith) refl (omega arith) (omega arith),
            copy_pieces-prefix R lawful size (p ∷ []) (content head) after (8 + scaled 4 len)
                (content head ++ after) (p_exact, tt) (omega arith) (omega arith) refl (omega arith)
                (omega arith),
            copy_pieces-prefix R lawful size (q ∷ []) (content head ++ content (p ∷ [])) later
                (8 + scaled 4 len + scaled 4 len) ((content head ++ content (p ∷ [])) ++ later)
                (q_exact, tt) (omega arith)
                (omega (
                  arith,
                  length-append (content head) (content (p ∷ [])),
                  length-append (array_bytes int_layout times) [],
                ))
                refl
                (omega (
                  arith,
                  length-append (content head) (content (p ∷ [])),
                  length-append (array_bytes int_layout times) [],
                ))
                (omega arith),
            drop-all (total (q ∷ [])) later (omega arith),
            known,
            append-nil (array_bytes int_layout pids),
            append-nil (array_bytes int_layout times),
            append-nil (array_bytes int_layout periods),
            append-nil (
                (array_bytes int_layout pids ++ array_bytes int_layout times)
                ++ array_bytes int_layout periods),
            append_assoc (array_bytes int_layout pids) (array_bytes int_layout times)
                (array_bytes int_layout periods),
          )
          refl

    module _ (times_fit : All int_layout.Fits times) (periods_fit : All int_layout.Fits periods)
        (type_fits : scan_type < 2 ^ 32) where
      pub add-round_trip :
          received
            (decode_add_tracking_request R)
            (encode_add_tracking_request R buffer pids times periods len scan_type)
          ≡ some (got (pids, times, periods, len, scan_type))
      unfolding decode_add_tracking_request
      add-round_trip =
          let array = scaled_small len small in
          let all_times = array_bytes int_layout times in
          let all_periods = array_bytes int_layout periods in
          let rest = array_bytes int_layout pids ++ (all_times ++ all_periods) in
          let before = le_bytes 4 len ++ (le_bytes 4 scan_type ++ array_bytes int_layout pids) in
          let wanted = u64 (8 + scaled 4 len + scaled 4 len + scaled 4 len) in
          let short : ltb (8 + 12 * len) 4 ≡ false = ground arith in
          let long : ltb (8 + 12 * len) wanted ≡ false = ground arith in
          rw
            (
              add-exact,
              short,
              int-head len (le_bytes 4 scan_type ++ rest) (omega arith),
              long,
              lawful.memcpy_s-fits 160 (scaled 4 len) (omega arith) (omega arith) (omega arith),
              int-head scan_type rest type_fits,
              array-head pids (all_times ++ all_periods) len enough fits,
              array,
              ← drop-drop (8 + 4 * len) (4 * len) (8 + 4 * len + 4 * len)
                  (le_bytes 4 len ++ (le_bytes 4 scan_type ++ rest)) refl,
              drop-append (8 + 4 * len) before (all_times ++ all_periods)
                  (omega (arith, length-array_bytes int_layout pids)),
              drop-append (4 * len) all_times all_periods
                  (omega (arith, length-array_bytes int_layout times)),
              array-head times all_periods len times_enough times_fit,
              ← append-nil all_periods,
              array-head periods [] len periods_enough periods_fit,
            )
            refl
