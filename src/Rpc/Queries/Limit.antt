-- ===== src/Rpc/Queries/Limit.antt =====
-- A configuration query from the client's request to the answer of the server.
use ubturbo.Rpc.Queries.{
  smap_query_process_config_handler, decode_query_process_config_response,
  encode_query_process_config_response,
}
use ubturbo.Rpc.Queries.RoundTrip.{config-round_trip}
use ubturbo.Rpc.Requests.{decode_query_process_config_request, encode_query_process_config_request}
use ubturbo.Rpc.Buffer.Laws.{encode-exact}
use ubturbo.Rpc.Requests.RoundTrip.{piece-Exact, int-head}
use ubturbo.Rpc.Bytes.{Layout, int_layout, le_bytes}
use native.Mathlib.Decide.{dec_lt}
use ubturbo.Prelude.{
  List, true, ◌||◌, ◌<◌, ◌≤◌, ◌≡◌, ◌⊎◌, inl, inr, ℕ, arith, refl, int_lt, is_negative, ◌+◌, ◌*◌,
  ◌^◌, some, zero, suc, length, All, false, [], ◌∷◌, ◌++◌,
}
use ubturbo.Rpc.Buffer.{
  got, Runtime, Buffer, no_buffer, IsLawful, Encoded, Decoded, returned, fault, received, piece,
}
use ubturbo.Rpc.Server.{Handled, finished, turbo_error}

over_limit : (out : ℕ) → 40 < out → out < 2147483648 → (is_negative out || int_lt 40 out) ≡ true
over_limit out h k = ground arith

-- What decodes on the other side was encoded with 0.
received-returned :
    {V : Type 0} (decode : Buffer → Decoded V) (answer : Encoded) (v : V)
    → received decode answer ≡ some (got v)
    → (out : Buffer) × (answer ≡ returned out 0) × (decode out ≡ got v)
received-returned decode (returned out zero) v h = (out, refl, cc h)
received-returned decode (returned out (suc code)) v h = absurd (cc h)
received-returned decode fault v h = absurd (cc h)

config_request-round_trip :
    (R : Runtime) (lawful : IsLawful R) (bs : List ℕ) (nid in_len : ℕ)
    → nid < 2 ^ 32
    → in_len < 2 ^ 32
    → R.new_bytes 8 ≡ some bs
    → received decode_query_process_config_request
        (encode_query_process_config_request R no_buffer nid in_len)
      ≡ some (got (nid, in_len))
config_request-round_trip R lawful bs nid in_len h k new =
    rw
      (
        encode-exact R lawful (record no_buffer { len = 8 }) 8 false
            (piece int_layout nid ∷ piece int_layout in_len ∷ []) bs
            (piece-Exact int_layout nid, (piece-Exact int_layout in_len, tt)) (omega arith) refl
            new,
        int-head nid (le_bytes 4 in_len ++ []) h,
        int-head in_len [] k,
      )
      refl

module _ {S P : Type 0} (R : Runtime) (L : Layout P) where
  -- Up to 40 configurations come back to the client with their number and the return value; more of
  -- them are answered by TURBO_ERROR and no bytes.
  abbrev pub IsAnswered : List P → ℕ → S → Handled S → Type 0
  IsAnswered configs r s' h =
      ((length configs ≤ 40)
        × ((recv : Buffer) × (h ≡ finished 0 recv s')
            × (decode_query_process_config_response R recv L ≡ got (configs, length configs, r))))
      ⊎ ((40 < length configs) × (h ≡ finished turbo_error no_buffer s'))

  -- With memory on both sides, values that fit their types, structs of at most 10^7 bytes, and a library
  -- that gives as many configurations as it says, a query of the client for a positive `in_len`
  -- reaches the library as it was asked. When the library finds up to 40 configurations, the client gets them all, with their
  -- number and the library's return value; when it finds more, the handler returns TURBO_ERROR and no
  -- bytes, though the library has done its work.
  pub query_process_config-IsAnswered :
      (lawful : IsLawful R) (library : ℕ × ℕ → S → (List P × ℕ × ℕ) × S) (nid in_len r : ℕ)
      (s s' : S) (configs : List P) (question answer : List ℕ)
      → nid < 2 ^ 32
      → 0 < in_len
      → in_len < 2147483648
      → r < 2 ^ 32
      → All L.Fits configs
      → length configs < 2147483648
      → L.size ≤ 10000000
      → R.new_bytes 8 ≡ some question
      → R.new_bytes (8 + L.size * length configs) ≡ some answer
      → library (nid, in_len) s ≡ ((configs, length configs, r), s')
      → (send : Buffer) × (encode_query_process_config_request R no_buffer nid in_len
          ≡ returned send 0)
        × IsAnswered configs r s' (smap_query_process_config_handler R L library send s)
  query_process_config-IsAnswered lawful library nid in_len r s s' configs question answer fits_nid
        pos word fits_r fits many small memory memory' finds =
      let asked : int_lt 0 in_len ≡ true = ground arith in
      let (send, sent, arrives) =
        received-returned decode_query_process_config_request
          (encode_query_process_config_request R no_buffer nid in_len) (nid, in_len)
          (config_request-round_trip R lawful question nid in_len fits_nid (omega arith) memory) in
      (
        send,
        sent,
        elim (dec_lt 40 (length configs)) [
          | yes more ↦
              inr (more, rw (arrives, asked, finds, over_limit (length configs) more many) refl)
          | no less ↦
              let (recv, encoded, decoded) =
                received-returned (λ b. decode_query_process_config_response R b L)
                  (encode_query_process_config_response R no_buffer L configs (length configs) r)
                  (configs, length configs, r)
                  (config-round_trip R lawful no_buffer answer (length configs) r fits_r L configs
                    refl fits (omega arith) small memory') in
              inl (omega arith, (recv, rw (arrives, asked, finds, encoded) refl, decoded))
        ],
      )
