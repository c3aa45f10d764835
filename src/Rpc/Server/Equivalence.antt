-- ===== src/Rpc/Server/Equivalence.antt =====
-- A call of the client comes to the same as a call of the library's function on the server.
use mathlib.Core.List.{append-nil}
use ubturbo.Rpc.Requests.{
  decode_migrate_out_request, decode_migrate_out_grouped_request, decode_remove_request,
}
use ubturbo.Rpc.Requests.RoundTrip.{int_and_struct-round_trip, piece-Exact, int-head}
use ubturbo.Rpc.Bytes.{int_layout, Layout}
use ubturbo.Rpc.Client.{
  call_migrate_out, call_migrate_out_grouped, call_remove, ubturbo_smap_migrate_out,
  ubturbo_smap_migrate_out_grouped, ubturbo_smap_remove,
}
use ubturbo.Rpc.Buffer.Laws.{encode-exact, content}
use ubturbo.Rpc.Replies.{int_of_response, int_response}
use ubturbo.Rpc.Client.{Caller, Function, call}
use ubturbo.Prelude.{
  ◌≡◌, some, ◌^◌, ℕ, [], arith, ◌<◌, List, ◌∷◌, true, refl, ◌≤◌, ◌+◌, false, length,
}
use ubturbo.Rpc.Buffer.{
  got, returned, Buffer, Decoded, Runtime, IsLawful, received, Encoded, no_buffer, piece,
}
use ubturbo.Rpc.Server.{
  finished, Handled, handle, smap_migrate_out_handler, smap_migrate_out_grouped_handler,
  smap_remove_handler,
}

-- `MAX_MESSAGE_LENGTH` of src/ipc, 32 MB, less `HEADER_LENGTH`: the ipc refuses longer messages.
abbrev pub message_limit : ℕ
message_limit = 33554424

-- What the ipc carries: as many bytes as the length says, within the limit.
abbrev pub IsCarried : Buffer → Type 0
IsCarried b =
    (bytes : List ℕ) × (b.data_bytes ≡ some bytes)
    × (length bytes ≡ b.len)
    × (b.len ≤ message_limit)

-- The bytes on the other side, in a buffer of the ipc.
abbrev pub arrived : Buffer → Buffer
arrived b = record b { with_free = false }

-- The transport brings a call within the limit to its handler and, where the handler returns 0 and an
-- output within the limit, the output back.
abbrev pub Delivers :
    {S : Type 0} → (Buffer → S → ℕ × Buffer × S) → (Buffer → S → Handled S) → Type 0
Delivers {S} caller handler =
    (send out : Buffer) (s s' : S)
    → IsCarried send
    → IsCarried out
    → handler (arrived send) s ≡ finished 0 out s'
    → caller send s ≡ (0, arrived out, s')

-- The value that the library's function returns is what the client gets.
abbrev pub as_decoded : {S : Type 0} → ℕ × S → Decoded ℕ × S
as_decoded (r, s) = (got r, s)

-- The answer to a call, from its `int` to the client.
int_response-answers :
    (R : Runtime) (lawful : IsLawful R) (bs : List ℕ) (r : ℕ)
    → r < 2 ^ 32
    → R.new_bytes 4 ≡ some bs
    → (out : Buffer) × IsCarried out
      × (int_response R no_buffer r ≡ returned out 0)
      × (int_of_response (arrived out) ≡ got r)
int_response-answers R lawful bs r h new =
    let ps = piece int_layout r ∷ [] in
    (
      record { data_bytes = some (content ps); len = 4; with_free = true },
      (content ps, refl, refl, omega arith),
      encode-exact R lawful no_buffer 4 true ps bs (piece-Exact int_layout r, tt) (omega arith) refl
          new,
      rw (int-head r [] h) refl,
    )

module _ {S V : Type 0} (R : Runtime) (caller : Caller S) (f : Function)
    (decode_request : Buffer → Decoded V) (library : V → S → ℕ × S) where
  abbrev handler : Buffer → S → Handled S
  handler input s = handle (decode_request input) library (int_response R no_buffer) s

  -- A request that arrives as `v` and a reply that is encoded give what the library returned.
  call-handle :
      (lawful : IsLawful R) (answer : List ℕ) (request : Encoded) (bytes : List ℕ) (n : ℕ) (v : V)
      (s : S)
      → R.new_bytes 4 ≡ some answer
      → Delivers (caller f) handler
      → n ≤ message_limit
      → length bytes ≡ n
      → request ≡ returned (record { data_bytes = some bytes; len = n; with_free = false }) 0
      → received decode_request request ≡ some (got v)
      → (library v s).0 < 2 ^ 32
      → call caller f request int_of_response s ≡ as_decoded (library v s)
  call-handle lawful answer request bytes n v s memory delivers short whole encoded arrives word =
      let send : Buffer = record { data_bytes = some bytes; len = n; with_free = false } in
      let (out, carried, responds, decoded) =
        int_response-answers R lawful answer (library v s).0 word memory in
      let read : decode_request send ≡ got v = cc (encoded, arrives) in
      let handled : handler send s ≡ finished 0 out (library v s).1 = rw (read, responds) refl in
      rw
        (
          encoded,
          delivers send out s (library v s).1 (bytes, refl, whole, short) carried handled,
          decoded,
        )
        refl

module _ {S M : Type 0} (C R : Runtime) (lawful_c : IsLawful C) (lawful_r : IsLawful R)
    (L : Layout M) (caller : Caller S) (msg : M) (page_type : ℕ) (s : S)
    (small : 4 + L.size ≤ message_limit) (fits : L.Fits msg) (type_fits : page_type < 2 ^ 32)
    (sent answer : List ℕ) (memory_r : R.new_bytes 4 ≡ some answer) where
  -- The three calls that send a message and a page type return to the client what the library's
  -- function returns on the server for that message and page type, and change the server's state as
  -- it does: when the client has memory for the request and the server for the answer, the request is
  -- within the ipc's limit of 32 MB, the values fit their types, and the transport, which is assumed,
  -- delivers requests and answers within that limit.
  pub message_calls-equivalence :
      (migrate_out migrate_out_grouped remove : M × ℕ → S → ℕ × S)
      → C.new_bytes (4 + L.size) ≡ some sent
      → (migrate_out (msg, page_type) s).0 < 2 ^ 32
      → (migrate_out_grouped (msg, page_type) s).0 < 2 ^ 32
      → (remove (msg, page_type) s).0 < 2 ^ 32
      → Delivers (caller call_migrate_out) (smap_migrate_out_handler R L migrate_out)
      → Delivers
          (caller call_migrate_out_grouped)
          (smap_migrate_out_grouped_handler R L migrate_out_grouped)
      → Delivers (caller call_remove) (smap_remove_handler R L remove)
      → (ubturbo_smap_migrate_out C caller L (some msg) page_type s
          ≡ as_decoded (migrate_out (msg, page_type) s))
        × (ubturbo_smap_migrate_out_grouped C caller L (some msg) page_type s
            ≡ as_decoded (migrate_out_grouped (msg, page_type) s))
        × (ubturbo_smap_remove C caller L (some msg) page_type s
            ≡ as_decoded (remove (msg, page_type) s))
  message_calls-equivalence f g h memory_c fits_f fits_g fits_h deliver_f deliver_g deliver_h =
      let ps = piece int_layout page_type ∷ piece L msg ∷ [] in
      let whole : length (content ps) ≡ 4 + L.size =
        rw (append-nil (L.to_bytes msg), L.length-to_bytes msg) (omega arith) in
      let arrive =
        int_and_struct-round_trip C lawful_c L no_buffer msg page_type sent (omega arith) fits
          type_fits memory_c in
      let encoded =
        encode-exact C lawful_c no_buffer (4 + L.size) false ps sent
          (piece-Exact int_layout page_type, (piece-Exact L msg, tt)) (omega arith) (omega arith)
          memory_c in
      (
        call-handle R caller call_migrate_out (decode_migrate_out_request L) f lawful_r answer _
            (content ps) (4 + L.size) (msg, page_type) s memory_r deliver_f small whole encoded
            arrive.0 fits_f,
        call-handle R caller call_migrate_out_grouped (decode_migrate_out_grouped_request L) g
            lawful_r answer _ (content ps) (4 + L.size) (msg, page_type) s memory_r deliver_g small
            whole encoded arrive.1 fits_g,
        call-handle R caller call_remove (decode_remove_request L) h lawful_r answer _ (content ps)
            (4 + L.size) (msg, page_type) s memory_r deliver_h small whole encoded arrive.2 fits_h,
      )
