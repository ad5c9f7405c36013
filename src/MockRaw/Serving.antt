-- ===== src/MockRaw/Serving.antt =====
-- internal/testutil/rawmodel/raw_model_mock.go: the mock's connections, and the requests that
-- internal/daemon/raw_client.go writes to them.
use Prim.Native.String.{len}
use mathlib.Core.List.{map}
use cognitiveosd.Prelude.{
  ℕ, suc, ltb, String, ◌++◌, ◌≡◌, refl, Bool, true, Option, none, some, List, [], ◌∷◌, All,
  if◌then◌else◌,
}
use cognitiveosd.Prelude.Int.{ℤ, is_int64}
use cognitiveosd.Prelude.Opt.{◌>>=◌}
use cognitiveosd.Json.{
  Json, int, str, obj, Fields, end, field, d_int, d_raw, d_string, d_struct, member,
}
use cognitiveosd.Protocol.Env.{Opened, unresolved, not_given, mode_kept, open_socket, RawRequest}
use cognitiveosd.MockRaw.{Mock, Rpc, dispatch, error_response, rpc_of}

-- `Start`, by its error; it changes no mode.
unfoldable pub start_error : Opened → Option String
start_error (unresolved e) = some ("resolve addr: " ++ e)
start_error (not_given e) = some ("listen unix: " ++ e)
start_error (mode_kept e) = none
start_error open_socket = none

-- `RawRPCRequest`, as the client writes it: parameters that are not there are left out.
abbrev params_field : Option Json → Fields
params_field none = end
params_field (some p) = field "params" p end

unfoldable pub request_json : RawRequest → Json
request_json req = obj (
    field "jsonrpc" (str "2.0")
      (field "id" (int (ℤ.pos req.id)) (field "method" (str req.method) (params_field req.params))))

read_rpc : Fields → Rpc → Option Rpc
read_rpc fs r = do
  version ← member d_string "jsonrpc" fs ""
  i ← member d_int "id" fs r.id
  m ← member d_string "method" fs r.method
  p ← member d_raw "params" fs r.params
  some (record { id = i; method = m; params = p })

-- `json.Unmarshal` of a request.
unfoldable pub decode_rpc : Json → Option Rpc
unfolding read_rpc
decode_rpc = d_struct read_rpc (record { id = ℤ.pos 0; method = ""; params = none })

-- `bufio.MaxScanTokenSize`, for a line with its end
abbrev pub max_token : ℕ
max_token = 65536

module _ (parse_json : String → Option Json) (m : Mock) where
  abbrev pub answer_or_error : Option Rpc → Json
  answer_or_error none = error_response (ℤ.pos 0) 32699 "Parse error"
  answer_or_error (some r) = dispatch m r

  -- One line of a connection.
  unfoldable pub respond : String → Json
  respond text = answer_or_error (parse_json text >>= decode_rpc)

  -- `handleConn` over the lines that come in before the peer closes or the time is up, by whether the
  -- n-th response can be written. The scanner ends at a line that does not fit into its buffer.
  unfoldable pub handle_conn : (ℕ → Bool) → ℕ → List String → List Json
  handle_conn writes n [] = []
  handle_conn writes n (text ∷ lines) =
      let rest = handle_conn writes (suc n) lines in
      if ltb (len text) max_token then (if writes n then respond text ∷ rest else []) else []

-- The mock reads a request as the client means it.
decode_rpc-fields :
    (id : ℕ) (method : String) (params : Option Json)
    → is_int64 (ℤ.pos id) ≡ true
    → let req : RawRequest = record { id = id; method = method; params = params } in
      decode_rpc (request_json req) ≡ some (rpc_of req)
unfolding decode_rpc request_json read_rpc
decode_rpc-fields id method none fits = rw fits refl
decode_rpc-fields id method (some p) fits = rw fits refl

decode_rpc-request_json :
    (req : RawRequest)
    → is_int64 (ℤ.pos req.id) ≡ true
    → decode_rpc (request_json req) ≡ some (rpc_of req)
decode_rpc-request_json req fits = decode_rpc-fields req.id req.method req.params fits

module _ (parse_json : String → Option Json) (write : Json → String) (m : Mock) where
  -- A request whose number fits an int, and whose text fits into the scanner's buffer and is read back
  -- as it was written.
  abbrev pub IsReadable : RawRequest → Type 0
  IsReadable req =
      (is_int64 (ℤ.pos req.id) ≡ true)
      × (ltb (len (write (request_json req))) max_token ≡ true)
      × (parse_json (write (request_json req)) ≡ some (request_json req))

  respond-request_json :
      (req : RawRequest)
      → IsReadable req
      → respond parse_json m (write (request_json req)) ≡ dispatch m (rpc_of req)
  unfolding respond
  respond-request_json req (fits, short, back) =
      rw back (rw (decode_rpc-request_json req fits) refl)

  -- Over a connection that stays, within the thirty seconds of its deadline, whatever requests the
  -- client writes, one behind the other, the mock answers each with what its handler gives for that request, in their order, and writes nothing
  -- else, as long as the numbers fit an int, the texts with their ends fit into the scanner's 64 KiB,
  -- and they are read back as they were written.
  pub handle_conn-answers :
      (writes : ℕ → Bool) (n : ℕ) (reqs : List RawRequest)
      → ((k : ℕ) → writes k ≡ true)
      → All IsReadable reqs
      → handle_conn parse_json m writes n (map (λ req. write (request_json req)) reqs)
        ≡ map (λ req. dispatch m (rpc_of req)) reqs
  unfolding handle_conn
  handle_conn-answers writes n [] up h = refl
  handle_conn-answers writes n (req ∷ reqs) up (one, h) =
      rw (one.1, up n, respond-request_json req one, handle_conn-answers writes (suc n) reqs up h)
        refl
