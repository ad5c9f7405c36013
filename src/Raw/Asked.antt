-- ===== src/Raw/Asked.antt =====
-- internal/daemon/raw_client.go: what the daemon does with a client that it has connected: it asks,
-- and it closes.
use cognitiveosd.Prelude.{suc, inl, inr, Option-cases, String, ◌≡◌, refl, true, Option, none, some}
use cognitiveosd.Prelude.Dict.{Dict}
use cognitiveosd.Prelude.Int.{ℤ}
use cognitiveosd.Prelude.Result.{Result, ok, err}
use cognitiveosd.Json.{Json}
use cognitiveosd.Protocol.Env.{Env, RawRequest, RawReply, RawResponse, answered}
use cognitiveosd.Raw.{Conn, Raw, live, received, call, call_conn, call_on, close}
use cognitiveosd.Raw.Connection.{IsSound, call-IsSound, close-IsSound, call-not_connected}
use cognitiveosd.Raw.Requests.{
  PackageParams, audit_resources, check_unlock_code, finish, validate_package, validate_prompt,
  validate_system_code,
}
use cognitiveosd.Prelude.{List}

-- What a client comes to by requests and, where it may be, by closings.
pub data Asked (env : Env) (May : Type 0) (r : Raw) : Raw → Type 0 where
  nothing : Asked env May r r
  asks :
      {s : Raw}
      → Asked env May r s
      → (method : String) (params : Option Json) → Asked env May r (call env method params s).0
  closes : {s : Raw} → May → Asked env May r s → Asked env May r (close s)

module _ (env : Env) (May : Type 0) where
  pub Asked-trans : {r s t : Raw} → Asked env May r s → Asked env May s t → Asked env May r t
  Asked-trans a nothing = a
  Asked-trans a (asks b method params) = asks (Asked-trans a b) method params
  Asked-trans a (closes may b) = closes may (Asked-trans a b)

  pub Asked-IsSound : {r s : Raw} → Asked env May r s → IsSound r → IsSound s
  Asked-IsSound nothing h = h
  Asked-IsSound (asks a method params) h = call-IsSound env method params _ (Asked-IsSound a h)
  Asked-IsSound (closes may a) h = close-IsSound _

  -- A connection that is lost stays lost.
  pub Asked-lost : {r s : Raw} → Asked env May r s → r.conn ≡ none → s.conn ≡ none
  unfolding close
  Asked-lost nothing h = h
  Asked-lost (asks {s} a method params) h =
      let gone = Asked-lost a h in rw (call-not_connected env method params s gone) gone
  Asked-lost (closes may a) h = refl

  -- With no connection, no number is taken for a request either.
  pub Asked-still : {r s : Raw} → Asked env May r s → r.conn ≡ none → s.rpc_id ≡ r.rpc_id
  unfolding close
  Asked-still nothing h = refl
  Asked-still (asks {s} a method params) h =
      rw (call-not_connected env method params s (Asked-lost a h)) (Asked-still a h)
  Asked-still (closes may a) h = Asked-still a h

-- The client has a connection that is open.
pub record IsConnected (r : Raw) : Type 0 where
  pub conn : r.conn ≡ some live
  pub ready : r.ready ≡ true

-- The raw model answers whatever it is asked.
abbrev pub IsAnswering : Env → Type 0
IsAnswering env = (req : RawRequest) → (resp : RawResponse) × (env.raw_model req ≡ answered resp)

module _ (env : Env) (answers : IsAnswering env) where
  received-IsConnected :
      (r : Raw) (reply : RawReply) (resp : RawResponse)
      → reply ≡ answered resp
      → IsConnected r
      → IsConnected (received r reply).0
  unfolding received
  received-IsConnected r reply resp e h = rw e (elim (Option-cases resp.error) [
    | inr (x, failed) ↦ rw failed h
    | inl fine ↦ elim (Option-cases resp.result) [
      | inr (j, given) ↦ rw (fine, given) h
      | inl missing ↦ rw (fine, missing) h
    ]
  ])

  call_on-IsConnected :
      (k : Option Conn) (method : String) (params : Option Json) (r : Raw)
      → k ≡ some live
      → IsConnected r
      → IsConnected (call_on env k method params r).0
  unfolding call_on call_conn
  call_on-IsConnected k method params r e h =
      let req : RawRequest = record { id = suc r.rpc_id; method = method; params = params } in
      let (resp, answered_so) = answers req in
      rw e (
        received-IsConnected (record r { rpc_id = suc r.rpc_id }) (env.raw_model req) resp
          answered_so (record { conn = h.conn; ready = h.ready }))

  call-IsConnected :
      (method : String) (params : Option Json) (r : Raw)
      → IsConnected r
      → IsConnected (call env method params r).0
  unfolding call
  call-IsConnected method params r h = call_on-IsConnected r.conn method params r h.conn h

  -- By requests alone a connection is not lost.
  pub Asked-IsConnected :
      {May : Type 0} {r s : Raw} → (May → ⊥) → Asked env May r s → IsConnected r → IsConnected s
  Asked-IsConnected never nothing h = h
  Asked-IsConnected never (asks a method params) h =
      call-IsConnected method params _ (Asked-IsConnected never a h)
  Asked-IsConnected never (closes may a) h = absurd (never may)

module _ (env : Env) (May : Type 0) where
  finish-raw {ℓ} :
      {A : Type ℓ} (what : String) (decode : Json → Option A) (x : Raw × Result Json)
      → (finish env what decode x).0 ≡ x.0
  unfolding finish
  finish-raw what decode (r, err e) = refl
  finish-raw what decode (r, ok j) = refl

  asks-finish {ℓ} :
      {A : Type ℓ} (what : String) (decode : Json → Option A) (method : String)
      (params : Option Json) (r : Raw)
      → Asked env May r (finish env what decode (call env method params r)).0
  asks-finish what decode method params r =
      rw (finish-raw what decode (call env method params r)) (asks nothing method params)

  pub validate_system_code-Asked :
      (code origin : String) (r : Raw) → Asked env May r (validate_system_code env code origin r).0
  unfolding validate_system_code
  validate_system_code-Asked code origin r = asks-finish _ _ _ _ r

  pub check_unlock_code-Asked :
      (code patch : String) (r : Raw) → Asked env May r (check_unlock_code env code patch r).0
  unfolding check_unlock_code
  check_unlock_code-Asked code patch r = asks-finish _ _ _ _ r

  pub audit_resources-Asked :
      (requested : ℤ) (r : Raw) → Asked env May r (audit_resources env requested r).0
  unfolding audit_resources
  audit_resources-Asked requested r = asks-finish _ _ _ _ r

  pub validate_prompt-Asked :
      (prompt : String) (hints : Dict (List String)) (r : Raw)
      → Asked env May r (validate_prompt env prompt hints r).0
  unfolding validate_prompt
  validate_prompt-Asked prompt hints r = asks-finish _ _ _ _ r

  pub validate_package-Asked :
      (p : PackageParams) (r : Raw) → Asked env May r (validate_package env p r).0
  unfolding validate_package
  validate_package-Asked p r = asks-finish _ _ _ _ r
