-- ===== src/Reducer/Permitted.antt =====
-- The URLs that `http.fetch` sends a request to.
use x07_wasm_backend.Common.{
  ℕ, String, ◌≡◌, refl, sym, true, Option, none, some, List, inl, inr, Bool-cases, any, any_iff,
  Any, str_eq, eq_iff,
}
use x07_wasm_backend.Common.Result.{Result, ok, err, bind-eq-ok, ok-injective}
use x07_wasm_backend.Json.{Value, unwrap_or}
use x07_wasm_backend.Caps.Doc.{CapabilitiesDoc, NetworkDeny, network_check}
use x07_wasm_backend.StreamPayload.{PayloadError, stream_payload_to_bytes}
use x07_wasm_backend.Reducer.Host.{Host, Uri, Request}
use x07_wasm_backend.Reducer.State.{HttpEffectState}
use x07_wasm_backend.Reducer.Fetch.{
  denied, built, with_body, parsed_uri, check_host, check_host_of, is_http, check_uri, allowed_uri,
  request_of,
}

module _ {W IpNet : Type 0} (host : Host W IpNet) where
  -- The capabilities decide where there are any, and the list of hosts where there are none.
  abbrev pub HostIsAllowed : Option (CapabilitiesDoc IpNet) → List String → String → ℕ → Type 0
  HostIsAllowed (some caps) allow_hosts name port =
      network_check host.contains host.parse_ip caps "http" name port ≡ ok tt
  HostIsAllowed none allow_hosts name port = Any (λ h. h ≡ name) allow_hosts

  -- A URI that a request may go to: a plain HTTP one with an allowed host, at its port or port 80.
  pub record IsPermitted (caps : Option (CapabilitiesDoc IpNet)) (allow_hosts : List String)
      (uri : Uri) : Type 0 where
    pub plain : uri.scheme_str ≡ some "http"
    pub name : String
    pub named : uri.host ≡ some name
    pub allowed : HostIsAllowed caps allow_hosts name (unwrap_or uri.port_u16 80)

  ok_of_denied : (r : Result NetworkDeny (Unit {0})) → denied host r ≡ ok tt → r ≡ ok tt
  ok_of_denied (ok tt) h = refl
  ok_of_denied (err e) h = cc

  allowed_of_check :
      (caps : Option (CapabilitiesDoc IpNet)) (allow_hosts : List String) (name : String) (port : ℕ)
      → check_host host caps allow_hosts "http" name port ≡ ok tt
      → HostIsAllowed caps allow_hosts name port
  unfolding check_host
  allowed_of_check (some caps) allow_hosts name port h = ok_of_denied _ h
  allowed_of_check none allow_hosts name port h =
      elim (Bool-cases (any (λ h. str_eq h name) allow_hosts)) [
        | inl e ↦
            (any_iff (λ h. str_eq h name) (λ h. h ≡ name) (λ h. eq_iff h name) allow_hosts).0 e
        | inr e ↦ cc (rw e at h)
      ]

  is_http-scheme : (scheme : Option String) → is_http host scheme ≡ true → scheme ≡ some "http"
  is_http-scheme none h = cc
  is_http-scheme (some s) h = rw ((eq_iff s "http").0 h)

  IsPermitted-of_host :
      (uri : Uri) (st : HttpEffectState IpNet) (name : Option String)
      → uri.scheme_str ≡ some "http"
      → uri.host ≡ name
      → check_host_of host name uri st ≡ ok tt
      → IsPermitted st.caps st.fetch_allow_hosts uri
  unfolding check_host_of
  IsPermitted-of_host uri st none plain named h = cc
  IsPermitted-of_host uri st (some name) plain named h = record {
    plain = plain;
    name = name;
    named = named;
    allowed =
        allowed_of_check st.caps st.fetch_allow_hosts name (unwrap_or uri.port_u16 80)
          (rw plain at h);
  }

  IsPermitted-of_check :
      (uri : Uri) (st : HttpEffectState IpNet)
      → check_uri host uri st ≡ ok tt
      → IsPermitted st.caps st.fetch_allow_hosts uri
  unfolding check_uri
  IsPermitted-of_check uri st h = elim (Bool-cases (is_http host uri.scheme_str)) [
    | inl e ↦ IsPermitted-of_host uri st uri.host (is_http-scheme uri.scheme_str e) refl (rw e at h)
    | inr e ↦ cc (rw e at h)
  ]

  IsPermitted-of_parsed :
      (r : Result String Uri) (st : HttpEffectState IpNet) (uri : Uri)
      → parsed_uri host r st ≡ ok uri
      → IsPermitted st.caps st.fetch_allow_hosts uri
  IsPermitted-of_parsed (err e) st uri h = cc
  IsPermitted-of_parsed (ok uri') st uri h =
      let (_, checked, same) = bind-eq-ok (check_uri host uri' st) _ h in
      rw (sym (ok-injective same)) (IsPermitted-of_check uri' st checked)

  -- A URL that passes the checks is permitted.
  pub IsPermitted-of_allowed :
      (url : String) (st : HttpEffectState IpNet) (uri : Uri)
      → allowed_uri host url st ≡ ok uri
      → IsPermitted st.caps st.fetch_allow_hosts uri
  unfolding allowed_uri
  IsPermitted-of_allowed url st uri h = IsPermitted-of_parsed (host.parse_uri url) st uri h

  -- hyper's builder keeps the URI that it is given.
  unfoldable pub KeepsUri : Type 0
  KeepsUri = (req req' : Request) → host.build req ≡ ok req' → req'.uri ≡ req.uri

  pub uri_of_request :
      KeepsUri
      → (eff : Value) (uri : Uri) (req : Request) → request_of host eff uri ≡ ok req
      → req.uri ≡ uri
  unfolding request_of KeepsUri
  uri_of_request keeps eff uri req h = of_body (stream_payload_to_bytes host.codec _) h
    where
      of_built :
          (req₀ : Request) (r : Result String Request)
          → host.build req₀ ≡ r
          → built host r ≡ ok req
          → req.uri ≡ req₀.uri
      of_built req₀ (ok req') e same = rw (sym (ok-injective same)) (keeps req₀ req' e)
      of_built req₀ (err e') e same = cc

      of_body :
          (r : Result PayloadError (List ℕ)) → with_body host eff uri r ≡ ok req → req.uri ≡ uri
      of_body (ok bytes) e = of_built _ _ refl e
      of_body (err e') e = cc
