-- ===== src/Reducer/Confined.antt =====
-- What a reducer can reach: requests to permitted hosts, and the clock where it is not denied.
use x07_wasm_backend.Common.{
  ℕ, ◌*◌, String, ◌≡◌, refl, Bool, true, false, Option, List, inl, inr, Bool-cases, str_eq,
}
use x07_wasm_backend.Common.Result.{Result, ok, err}
use x07_wasm_backend.Json.{Value, null, get, str_or, unwrap_or}
use x07_wasm_backend.Diag.{Diagnostic}
use x07_wasm_backend.Reducer.Effects.{
  denies_clock, kv_written, effect_kv_get, effect_kv_put, effect_log_emit, effect_time_now,
  effect_unknown, effect_of_type, execute_effect,
}
use x07_wasm_backend.Reducer.Rules.{IsKept}
use x07_wasm_backend.Reducer.Loop.{Exit, returned, failed_with, run_http_reducer_loop}
use x07_wasm_backend.Reducer.Trace.{Outcome, run_rule}
use x07_wasm_backend.Caps.Doc.{CapabilitiesDoc}
use x07_wasm_backend.StreamPayload.{PayloadError, stream_payload_to_bytes}
use x07_wasm_backend.Reducer.Host.{Host, Uri, Request, Response}
use x07_wasm_backend.Reducer.State.{HttpEffectLoopBudgets, Io, new_state}
use x07_wasm_backend.Reducer.Fetch.{
  http_fetch, use_network, use_network, Refusal, collected, fetch_from, allowed_uri, request_of,
  answer, send,
}
use x07_wasm_backend.Reducer.Permitted.{
  IsPermitted, KeepsUri, IsPermitted-of_allowed, uri_of_request,
}

-- What a run leaves.
abbrev pub exit_io : {W IpNet : Type 0} → Exit W IpNet → Io W IpNet
exit_io (returned response steps io) = io
exit_io (failed_with e io) = io

module _ {W IpNet : Type 0} (host : Host W IpNet) where
  -- A predicate on the flags and on the world that all that a reducer may do keeps: a call of the guest,
  -- a log line, the clock where it is not denied and once it is noted, and a permitted request once
  -- the network is noted.
  pub record IsRespected (caps : Option (CapabilitiesDoc IpNet)) (allow_hosts : List String)
      (Inv : Bool → Bool → W → Type 0) : Type 0 where
    pub by_call :
        (network time : Bool) (w : W) (input : List ℕ)
        → Inv network time w
        → Inv network time (host.call input w).1
    pub by_log :
        (network time : Bool) (w : W) (level message : String)
        → Inv network time w
        → Inv network time (host.print_log level message w)
    pub by_clock :
        (network time : Bool) (w : W)
        → denies_clock caps ≡ false
        → Inv network time w
        → Inv network true (host.now_unix_ms w).1
    pub by_network : (network time : Bool) (w : W) → Inv network time w → Inv true time w
    pub by_request :
        (time : Bool) (w : W) (req : Request)
        → IsPermitted host caps allow_hosts req.uri
        → Inv true time w
        → Inv true time (host.request req w).1

  module _ (keeps_uri : KeepsUri host) (caps : Option (CapabilitiesDoc IpNet))
      (allow_hosts : List String) (Inv : Bool → Bool → W → Type 0)
      (respected : IsRespected caps allow_hosts Inv) where
    -- The predicate, where the permissions are those at the start.
    pub record IsConfined (io : Io W IpNet) : Type 0 where
      pub flags_and_world :
          Inv io.effects.nondeterminism.uses_network io.effects.nondeterminism.uses_os_time io.world
      pub same_caps : io.effects.caps ≡ caps
      pub same_hosts : io.effects.fetch_allow_hosts ≡ allow_hosts

    confined_by_diagnostics :
        (io : Io W IpNet) (ds : List Diagnostic)
        → IsConfined io
        → IsConfined (record io { diagnostics = ds })
    confined_by_diagnostics io ds k = record {
      flags_and_world = k.flags_and_world;
      same_caps = k.same_caps;
      same_hosts = k.same_hosts;
    }

    confined_by_answer :
        (id : String) (r : Result String Response) (io : Io W IpNet)
        → IsConfined io
        → IsConfined (answer host id r io).1
    unfolding answer
    confined_by_answer id (err e) io k = confined_by_diagnostics io _ k
    confined_by_answer id (ok resp) io k = of_body (resp.collect (1024 * 1024))
      where
        of_body : (body : Result String (List ℕ)) → IsConfined (collected host id resp body io).1
        of_body (err e) = confined_by_diagnostics io _ k
        of_body (ok bytes) = k

    confined_by_send :
        (id : String) (eff : Value) (uri : Uri) (io : Io W IpNet) (r : Result Refusal Request)
        → request_of host eff uri ≡ r
        → IsPermitted host caps allow_hosts uri
        → IsConfined io
        → IsConfined (send host id r (use_network host io)).1
    unfolding send
    confined_by_send id eff uri io (err e) _ p k = record {
      flags_and_world = respected.by_network _ _ _ k.flags_and_world;
      same_caps = k.same_caps;
      same_hosts = k.same_hosts;
    }
    confined_by_send id eff uri io (ok req) e p k =
        confined_by_answer id (host.request req io.world).0 _ (record {
          flags_and_world =
              respected.by_request _ io.world req
                (rw (uri_of_request host keeps_uri eff uri req e) p)
                (respected.by_network _ _ _ k.flags_and_world);
          same_caps = k.same_caps;
          same_hosts = k.same_hosts;
        })

    confined_by_fetch :
        (id : String) (eff : Value) (io : Io W IpNet)
        → IsConfined io
        → IsConfined (http_fetch host id eff io).1
    unfolding http_fetch
    confined_by_fetch id eff io k = go (allowed_uri host (str_or "url" "" eff) io.effects) refl
      where
        go :
            (r : Result Refusal Uri)
            → allowed_uri host (str_or "url" "" eff) io.effects ≡ r
            → IsConfined (fetch_from host id eff io r).1
        go (err e) _ = confined_by_diagnostics io _ k
        go (ok uri) e =
            confined_by_send id eff uri io (request_of host eff uri) refl
              (rw (k.same_caps, k.same_hosts) at
                (IsPermitted-of_allowed host (str_or "url" "" eff) io.effects uri e))
              k

    confined_by_put :
        (id : String) (eff : Value) (io : Io W IpNet)
        → IsConfined io
        → IsConfined (effect_kv_put host id eff io).1
    unfolding effect_kv_put
    confined_by_put id eff io k =
        go (stream_payload_to_bytes host.codec (unwrap_or (get "value" eff) null))
      where
        go : (r : Result PayloadError (List ℕ)) → IsConfined (kv_written host id eff io r).1
        go (err e) = confined_by_diagnostics io _ k
        go (ok bytes) = record {
          flags_and_world = k.flags_and_world;
          same_caps = k.same_caps;
          same_hosts = k.same_hosts;
        }

    confined_by_get :
        (id : String) (eff : Value) (io : Io W IpNet)
        → IsConfined io
        → IsConfined (effect_kv_get host id eff io).1
    unfolding effect_kv_get
    confined_by_get id eff io k = k

    confined_by_log :
        (id : String) (eff : Value) (io : Io W IpNet)
        → IsConfined io
        → IsConfined (effect_log_emit host id eff io).1
    unfolding effect_log_emit
    confined_by_log id eff io k = record {
      flags_and_world = respected.by_log _ _ _ _ _ k.flags_and_world;
      same_caps = k.same_caps;
      same_hosts = k.same_hosts;
    }

    confined_by_time :
        (id : String) (io : Io W IpNet) → IsConfined io → IsConfined (effect_time_now host id io).1
    unfolding effect_time_now
    confined_by_time id io k = elim (Bool-cases (denies_clock io.effects.caps)) [
      | inl e ↦ rw e (confined_by_diagnostics io _ k)
      | inr e ↦ rw e (record {
        flags_and_world = respected.by_clock _ _ _ (rw k.same_caps at e) k.flags_and_world;
        same_caps = k.same_caps;
        same_hosts = k.same_hosts;
      })
    ]

    confined_by_unknown :
        (id typ : String) (io : Io W IpNet)
        → IsConfined io
        → IsConfined (effect_unknown host id typ io).1
    unfolding effect_unknown
    confined_by_unknown id typ io k = confined_by_diagnostics io _ k

    confined_by_type :
        (typ id : String) (eff : Value) (io : Io W IpNet)
        → IsConfined io
        → IsConfined (effect_of_type host typ id eff io).1
    unfolding effect_of_type
    confined_by_type typ id eff io k = elim (Bool-cases (str_eq typ "kv.get")) [
      | inl e ↦ rw e (confined_by_get id eff io k)
      | inr e ↦ rw e (elim (Bool-cases (str_eq typ "kv.put")) [
        | inl e ↦ rw e (confined_by_put id eff io k)
        | inr e ↦ rw e (elim (Bool-cases (str_eq typ "log.emit")) [
          | inl e ↦ rw e (confined_by_log id eff io k)
          | inr e ↦ rw e (elim (Bool-cases (str_eq typ "time.now")) [
            | inl e ↦ rw e (confined_by_time id io k)
            | inr e ↦ rw e (elim (Bool-cases (str_eq typ "http.fetch")) [
              | inl e ↦ rw e (confined_by_fetch id eff io k)
              | inr e ↦ rw e (confined_by_unknown id typ io k)
            ])
          ])
        ])
      ])
    ]

    confined-IsKept : IsKept host IsConfined
    unfolding execute_effect
    confined-IsKept = record {
      by_diagnostics = confined_by_diagnostics;
      by_call = λ io input k. record {
        flags_and_world = respected.by_call _ _ io.world input k.flags_and_world;
        same_caps = k.same_caps;
        same_hosts = k.same_hosts;
      };
      by_effect =
          λ io eff k. confined_by_type (str_or "type" "" eff) (str_or "id" "eff0" eff) eff io k;
    }

    initial :
        (diagnostics : List Diagnostic) (w : W)
        → Inv false false w
        → IsConfined
            (record { effects = new_state allow_hosts caps; diagnostics = diagnostics; world = w })
    unfolding new_state
    initial diagnostics w h = record { flags_and_world = h; same_caps = refl; same_hosts = refl }

    confined_of_outcome :
        (budgets : HttpEffectLoopBudgets) (request : Value) (exit : Exit W IpNet)
        → Outcome host budgets IsConfined confined-IsKept request exit
        → IsConfined (exit_io exit)
    confined_of_outcome budgets request (returned response steps io) (_, _, k) = k
    confined_of_outcome budgets request (failed_with e io) (_, k) = k

    -- Where hyper's builder keeps the URI and a predicate on the flags and on the world is respected by
    -- what a reducer may do (calls of the guest, log lines, readings of a clock that is not denied,
    -- requests to permitted hosts, and setting the flags): whatever the guest answers, a run from a new
    -- effect state, at which the predicate holds with both flags down, ends with the predicate at the
    -- flags that it reports and with the same permissions. So it sends nothing but to permitted hosts,
    -- does not read a clock that is denied, and reports the network and the clock where it used them.
    pub run_http_reducer_loop_confined :
        (budgets : HttpEffectLoopBudgets) (request : Value) (diagnostics : List Diagnostic) (w : W)
        → Inv false false w
        → IsConfined (
            exit_io (
              run_http_reducer_loop host budgets request (record {
                effects = new_state allow_hosts caps;
                diagnostics = diagnostics;
                world = w;
              })))
    run_http_reducer_loop_confined budgets request diagnostics w h =
        confined_of_outcome budgets request _
          (run_rule host budgets IsConfined confined-IsKept request _ (initial diagnostics w h))
