-- ===== src/Caps/Network.antt =====
-- Exactly which requests the network check lets through.
use x07_wasm_backend.Common.{
  ℕ, String, ◌≡◌, refl, sym, ◌∙◌, ◌↔◌, ◌⊎◌, inl, inr, Bool, true, false, not, Option, none, some,
  codes, eq_ignore_case, any, Any, any_iff, Bool-cases, str_eq, eq_iff, arith,
}
use mathlib.Core.Bool.{false≢true}
use x07_wasm_backend.Common.Result.{ok, bail_if, bind-eq-ok, bail_if-eq-ok}
use x07_wasm_backend.Caps.Ip.{IpAddr, is_private_or_reserved_ip}
use x07_wasm_backend.Caps.Doc.{
  NetworkMode, NetworkProto, http, https, NetworkEndpoint, NetworkHardening, CapabilitiesDoc,
  NetworkDeny, mode_deny, is_deny, proto_of, endpoint_matches, allows_ip_literal, check_ip,
  check_endpoint, network_check,
}

not-false : (b : Bool) → not b ≡ false → b ≡ true
not-false b h = ground arith

mode_allowlist : (m : NetworkMode) → is_deny m ≡ false → m ≡ NetworkMode.allowlist
mode_allowlist m h = ground arith

module _ {IpNet : Type 0} (contains : IpNet → IpAddr → Bool) where
  -- A literal address is harmless where a listed network holds it, or where neither hardening applies.
  abbrev pub IsHarmless : NetworkHardening IpNet → IpAddr → Type 0
  IsHarmless hardening ip =
      Any (λ cidr. contains cidr ip ≡ true) hardening.allow_ip_cidrs
      ⊎ (((hardening.deny_private_ips ≡ false) ⊎ (is_private_or_reserved_ip ip ≡ false))
          × (hardening.deny_ip_literals ≡ false))

  abbrev pub HostIsHarmless : NetworkHardening IpNet → Option IpAddr → Type 0
  HostIsHarmless hardening none = Unit
  HostIsHarmless hardening (some ip) = IsHarmless hardening ip

  -- The protocol that a scheme names.
  abbrev pub Names : String → NetworkProto → Type 0
  Names scheme proto = ((scheme ≡ "http") × (proto ≡ http)) ⊎ ((scheme ≡ "https") × (proto ≡ https))

  abbrev pub Matches : NetworkProto → String → ℕ → NetworkEndpoint → Type 0
  Matches proto host port e =
      (e.proto ≡ proto) × (e.port ≡ port) × (eq_ignore_case (codes e.host) (codes host) ≡ true)

  endpoint_matches_iff :
      (proto : NetworkProto) (host : String) (port : ℕ) (e : NetworkEndpoint)
      → (endpoint_matches proto host port e ≡ true) ↔ Matches proto host port e
  endpoint_matches_iff proto host port e = ground arith

  literal_iff :
      (hardening : NetworkHardening IpNet) (ip : IpAddr)
      → (allows_ip_literal contains hardening ip ≡ true)
        ↔ Any (λ cidr. contains cidr ip ≡ true) hardening.allow_ip_cidrs
  unfolding allows_ip_literal
  literal_iff hardening ip =
      any_iff (λ cidr. contains cidr ip) (λ cidr. contains cidr ip ≡ true)
        (λ cidr. (λ h. h, λ h. h)) hardening.allow_ip_cidrs

  no_literal :
      (hardening : NetworkHardening IpNet) (ip : IpAddr)
      → allows_ip_literal contains hardening ip ≡ false
      → ¬ Any (λ cidr. contains cidr ip ≡ true) hardening.allow_ip_cidrs
  no_literal hardening ip other m = false≢true (sym other ∙ (literal_iff hardening ip).1 m)

  check_ip_to :
      (hardening : NetworkHardening IpNet) (host : Option IpAddr)
      → check_ip contains hardening host ≡ ok tt
      → HostIsHarmless hardening host
  check_ip_to hardening none h = tt
  check_ip_to hardening (some ip) h = elim (Bool-cases (allows_ip_literal contains hardening ip)) [
    | inl listed ↦ inl ((literal_iff hardening ip).0 listed)
    | inr other ↦ inr (rest other h)
  ]
    where
      rest :
          allows_ip_literal contains hardening ip ≡ false
          → check_ip contains hardening (some ip) ≡ ok tt
          → ((hardening.deny_private_ips ≡ false) ⊎ (is_private_or_reserved_ip ip ≡ false))
            × (hardening.deny_ip_literals ≡ false)
      rest other h = unfold check_ip in ground (arith, other, h)

  check_ip_from :
      (hardening : NetworkHardening IpNet) (host : Option IpAddr)
      → HostIsHarmless hardening host
      → check_ip contains hardening host ≡ ok tt
  check_ip_from hardening none h = unfold check_ip in refl
  check_ip_from hardening (some ip) (inl listed) =
      let e = (literal_iff hardening ip).1 listed in unfold check_ip in ground (arith, e)
  check_ip_from hardening (some ip) (inr h) = unfold check_ip in ground arith

  proto_of_iff :
      (scheme : String) (proto : NetworkProto) → (proto_of scheme ≡ some proto) ↔ Names scheme proto
  proto_of_iff scheme proto = (to, from)
    where
      to : proto_of scheme ≡ some proto → Names scheme proto
      to h = elim (Bool-cases (str_eq scheme "http")) [
        | inl e ↦ inl ((eq_iff scheme "http").0 e, cc (rw e at h))
        | inr n ↦ elim (Bool-cases (str_eq scheme "https")) [
          | inl e ↦ inr ((eq_iff scheme "https").0 e, cc (rw (n, e) at h))
          | inr m ↦ cc (rw (n, m) at h)
        ]
      ]

      from : Names scheme proto → proto_of scheme ≡ some proto
      from (inl (s, p)) = rw (s, p)
      from (inr (s, p)) = rw (s, p)

  module _ (parse_ip : String → Option IpAddr) (caps : CapabilitiesDoc IpNet) (scheme host : String)
      (port : ℕ) where
    -- The network mode allows listed endpoints, the scheme is known and an endpoint of the list has its
    -- protocol, the port and, up to the case of ASCII letters, the host; and a host that is an address
    -- is harmless.
    pub record IsAllowed : Type 0 where
      pub listed_mode : caps.network.mode ≡ NetworkMode.allowlist
      pub proto : NetworkProto
      pub named : Names scheme proto
      pub listed : Any (Matches proto host port) caps.network.allowlist
      pub harmless : HostIsHarmless caps.network.hardening (parse_ip host)

    listed_iff :
        (proto : NetworkProto)
        → (any (endpoint_matches proto host port) caps.network.allowlist ≡ true)
          ↔ Any (Matches proto host port) caps.network.allowlist
    listed_iff proto =
        any_iff (endpoint_matches proto host port) (Matches proto host port)
          (endpoint_matches_iff proto host port) caps.network.allowlist

    allowed_of_endpoint :
        (found : Option NetworkProto)
        → proto_of scheme ≡ found
        → caps.network.mode ≡ NetworkMode.allowlist
        → check_endpoint contains parse_ip caps scheme host port found ≡ ok tt
        → IsAllowed
    unfolding check_endpoint
    allowed_of_endpoint none e mode h = cc
    allowed_of_endpoint (some proto) e mode h =
        let (_, listed, checked) = bind-eq-ok (bail_if _ _) _ h in
        let present : any (endpoint_matches proto host port) caps.network.allowlist ≡ true =
          not-false _ (bail_if-eq-ok _ _ listed) in
        record {
          listed_mode = mode;
          proto = proto;
          named = (proto_of_iff scheme proto).0 e;
          listed = (listed_iff proto).0 present;
          harmless = check_ip_to caps.network.hardening (parse_ip host) checked;
        }

    opened :
        network_check contains parse_ip caps scheme host port ≡ ok tt
        → (t : Unit {0}) × (bail_if {E = NetworkDeny}
              (is_deny caps.network.mode)
              (record { code = "X07WASM_CAPS_NET_DENIED"; message = mode_deny })
            ≡ ok t)
          × (check_endpoint contains parse_ip caps scheme host port (proto_of scheme) ≡ ok tt)
    unfolding network_check
    opened h = bind-eq-ok (bail_if _ _) _ h

    -- The check passes exactly the requests whose scheme is http or https, with an endpoint of that
    -- protocol, port and, up to the case of ASCII letters, host on the list of a document in allowlist
    -- mode, and whose host, where it is an IP address, is listed or harmless to the hardening.
    pub network_check_iff :
        (network_check contains parse_ip caps scheme host port ≡ ok tt) ↔ IsAllowed
    network_check_iff = (to, from)
      where
        to : network_check contains parse_ip caps scheme host port ≡ ok tt → IsAllowed
        to h =
            let (_, mode, checked) = opened h in
            allowed_of_endpoint (proto_of scheme) refl (mode_allowlist _ (bail_if-eq-ok _ _ mode))
              checked

        from : IsAllowed → network_check contains parse_ip caps scheme host port ≡ ok tt
        from a =
            let known = (proto_of_iff scheme a.proto).1 a.named in
            let present = (listed_iff a.proto).1 a.listed in
            let harmless = check_ip_from caps.network.hardening (parse_ip host) a.harmless in
            unfold network_check check_endpoint in rw a.listed_mode (rw known (rw present harmless))
