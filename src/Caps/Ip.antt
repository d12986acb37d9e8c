-- ===== src/Caps/Ip.antt =====
-- IP addresses of Rust's standard library, with the classes that the hardening asks for.
use Prim.Native.Nat.{bit_and}
use x07_wasm_backend.Common.{ℕ, ◌/◌, Bool, ◌&&◌, ◌||◌, leb, ◌==◌}

-- The four octets of a v4 address, or the eight segments of a v6 one.
pub data IpAddr : Type 0 where
  v4 : ℕ → ℕ → ℕ → ℕ → IpAddr
  v6 : ℕ → ℕ → ℕ → ℕ → ℕ → ℕ → ℕ → ℕ → IpAddr

-- `is_private_or_reserved_ip`: private, loopback, link-local, multicast, broadcast or unspecified for
-- v4; loopback, unique local, unicast link-local, multicast or unspecified for v6.
unfoldable pub is_private_or_reserved_ip : IpAddr → Bool
is_private_or_reserved_ip (v4 a b c d) =
    ((a == 10) || ((a == 172) && leb 16 b && leb b 31) || ((a == 192) && (b == 168)))
    || (a == 127)
    || ((a == 169) && (b == 254))
    || (leb 224 a && leb a 239)
    || ((a == 255) && (b == 255) && (c == 255) && (d == 255))
    || ((a == 0) && (b == 0) && (c == 0) && (d == 0))
is_private_or_reserved_ip (v6 s0 s1 s2 s3 s4 s5 s6 s7) =
    ((s0 == 0)
      && (s1 == 0)
      && (s2 == 0)
      && (s3 == 0)
      && (s4 == 0)
      && (s5 == 0)
      && (s6 == 0)
      && (s7 == 1))
    || (bit_and s0 0xfe00 == 0xfc00)
    || (bit_and s0 0xffc0 == 0xfe80)
    || (s0 / 256 == 0xff)
    || ((s0 == 0)
        && (s1 == 0)
        && (s2 == 0)
        && (s3 == 0)
        && (s4 == 0)
        && (s5 == 0)
        && (s6 == 0)
        && (s7 == 0))
