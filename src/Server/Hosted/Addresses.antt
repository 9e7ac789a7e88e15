-- ===== src/Server/Hosted/Addresses.antt =====
-- The guard of the addresses that a media URL may reach: `ensure_public_host` and `is_blocked_ip`
-- (sessions.rs).
pub mod Ranges
pub mod Refused
mod Tests
use zca_desktop.Common.{
  ℕ, ◌*◌, ◌+◌, String, Bool, true, false, ◌&&◌, ◌||◌, Option, none, some, List, [], ◌∷◌, leb, ◌==◌,
  number_equality, any, Result, ok, err, if◌then◌else◌, ◌/◌, ◌%◌, unwrap_or,
}
use zca_desktop.Server.{AppError, bad_request}

pub record Ipv4 : Type 0 where
  pub a : ℕ
  pub b : ℕ
  pub c : ℕ
  pub d : ℕ

-- The eight segments of 16 bits.
pub record Ipv6 : Type 0 where
  pub s0 : ℕ
  pub s1 : ℕ
  pub s2 : ℕ
  pub s3 : ℕ
  pub s4 : ℕ
  pub s5 : ℕ
  pub s6 : ℕ
  pub s7 : ℕ

pub data IpAddr : Type 0 where
  v4 : Ipv4 → IpAddr
  v6 : Ipv6 → IpAddr

unfoldable pub is_private : Ipv4 → Bool
is_private o = o.a == 10 || (o.a == 172 && (leb 16 o.b && leb o.b 31) || o.a == 192 && o.b == 168)

unfoldable pub is_loopback : Ipv4 → Bool
is_loopback o = o.a == 127

unfoldable pub is_link_local : Ipv4 → Bool
is_link_local o = o.a == 169 && o.b == 254

unfoldable pub is_broadcast : Ipv4 → Bool
is_broadcast o = o.a == 255 && (o.b == 255 && (o.c == 255 && o.d == 255))

unfoldable pub is_documentation : Ipv4 → Bool
is_documentation o =
    o.a == 192 && (o.b == 0 && o.c == 2)
    || (o.a == 198 && (o.b == 51 && o.c == 100) || o.a == 203 && (o.b == 0 && o.c == 113))

unfoldable pub is_unspecified : Ipv4 → Bool
is_unspecified o = o.a == 0 && (o.b == 0 && (o.c == 0 && o.d == 0))

unfoldable pub is_blocked_v4 : Ipv4 → Bool
is_blocked_v4 o =
    is_private o
    || (is_loopback o
        || (is_link_local o
            || (is_broadcast o
                || (is_documentation o
                    || (is_unspecified o
                        || (o.a == 0 || o.a == 100 && (leb 64 o.b && leb o.b 127)))))))

-- `to_ipv4_mapped` of an address in ::ffff:0:0/96.
unfoldable pub to_ipv4_mapped : Ipv6 → Option Ipv4
to_ipv4_mapped x =
    if x.s0 == 0 && (x.s1 == 0 && (x.s2 == 0 && (x.s3 == 0 && (x.s4 == 0 && x.s5 == 65535))))
    then some (record { a = x.s6 / 256; b = x.s6 % 256; c = x.s7 / 256; d = x.s7 % 256 })
    else none

-- The segments but the last are 0: `::1` and `::`.
unfoldable pub ends_in : ℕ → Ipv6 → Bool
ends_in n x =
    x.s0 == 0
    && (x.s1 == 0
        && (x.s2 == 0 && (x.s3 == 0 && (x.s4 == 0 && (x.s5 == 0 && (x.s6 == 0 && x.s7 == n))))))

-- s0 & 0xfe00 == 0xfc00 is s0 / 2^9 == 0x7e, and s0 & 0xffc0 == 0xfe80 is s0 / 2^6 == 0x3fa.
unfoldable pub is_blocked_v6 : Ipv6 → Bool
is_blocked_v6 x =
    ends_in 1 x
    || (ends_in 0 x
        || (x.s0 / 512 == 126
            || (x.s0 / 64 == 1018
                || elim (to_ipv4_mapped x) [ none ↦ false | some o ↦ is_blocked_v4 o ])))

unfoldable pub is_blocked_ip : IpAddr → Bool
is_blocked_ip (v4 o) = is_blocked_v4 o
is_blocked_ip (v6 x) = is_blocked_v6 x

-- A URL: its text, and what is read of it.
pub record MediaUrl : Type 0 where
  pub text : String
  pub host : Option String
  pub port : Option ℕ

-- The parser of an address and the resolver of a name.
pub record Names : Type 0 where
  pub parse : String → Option IpAddr
  pub lookup_host : String → ℕ → Option (List IpAddr)

-- The addresses of a host, by its text or by the resolver.
unfoldable pub addresses : Names → String → ℕ → Result AppError (List IpAddr)
addresses n host port = elim (n.parse host) [
  | some ip ↦ ok (ip ∷ [])
  | none ↦ elim (n.lookup_host host port) [
    | none ↦ err (bad_request "media host resolution failed")
    | some ips ↦ ok ips
  ]
]

unfoldable pub judge : List IpAddr → Result AppError (Unit {0})
judge [] = err (bad_request "media host did not resolve")
judge (ip ∷ ips) =
    if any is_blocked_ip (ip ∷ ips) then err (bad_request "media host is not allowed") else ok tt

unfoldable pub ensure_public_host : Names → MediaUrl → Result AppError (Unit {0})
ensure_public_host n url = elim url.host [
  | none ↦ err (bad_request "media url has no host")
  | some host ↦ elim (addresses n host (unwrap_or url.port 443)) [
    | err e ↦ err e
    | ok ips ↦ judge ips
  ]
]
