-- ===== src/Server/Hosted/Addresses/Ranges.antt =====
-- The addresses of version 4 as numbers, and the ranges of them that `is_blocked_ip` (sessions.rs)
-- is about.
use zca_desktop.Common.{
  ℕ, suc, ◌*◌, ◌+◌, ◌<◌, ◌≡◌, refl, ◌/◌, ◌%◌, some, Bool, true, false, ◌&&◌, ◌||◌, List, [], ◌∷◌,
  leb, ◌==◌, number_equality, any, arith,
}
use zca_desktop.Server.Hosted.Addresses.{
  Ipv4, Ipv6, v4, v6, is_private, is_loopback, is_link_local, is_broadcast, is_documentation,
  is_unspecified, is_blocked_v4, ends_in, to_ipv4_mapped, is_blocked_v6, is_blocked_ip,
}

-- The octets are bytes.
abbrev pub IsIpv4 : Ipv4 → Type 0
IsIpv4 o = (o.a < 256) × (o.b < 256) × (o.c < 256) × (o.d < 256)

unfoldable pub number : Ipv4 → ℕ
number o = o.a * 16777216 + o.b * 65536 + o.c * 256 + o.d

-- The address starts a range of so many addresses.
unfoldable pub covers : ℕ → ℕ × ℕ → Bool
covers n range = leb range.0 n && leb (suc n) (range.0 + range.1)

abbrev pub start : ℕ → ℕ → ℕ → ℕ
start a b c = a * 16777216 + b * 65536 + c * 256

-- The ranges in the notation of the registry: 10.0.0.0/8, 172.16.0.0/12, 192.168.0.0/16,
-- 127.0.0.0/8, 169.254.0.0/16, 255.255.255.255/32, 192.0.2.0/24, 198.51.100.0/24, 203.0.113.0/24,
-- 0.0.0.0/8 and 100.64.0.0/10.
abbrev pub blocked_ranges : List (ℕ × ℕ)
blocked_ranges =
    (start 10 0 0, 16777216)
    ∷ (start 172 16 0, 1048576)
    ∷ (start 192 168 0, 65536)
    ∷ (start 127 0 0, 16777216)
    ∷ (start 169 254 0, 65536)
    ∷ (start 255 255 255 + 255, 1)
    ∷ (start 192 0 2, 256)
    ∷ (start 198 51 100, 256)
    ∷ (start 203 0 113, 256)
    ∷ (0, 16777216)
    ∷ (start 100 64 0, 4194304)
    ∷ []

-- The tests of `is_blocked_ip` in a row.
regroup :
    (p1 p2 p3 loop link broad d1 d2 d3 zeros u cgnat : Bool)
    → ((p1 || (p2 || p3))
        || (loop
            || (link || (broad || ((d1 || (d2 || d3)) || ((zeros && u) || (zeros || cgnat)))))))
      ≡ (p1
          || (p2
              || (p3
                  || (loop
                      || (link
                          || (broad || (d1 || (d2 || (d3 || (zeros || (cgnat || false)))))))))))
regroup true p2 p3 loop link broad d1 d2 d3 zeros u cgnat = refl
regroup false true p3 loop link broad d1 d2 d3 zeros u cgnat = refl
regroup false false true loop link broad d1 d2 d3 zeros u cgnat = refl
regroup false false false true link broad d1 d2 d3 zeros u cgnat = refl
regroup false false false false true broad d1 d2 d3 zeros u cgnat = refl
regroup false false false false false true d1 d2 d3 zeros u cgnat = refl
regroup false false false false false false true d2 d3 zeros u cgnat = refl
regroup false false false false false false false true d3 zeros u cgnat = refl
regroup false false false false false false false false true zeros u cgnat = refl
regroup false false false false false false false false false true true cgnat = refl
regroup false false false false false false false false false true false cgnat = refl
regroup false false false false false false false false false false u true = refl
regroup false false false false false false false false false false u false = refl

module _ (o : Ipv4) (h : IsIpv4 o) where
  slash8 : (a : ℕ) → covers (number o) (start a 0 0, 16777216) ≡ (o.a == a)
  unfolding covers number
  slash8 a = ground (arith, h, number_equality.equal_iff o.a a)

  slash16 : (a b : ℕ) → b < 256 → covers (number o) (start a b 0, 65536) ≡ (o.a == a && o.b == b)
  unfolding covers number
  slash16 a b small =
      ground (arith, h, number_equality.equal_iff o.a a, number_equality.equal_iff o.b b)

  slash24 :
      (a b c : ℕ)
      → b < 256
      → c < 256
      → covers (number o) (start a b c, 256) ≡ (o.a == a && (o.b == b && o.c == c))
  unfolding covers number
  slash24 a b c hb hc = ground (
    arith,
    h,
    number_equality.equal_iff o.a a,
    number_equality.equal_iff o.b b,
    number_equality.equal_iff o.c c,
  )

  slash32 :
      covers (number o) (start 255 255 255 + 255, 1)
      ≡ (o.a == 255 && (o.b == 255 && (o.c == 255 && o.d == 255)))
  unfolding covers number
  slash32 = ground (
    arith,
    h,
    number_equality.equal_iff o.a 255,
    number_equality.equal_iff o.b 255,
    number_equality.equal_iff o.c 255,
    number_equality.equal_iff o.d 255,
  )

  private_12 :
      covers (number o) (start 172 16 0, 1048576) ≡ (o.a == 172 && (leb 16 o.b && leb o.b 31))
  unfolding covers number
  private_12 = ground (arith, h, number_equality.equal_iff o.a 172)

  shared_10 :
      covers (number o) (start 100 64 0, 4194304) ≡ (o.a == 100 && (leb 64 o.b && leb o.b 127))
  unfolding covers number
  shared_10 = ground (arith, h, number_equality.equal_iff o.a 100)

  is_blocked_v4-ranges : is_blocked_v4 o ≡ any (covers (number o)) blocked_ranges
  unfolding any is_blocked_v4 is_private is_loopback is_link_local is_broadcast is_documentation
      is_unspecified
  is_blocked_v4-ranges =
      rw
        (
          is_blocked_v4,
          is_private,
          is_documentation,
          is_unspecified,
          slash8 10,
          private_12,
          slash16 192 168 (omega arith),
          slash8 127,
          slash16 169 254 (omega arith),
          slash32,
          slash24 192 0 2 (omega arith) (omega arith),
          slash24 198 51 100 (omega arith) (omega arith),
          slash24 203 0 113 (omega arith) (omega arith),
          slash8 0,
          shared_10,
        )
        (regroup (o.a == 10) (o.a == 172 && (leb 16 o.b && leb o.b 31)) (o.a == 192 && o.b == 168)
          (is_loopback o) (is_link_local o) (is_broadcast o) (o.a == 192 && (o.b == 0 && o.c == 2))
          (o.a == 198 && (o.b == 51 && o.c == 100)) (o.a == 203 && (o.b == 0 && o.c == 113))
          (o.a == 0) (o.b == 0 && (o.c == 0 && o.d == 0))
          (o.a == 100 && (leb 64 o.b && leb o.b 127)))

-- An address of version 4, by its number, and one of version 6 that stands for it.
abbrev pub mapped : Ipv4 → Ipv6
mapped o = record {
  s0 = 0;
  s1 = 0;
  s2 = 0;
  s3 = 0;
  s4 = 0;
  s5 = 65535;
  s6 = o.a * 256 + o.b;
  s7 = o.c * 256 + o.d;
}

octets : (hi lo : ℕ) → lo < 256 → ((hi * 256 + lo) / 256 ≡ hi) × ((hi * 256 + lo) % 256 ≡ lo)
octets hi lo small = (omega arith, omega arith)

mapped_lem : (o : Ipv4) → IsIpv4 o → to_ipv4_mapped (mapped o) ≡ some o
unfolding to_ipv4_mapped
mapped_lem o h =
    let first = octets o.a o.b h.1 in
    let last = octets o.c o.d h.3 in rw (to_ipv4_mapped, first.0, first.1, last.0, last.1) refl

-- An address of version 4, and the address of version 6 that stands for it, is blocked exactly when
-- its number is in one of the ranges.
pub is_blocked_ip-ranges :
    (o : Ipv4)
    → IsIpv4 o
    → (is_blocked_ip (v4 o) ≡ any (covers (number o)) blocked_ranges)
      × (is_blocked_ip (v6 (mapped o)) ≡ any (covers (number o)) blocked_ranges)
unfolding is_blocked_ip is_blocked_v6 ends_in
is_blocked_ip-ranges o h =
    (is_blocked_v4-ranges o h, rw (mapped_lem o h) (is_blocked_v4-ranges o h))
