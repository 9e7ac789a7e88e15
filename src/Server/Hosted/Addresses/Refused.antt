-- ===== src/Server/Hosted/Addresses/Refused.antt =====
-- What `ensure_public_host` (sessions.rs) refuses.
use zca_desktop.Common.{
  ℕ, ◌≡◌, refl, ◌∙◌, String, Bool, true, Option, some, List, [], ◌∷◌, ◌++◌, any, ok, err, unwrap_or,
  arith, ◌≤◌, ◌/◌, number_equality,
}
use zca_desktop.Server.{bad_request}
use zca_desktop.Server.Hosted.Addresses.{
  Ipv4, Ipv6, IpAddr, v4, v6, is_blocked_ip, is_blocked_v6, ends_in, Names, addresses, judge,
  ensure_public_host,
}
use zca_desktop.Server.Hosted.Addresses.Ranges.{
  IsIpv4, number, covers, blocked_ranges, mapped, is_blocked_ip-ranges,
}

-- The address of version 6 with this last segment and no other.
abbrev pub last_segment : ℕ → Ipv6
last_segment n = record { s0 = 0; s1 = 0; s2 = 0; s3 = 0; s4 = 0; s5 = 0; s6 = 0; s7 = n }

any-middle {ℓ} :
    {A : Type ℓ} (p : A → Bool) (before : List A) (x : A) (after : List A)
    → p x ≡ true
    → any p (before ++ x ∷ after) ≡ true
unfolding any
any-middle p [] x after h = rw h refl
any-middle p (y ∷ before) x after h = ground (arith, any-middle p before x after h)

judge-blocked :
    (before after : List IpAddr) (ip : IpAddr)
    → is_blocked_ip ip ≡ true
    → judge (before ++ ip ∷ after) ≡ err (bad_request "media host is not allowed")
unfolding judge
judge-blocked [] after ip h = rw (any-middle is_blocked_ip [] ip after h) refl
judge-blocked (x ∷ before) after ip h = rw (any-middle is_blocked_ip (x ∷ before) ip after h) refl

-- The addresses that no media may come from: those of version 4 in the ranges, in either spelling, and
-- of version 6 the loopback address, the unspecified one, fc00::/7 and fe80::/10.
pub data IsForbidden : IpAddr → Type 0 where
  in_range :
      (o : Ipv4) → IsIpv4 o → any (covers (number o)) blocked_ranges ≡ true → IsForbidden (v4 o)
  in_mapped_range :
      (o : Ipv4)
      → IsIpv4 o
      → any (covers (number o)) blocked_ranges ≡ true
      → IsForbidden (v6 (mapped o))
  loopback_v6 : IsForbidden (v6 (last_segment 1))
  unspecified_v6 : IsForbidden (v6 (last_segment 0))
  unique_local : (x : Ipv6) → 64512 ≤ x.s0 → x.s0 ≤ 65023 → IsForbidden (v6 x)
  link_local_v6 : (x : Ipv6) → 65152 ≤ x.s0 → x.s0 ≤ 65215 → IsForbidden (v6 x)

blocked : (ip : IpAddr) → IsForbidden ip → is_blocked_ip ip ≡ true
unfolding is_blocked_ip is_blocked_v6 ends_in
blocked ip (in_range o bytes inside) = (is_blocked_ip-ranges o bytes).0 ∙ inside
blocked ip (in_mapped_range o bytes inside) = (is_blocked_ip-ranges o bytes).1 ∙ inside
blocked ip loopback_v6 = refl
blocked ip unspecified_v6 = refl
blocked ip (unique_local x low high) =
    let e : x.s0 / 512 ≡ 126 = omega arith in
    ground (arith, e, number_equality.equal_iff (x.s0 / 512) 126)
blocked ip (link_local_v6 x low high) =
    let e : x.s0 / 64 ≡ 1018 = omega arith in
    ground (arith, e, number_equality.equal_iff (x.s0 / 64) 1018)

-- A URL is refused when one of the addresses of its host, wherever it stands among them, is in one of
-- the blocked ranges of version 4, also as the address of version 6 that stands for it, or is ::1, ::,
-- in fc00::/7 or in fe80::/10.
pub ensure_public_host-refuses :
    (n : Names) (text host : String) (port : Option ℕ) (before after : List IpAddr) (ip : IpAddr)
    → IsForbidden ip
    → addresses n host (unwrap_or port 443) ≡ ok (before ++ ip ∷ after)
    → ensure_public_host n (record { text = text; host = some host; port = port })
      ≡ err (bad_request "media host is not allowed")
unfolding ensure_public_host
ensure_public_host-refuses n text host port before after ip forbidden_ip found =
    rw (ensure_public_host, found) (judge-blocked before after ip (blocked ip forbidden_ip))
