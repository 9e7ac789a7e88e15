-- ===== src/Server/Hosted/Addresses/Tests.antt =====
-- The theorems on addresses at concrete inputs.
use zca_desktop.Common.{◌≡◌, refl, true, none, some, [], ◌∷◌, any, number_equality, ok, err, arith}
use zca_desktop.Server.{bad_request}
use zca_desktop.Server.Hosted.Addresses.{
  Ipv4, v4, v6, is_blocked_ip, Names, addresses, ensure_public_host,
}
use zca_desktop.Server.Hosted.Addresses.Ranges.{
  IsIpv4, number, covers, blocked_ranges, mapped, is_blocked_ip-ranges,
}
use zca_desktop.Server.Hosted.Addresses.Refused.{in_mapped_range, ensure_public_host-refuses}

-- The address of a cloud's metadata.
abbrev metadata : Ipv4
metadata = record { a = 169; b = 254; c = 169; d = 254 }

metadata-IsIpv4 : IsIpv4 metadata
metadata-IsIpv4 = (omega arith, omega arith, omega arith, omega arith)

-- A resolver whose answer has a public address before a mapped one that is not.
abbrev names : Names
names = record {
  parse = λ host. none;
  lookup_host =
      λ host port. some (v4 (record { a = 8; b = 8; c = 8; d = 8 }) ∷ v6 (mapped metadata) ∷ []);
}

is_blocked_ip-ranges_example :
    (is_blocked_ip (v4 metadata) ≡ any (covers (number metadata)) blocked_ranges)
    × (is_blocked_ip (v6 (mapped metadata)) ≡ any (covers (number metadata)) blocked_ranges)
is_blocked_ip-ranges_example = is_blocked_ip-ranges metadata metadata-IsIpv4

inside : any (covers (number metadata)) blocked_ranges ≡ true
unfolding any covers number
inside = refl

resolved :
    addresses names "media.example" 443
    ≡ ok (v4 (record { a = 8; b = 8; c = 8; d = 8 }) ∷ v6 (mapped metadata) ∷ [])
unfolding addresses
resolved = refl

ensure_public_host-refuses_example :
    ensure_public_host names
      (record { text = "https://media.example/a"; host = some "media.example"; port = none })
    ≡ err (bad_request "media host is not allowed")
ensure_public_host-refuses_example =
    ensure_public_host-refuses names "https://media.example/a" "media.example" none
      (v4 (record { a = 8; b = 8; c = 8; d = 8 }) ∷ []) [] (v6 (mapped metadata))
      (in_mapped_range metadata metadata-IsIpv4 inside) resolved
