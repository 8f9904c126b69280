-- ===== src/Fetch/Address.antt =====
-- isPublicIP and isPublicIPv4 of internal/fetch/fetcher.go, with the predicates of net.IP that they
-- call. An address is the number that its 4 or 16 bytes spell.
pub mod Blocks
use source_rudder.Prelude.{
  ℕ, ◌+◌, ◌-◌, ◌*◌, ◌/◌, ◌%◌, ◌^◌, Bool, true, false, ◌&&◌, ◌||◌, Option, none, some, List, [], ◌∷◌,
  ◌==◌, if◌then◌else◌, bytes,
}

pub data Ip : Type 0 where
  v4 v6 : ℕ → Ip

-- ip.To4(): the 4 bytes, also of an IPv4-mapped IPv6 address ::ffff:a.b.c.d.
unfoldable pub to4 : Ip → Option ℕ
to4 (v4 n) = some n
to4 (v6 n) = if n / 2 ^ 32 == 0xffff then some (n % 2 ^ 32) else none

-- block.Contains(ip), for a block of 2 ^ (32 - len) addresses from `base` on.
abbrev pub in_block : ℕ → ℕ × ℕ → Bool
in_block n (base, len) = n / 2 ^ (32 - len) == base / 2 ^ (32 - len)

-- a.b.c.d
abbrev pub quad : ℕ → ℕ → ℕ → ℕ → ℕ
quad a b c d = a * 2 ^ 24 + b * 2 ^ 16 + c * 2 ^ 8 + d

-- Byte i of a 16-byte address.
abbrev pub byte : ℕ → ℕ → ℕ
byte n i = n / 2 ^ (8 * (15 - i)) % 256

unfoldable pub is_loopback : Ip → Bool
is_loopback ip = elim (to4 ip) [
  | some n ↦ in_block n (quad 127 0 0 0, 8)
  | none ↦ elim ip [ v4 n ↦ false | v6 n ↦ n == 1 ]
]

unfoldable pub is_link_local_unicast : Ip → Bool
is_link_local_unicast ip = elim (to4 ip) [
  | some n ↦ in_block n (quad 169 254 0 0, 16)
  | none ↦ elim ip [ v4 n ↦ false | v6 n ↦ byte n 0 == 0xfe && byte n 1 / 64 == 2 ]
]

unfoldable pub is_link_local_multicast : Ip → Bool
is_link_local_multicast ip = elim (to4 ip) [
  | some n ↦ in_block n (quad 224 0 0 0, 24)
  | none ↦ elim ip [ v4 n ↦ false | v6 n ↦ byte n 0 == 0xff && byte n 1 % 16 == 2 ]
]

unfoldable pub is_private : Ip → Bool
is_private ip = elim (to4 ip) [
  | some n ↦
      in_block n (quad 10 0 0 0, 8)
      || in_block n (quad 172 16 0 0, 12)
      || in_block n (quad 192 168 0 0, 16)
  | none ↦ elim ip [ v4 n ↦ false | v6 n ↦ byte n 0 / 2 == 0x7e ]
]

unfoldable pub is_multicast : Ip → Bool
is_multicast ip = elim (to4 ip) [
  | some n ↦ in_block n (quad 224 0 0 0, 4)
  | none ↦ elim ip [ v4 n ↦ false | v6 n ↦ byte n 0 == 0xff ]
]

unfoldable pub is_unspecified : Ip → Bool
is_unspecified ip = elim (to4 ip) [
  | some n ↦ n == 0
  | none ↦ elim ip [ v4 n ↦ false | v6 n ↦ n == 0 ]
]

unfoldable pub is_interface_local_multicast : Ip → Bool
is_interface_local_multicast (v4 n) = false
is_interface_local_multicast (v6 n) = byte n 0 == 0xff && byte n 1 % 16 == 1

-- The CIDR blocks that isPublicIPv4 lists.
abbrev pub reserved_blocks : List (ℕ × ℕ)
reserved_blocks =
    (quad 10 0 0 0, 8)
    ∷ (quad 172 16 0 0, 12)
    ∷ (quad 192 168 0 0, 16)
    ∷ (quad 127 0 0 0, 8)
    ∷ (quad 169 254 0 0, 16)
    ∷ (quad 0 0 0 0, 8)
    ∷ (quad 100 64 0 0, 10)
    ∷ (quad 192 0 0 0, 24)
    ∷ (quad 192 0 2 0, 24)
    ∷ (quad 198 18 0 0, 15)
    ∷ (quad 198 51 100 0, 24)
    ∷ (quad 203 0 113 0, 24)
    ∷ (quad 224 0 0 0, 4)
    ∷ (quad 240 0 0 0, 4)
    ∷ []

unfoldable pub outside : ℕ → List (ℕ × ℕ) → Bool
outside n [] = true
outside n (b ∷ bs) = if in_block n b then false else outside n bs

unfoldable pub is_public_ipv4 : ℕ → Bool
unfolding outside
is_public_ipv4 n = outside n reserved_blocks

unfoldable pub is_public_ip : Ip → Bool
is_public_ip ip =
    if is_loopback ip || is_link_local_unicast ip || is_link_local_multicast ip
    then false
    else if is_private ip || is_multicast ip || is_unspecified ip
    then false
    else if is_interface_local_multicast ip
    then false
    else elim (to4 ip) [ some n ↦ is_public_ipv4 n | none ↦ true ]
