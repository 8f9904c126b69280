-- ===== src/Fetch/Address/Blocks.antt =====
-- Which addresses count as public, stated by ranges of addresses.
use source_rudder.Prelude.{
  ℕ, ◌+◌, ◌-◌, ◌*◌, ◌/◌, ◌^◌, ◌≤◌, ◌<◌, ◌≡◌, refl, ◌≢◌, ◌↔◌, ◌⊎◌, true, false, some, List, [], ◌∷◌,
  arith, ◌==◌, All,
}
use source_rudder.Fetch.Address.{
  is_interface_local_multicast, to4, reserved_blocks, v6, outside, is_public_ip, v4, is_loopback,
  is_link_local_unicast, is_link_local_multicast, is_private, is_multicast, is_unspecified,
  is_public_ipv4,
}

loopback_reserved : (n : ℕ) → is_loopback (v4 n) ≡ true → is_public_ipv4 n ≡ false
unfolding is_loopback to4 is_public_ipv4
loopback_reserved n h = ground arith

link_local_unicast_reserved :
    (n : ℕ) → is_link_local_unicast (v4 n) ≡ true → is_public_ipv4 n ≡ false
unfolding is_link_local_unicast to4 is_public_ipv4
link_local_unicast_reserved n h = ground arith

link_local_multicast_reserved :
    (n : ℕ) → is_link_local_multicast (v4 n) ≡ true → is_public_ipv4 n ≡ false
unfolding is_link_local_multicast to4 is_public_ipv4
link_local_multicast_reserved n h = ground arith

private_reserved : (n : ℕ) → is_private (v4 n) ≡ true → is_public_ipv4 n ≡ false
unfolding is_private to4 is_public_ipv4
private_reserved n h = ground arith

multicast_reserved : (n : ℕ) → is_multicast (v4 n) ≡ true → is_public_ipv4 n ≡ false
unfolding is_multicast to4 is_public_ipv4
multicast_reserved n h = ground arith

unspecified_reserved : (n : ℕ) → is_unspecified (v4 n) ≡ true → is_public_ipv4 n ≡ false
unfolding is_unspecified to4 is_public_ipv4
unspecified_reserved n h = ground arith

-- The address n lies in no block of the list: below its first address or past its last.
abbrev pub Avoids : ℕ → List (ℕ × ℕ) → Type 0
Avoids n [] = Unit
Avoids n ((base, len) ∷ bs) = ((n < base) ⊎ (base + 2 ^ (32 - len) ≤ n)) × Avoids n bs

abbrev Aligned : List (ℕ × ℕ) → Type 0
Aligned = All λ b. (0 < 2 ^ (32 - b.1)) × (b.0 ≡ 2 ^ (32 - b.1) * (b.0 / 2 ^ (32 - b.1)))

mul_gap : (s a b : ℕ) → a < b → s * a + s ≤ s * b
mul_gap s a b h = grind arith

block_range :
    (n base size : ℕ)
    → 0 < size
    → base ≡ size * (base / size)
    → ((n / size == base / size) ≡ false) ↔ ((n < base) ⊎ (base + size ≤ n))
block_range n base size h a = (
  λ e. ground (arith, mul_gap size (n / size) (base / size), mul_gap size (base / size) (n / size)),
  λ e. ground (arith, mul_gap size (n / size) (base / size), mul_gap size (base / size) (n / size)),
)

outside_iff : (n : ℕ) (bs : List (ℕ × ℕ)) → Aligned bs → (outside n bs ≡ true) ↔ Avoids n bs
unfolding outside
outside_iff n [] a = (λ _. tt, λ _. refl)
outside_iff n ((base, len) ∷ bs) a =
    ground (arith, block_range n base (2 ^ (32 - len)) a.0.0 a.0.1, outside_iff n bs a.1)

is_public_ip_of_v4 : (n : ℕ) → is_public_ip (v4 n) ≡ is_public_ipv4 n
unfolding is_public_ip to4 is_interface_local_multicast
is_public_ip_of_v4 n = ground (
  arith,
  loopback_reserved n,
  link_local_unicast_reserved n,
  link_local_multicast_reserved n,
  private_reserved n,
  multicast_reserved n,
  unspecified_reserved n,
)

-- isPublicIP accepts an IPv4 address exactly when it lies in none of the reserved blocks of
-- isPublicIPv4: every other check that it makes of an IPv4 address is implied by these.
pub is_public_ip-v4 : (n : ℕ) → (is_public_ip (v4 n) ≡ true) ↔ Avoids n reserved_blocks
unfolding is_public_ipv4
is_public_ip-v4 n = rw (is_public_ip_of_v4 n) (outside_iff n reserved_blocks (omega arith))

to4-mapped : (n : ℕ) → n < 2 ^ 32 → to4 (v6 (0xffff * 2 ^ 32 + n)) ≡ some n
unfolding to4
to4-mapped n h = ground arith

to4-v4 : (n : ℕ) → to4 (v4 n) ≡ some n
unfolding to4
to4-v4 n = refl

-- An IPv4-mapped IPv6 address is public exactly when the IPv4 address in it is.
pub is_public_ip-mapped :
    (n : ℕ) → n < 2 ^ 32 → is_public_ip (v6 (0xffff * 2 ^ 32 + n)) ≡ is_public_ip (v4 n)
unfolding is_public_ip is_loopback is_link_local_unicast is_link_local_multicast is_private
    is_multicast is_unspecified is_interface_local_multicast
is_public_ip-mapped n h = ground (arith, to4-mapped n h, to4-v4 n)

-- An IPv6 address of 128 bits whose upper 96 bits are not those of an IPv4-mapped one is public
-- exactly when it is neither :: nor ::1, nor in fc00::/7, fe80::/10 or ff00::/8.
pub is_public_ip-v6 :
    (n : ℕ)
    → n < 2 ^ 128
    → n / 2 ^ 32 ≢ 0xffff
    → (is_public_ip (v6 n) ≡ true) ↔ (
        (1 < n)
        × ((n < 0xfc * 2 ^ 120) ⊎ (0xfe * 2 ^ 120 ≤ n))
        × ((n < 0xfe80 * 2 ^ 112) ⊎ (0xfec0 * 2 ^ 112 ≤ n))
        × (n < 0xff * 2 ^ 120))
unfolding is_public_ip to4 is_loopback is_link_local_unicast is_link_local_multicast is_private
    is_multicast is_unspecified is_interface_local_multicast
is_public_ip-v6 n h m = (λ e. ground arith, λ e. ground arith)
