-- ===== src/Config/Network.antt =====
-- src/config.rs, `is_private_ipv4`: the addresses to which a handler may not point.
use qhook.Prelude.{ℕ, ◌+◌, ◌*◌, ◌/◌, ◌<◌, ◌≡◌, Bool, ◌&&◌, ◌||◌, arith, leb, nat_beq}

-- `Ipv4Addr::octets`
pub record Ipv4Addr : Type 0 where
  pub o0 : ℕ
  pub o1 : ℕ
  pub o2 : ℕ
  pub o3 : ℕ

unfoldable pub is_private_ipv4 : Ipv4Addr → Bool
is_private_ipv4 ip =
    nat_beq ip.o0 10
    || nat_beq ip.o0 172 && leb 16 ip.o1 && leb ip.o1 31
    || nat_beq ip.o0 192 && nat_beq ip.o1 168
    || nat_beq ip.o0 169 && nat_beq ip.o1 254

-- The address as one number of 32 bits.
abbrev pub bits : Ipv4Addr → ℕ
bits ip = ip.o0 * 16777216 + ip.o1 * 65536 + ip.o2 * 256 + ip.o3

pub record IsOctets (ip : Ipv4Addr) : Type 0 where
  pub b0 : ip.o0 < 256
  pub b1 : ip.o1 < 256
  pub b2 : ip.o2 < 256
  pub b3 : ip.o3 < 256

-- Whether the address lies in a block: it agrees with the block's first address beyond the host
-- part, of which `size` is the number of addresses.
abbrev pub in_block : ℕ → ℕ → ℕ → Bool
in_block base size address = nat_beq (address / size) (base / size)

-- 10.0.0.0/8, 172.16.0.0/12, 192.168.0.0/16 and 169.254.0.0/16
unfoldable pub in_private_blocks : ℕ → Bool
in_private_blocks a =
    in_block 167772160 16777216 a
    || in_block 2886729728 1048576 a
    || in_block 3232235520 65536 a
    || in_block 2851995648 65536 a

first_octet : (ip : Ipv4Addr) → IsOctets ip → bits ip / 16777216 ≡ ip.o0
first_octet ip h = omega (arith, h.b0, h.b1, h.b2, h.b3)

two_octets : (ip : Ipv4Addr) → IsOctets ip → bits ip / 65536 ≡ ip.o0 * 256 + ip.o1
two_octets ip h = omega (arith, h.b0, h.b1, h.b2, h.b3)

twelve_bits : (ip : Ipv4Addr) → IsOctets ip → bits ip / 1048576 ≡ ip.o0 * 16 + ip.o1 / 16
twelve_bits ip h = omega (arith, h.b0, h.b1, h.b2, h.b3)

-- The test on the octets is membership in the four blocks that the comments of the code name, as
-- blocks of addresses of 32 bits.
pub is_private_ipv4-in_private_blocks :
    (ip : Ipv4Addr) → IsOctets ip → is_private_ipv4 ip ≡ in_private_blocks (bits ip)
unfolding is_private_ipv4 in_private_blocks
is_private_ipv4-in_private_blocks ip h =
    rw (first_octet ip h, two_octets ip h, twelve_bits ip h) (ground (arith, h.b0, h.b1))
