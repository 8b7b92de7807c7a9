-- ===== src/Element/Digest.antt =====
-- A digest is read back from its hexadecimal spelling.
use ndn_sim.Prelude.{ℕ, ◌<◌, ◌/◌, ◌%◌, ◌*◌, ◌≡◌, refl, [], ◌∷◌, some, length, All, arith}
use ndn_sim.Element.{Digest, hex, hex_digit, octet, octets, unhex}

abbrev pub IsOctet : ℕ → Type 0
IsOctet b = b < 256

octet-hex_digit : (b : ℕ) → b < 256 → octet (hex_digit (b / 16)) (hex_digit (b % 16)) ≡ some b
octet-hex_digit b h = ground arith

octets-hex : (ds : Digest) → All IsOctet ds → octets (hex ds) ≡ some ds
unfolding octets hex
octets-hex [] h = refl
octets-hex (d ∷ ds) h = rw (octets, octet-hex_digit d h.0, octets-hex ds h.1) refl

length-hex : (ds : Digest) → length (hex ds) ≡ 2 * length ds
unfolding hex
length-hex [] = refl
length-hex (d ∷ ds) = omega (arith, length-hex ds)

-- A digest of 32 octets is what its lower-case spelling is read as.
pub unhex-hex : (ds : Digest) → All IsOctet ds → length ds ≡ 32 → unhex (hex ds) ≡ some ds
unfolding unhex
unhex-hex ds h n =
    let size : length (hex ds) ≡ 64 = omega (arith, length-hex ds, n) in
    rw (unhex, size) (octets-hex ds h)
