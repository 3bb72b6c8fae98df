-- ===== src/LlAddr.antt =====
-- internal/lladdr/lladdr.go: the IPv6 link-local address of a hardware address. A byte is a number
-- below 256; `net.IP` is the list of its 16 bytes.
use Prim.Native.Nat.{bit_xor}
use terraform_provider_zedam.Prelude.{
  ℕ, zero, suc, ◌<◌, Bool, true, ◌&&◌, not, ◌==◌, List, [], ◌∷◌, Option, none, some, if◌then◌else◌,
  take, length, All, ◌≡◌, ◌≢◌, ◌↔◌, refl, arith, ltb, ==→≡,
}

-- the interface identifier, for the two lengths that the guard lets pass
interface_id : List ℕ → List ℕ
interface_id (a ∷ b ∷ c ∷ d ∷ e ∷ f ∷ []) = bit_xor a 0x02 ∷ b ∷ c ∷ 0xff ∷ 0xfe ∷ d ∷ e ∷ f ∷ []
interface_id (a ∷ rest) = bit_xor a 0x02 ∷ rest
interface_id [] = []

-- `LinkLocalIPv6FromMAC`; the error is `none`
unfoldable pub link_local_ipv6_from_mac : List ℕ → Option (List ℕ)
unfolding interface_id
link_local_ipv6_from_mac hw =
    if not (length hw == 6) && not (length hw == 8)
    then none
    else some (0xfe ∷ 0x80 ∷ 0 ∷ 0 ∷ 0 ∷ 0 ∷ 0 ∷ 0 ∷ interface_id hw)

-- A reading of the address: what `interface_id` does to a MAC of 6 bytes, undone.
unfoldable pub mac_of : List ℕ → List ℕ
mac_of (p ∷ q ∷ r ∷ s ∷ t ∷ u ∷ v ∷ w ∷ a ∷ b ∷ c ∷ x ∷ y ∷ d ∷ e ∷ f ∷ []) =
    bit_xor a 0x02 ∷ b ∷ c ∷ d ∷ e ∷ f ∷ []
mac_of ip = []

-- a test that holds of all numbers below a bound
holds_below : ℕ → (ℕ → Bool) → Bool
holds_below zero test = true
holds_below (suc n) test = test n && holds_below n test

holds_below-elim :
    (n : ℕ) (test : ℕ → Bool) (x : ℕ) → holds_below n test ≡ true → x < n → test x ≡ true
unfolding holds_below
holds_below-elim zero test x h lt = absurd (omega arith)
holds_below-elim (suc n) test x h lt = ground (arith, holds_below-elim n test x)

-- flipping the universal/local bit twice restores the byte
flip_table : holds_below 256 (λ x. bit_xor (bit_xor x 0x02) 0x02 == x) ≡ true
unfolding holds_below
flip_table = refl

flip_twice : (x : ℕ) → x < 256 → bit_xor (bit_xor x 0x02) 0x02 ≡ x
flip_twice x h = ==→≡ _ x (holds_below-elim 256 _ x flip_table h)

byte_table : holds_below 256 (λ x. ltb (bit_xor x 0x02) 256) ≡ true
unfolding holds_below
byte_table = refl

flip_byte : (x : ℕ) → x < 256 → bit_xor x 0x02 < 256
flip_byte x h = ground (arith, holds_below-elim 256 _ x byte_table h)

-- A MAC of 6 bytes gets an address of 16 bytes in fe80::/64, from which it can be read back.
pub mac_of-link_local :
    (hw : List ℕ)
    → length hw ≡ 6
    → All (λ b. b < 256) hw
    → (ip : List ℕ) × (link_local_ipv6_from_mac hw ≡ some ip)
      × (length ip ≡ 16)
      × (take 8 ip ≡ 0xfe ∷ 0x80 ∷ 0 ∷ 0 ∷ 0 ∷ 0 ∷ 0 ∷ 0 ∷ [])
      × All (λ b. b < 256) ip
      × (mac_of ip ≡ hw)
unfolding link_local_ipv6_from_mac mac_of
mac_of-link_local (a ∷ b ∷ c ∷ d ∷ e ∷ f ∷ []) l (ha, rest) =
    (_, refl, refl, refl, ground (arith, flip_byte a ha), rw (flip_twice a ha))
mac_of-link_local hw l bytes = absurd (omega arith)

-- Any other length than 6 or 8 is refused, and these two are not.
pub link_local_none :
    (hw : List ℕ) → (link_local_ipv6_from_mac hw ≡ none) ↔ ((length hw ≢ 6) × (length hw ≢ 8))
unfolding link_local_ipv6_from_mac
link_local_none hw = (λ h. ground arith, λ h. ground arith)
