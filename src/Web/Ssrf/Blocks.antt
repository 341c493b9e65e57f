-- ===== src/Web/Ssrf/Blocks.antt =====
-- The address blocks that the tests on IPv4 addresses stand for.
use codeberg.Base.{
  ℕ, ◌+◌, ◌*◌, ◌==◌, ◌≡◌, ◌≤◌, leb, ◌&&◌, ◌||◌, if◌then◌else◌, Bool, true, false, arith, refl, sym,
}
use codeberg.Web.Ssrf.{is_private_block}

-- The 32-bit address of four octets.
abbrev pub address : ℕ → ℕ → ℕ → ℕ → ℕ
address a b c d = a * 0x1000000 + b * 0x10000 + c * 0x100 + d

abbrev pub within : ℕ → ℕ → ℕ → Bool
within low high n = leb low n && leb n high

-- 0/8, 10/8, 127/8, 169.254/16, 172.16/12, 192.168/16, and all from 224.0.0.0 on.
unfoldable pub is_reserved : ℕ → Bool
is_reserved n =
    within 0 0xffffff n
    || within 0xa000000 0xaffffff n
    || within 0x7f000000 0x7fffffff n
    || within 0xa9fe0000 0xa9feffff n
    || within 0xac100000 0xac1fffff n
    || within 0xc0a80000 0xc0a8ffff n
    || leb 0xe0000000 n

same_bool : (x y : Bool) → (x ≡ true → y ≡ true) → (y ≡ true → x ≡ true) → x ≡ y
same_bool true y f g = sym (f refl)
same_bool false true f g = g refl
same_bool false false f g = refl

-- A chain of tests that end it is their disjunction.
tests_or :
    (x y z u v w t : Bool)
    → (if x || y || z then true else if u then true else if v then true else if w then true else t)
      ≡ (x || y || z || u || v || w || t)
tests_or true y z u v w t = refl
tests_or false true z u v w t = refl
tests_or false false true u v w t = refl
tests_or false false false true v w t = refl
tests_or false false false false true w t = refl
tests_or false false false false false true t = refl
tests_or false false false false false false t = refl

module _ (a b c d : ℕ) (p : b ≤ 255) (q : c ≤ 255) (r : d ≤ 255) where
  block_8 : (k : ℕ) → within (k * 0x1000000) (k * 0x1000000 + 0xffffff) (address a b c d) ≡ (a == k)
  block_8 k = same_bool _ _ (λ h. ground arith) (λ h. ground arith)

  block_16 :
      (k l : ℕ)
      → l ≤ 255
      → within
          (k * 0x1000000 + l * 0x10000)
          (k * 0x1000000 + l * 0x10000 + 0xffff)
          (address a b c d)
        ≡ (a == k && b == l)
  block_16 k l s = same_bool _ _ (λ h. ground arith) (λ h. ground arith)

  block_12 : within 0xac100000 0xac1fffff (address a b c d) ≡ (a == 172 && leb 16 b && leb b 31)
  block_12 = same_bool _ _ (λ h. ground arith) (λ h. ground arith)

  block_3 : leb 0xe0000000 (address a b c d) ≡ leb 224 a
  block_3 = same_bool _ _ (λ h. ground arith) (λ h. ground arith)

  -- The tests on the first two octets hold exactly in the reserved blocks.
  pub is_private_block-is_reserved : is_private_block a b ≡ is_reserved (address a b c d)
  unfolding is_private_block is_reserved
  is_private_block-is_reserved =
      rw
        (
          block_8 0,
          block_8 10,
          block_8 127,
          block_16 169 254 (omega arith),
          block_12,
          block_16 192 168 (omega arith),
          block_3,
        )
        (tests_or (a == 0) (a == 10) (a == 127) (a == 169 && b == 254)
          (a == 172 && leb 16 b && leb b 31) (a == 192 && b == 168) (leb 224 a))
