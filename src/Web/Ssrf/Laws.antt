-- ===== src/Web/Ssrf/Laws.antt =====
-- What a URL that may be fetched is.
use codeberg.Text.{Text, codes, ends_with, same_text}
use codeberg.Base.{
  ℕ, ◌≡◌, ◌⊎◌, ◌≤◌, ◌&&◌, ◌||◌, not, Bool, true, false, Option, some, [], ◌∷◌, arith, refl,
  Bool-cases, Option-cases, subst, inl, inr, ap, sym, ◌∙◌,
}
use codeberg.Web.Ssrf.{
  bare, parts, is_octet, is_private_parts, is_private_ipv4, Url, fetchable, blocked_hostnames,
  is_blocked, to_lower, is_web, is_private_host, assert_fetchable_url,
}
use codeberg.Web.Ssrf.Blocks.{address, is_reserved, is_private_block-is_reserved}

-- For a text of four octets isPrivateIPv4 holds exactly if the 32-bit address lies in one of the
-- blocks 0/8, 10/8, 127/8, 169.254/16, 172.16/12, 192.168/16 or from 224.0.0.0 on.
pub is_private_ipv4-is_reserved :
    (ip : Text) (a b c d : ℕ)
    → parts ip ≡ some a ∷ some b ∷ some c ∷ some d ∷ []
    → a ≤ 255
    → b ≤ 255
    → c ≤ 255
    → d ≤ 255
    → is_private_ipv4 ip ≡ is_reserved (address a b c d)
unfolding is_private_parts
is_private_ipv4-is_reserved ip a b c d split o p q r =
    let fits : (is_octet a && is_octet b && is_octet c && is_octet d) ≡ true = ground arith in
    rw (split, is_private_parts, fits) (is_private_block-is_reserved a b c d p q r)

-- What `assertFetchableUrl` promises of the URL that it returns.
record IsFetchable (is_ip : Text → ℕ) (allow_private : Bool) (url : Url) : Type 0 where
  pub web : is_web url.protocol ≡ true
  pub free : is_blocked blocked_hostnames (to_lower url.hostname) ≡ false
  pub public : (allow_private ≡ true) ⊎ (is_private_host is_ip url.hostname ≡ false)

not_and : (x y : Bool) → (not x && y) ≡ false → (x ≡ true) ⊎ (y ≡ false)
not_and true y h = inl refl
not_and false y h = inr h

module _ (is_ip : Text → ℕ) where
  checked :
      (parse : Text → Option Url) (raw : Text) (allow_private : Bool) (url result : Url)
      → parse raw ≡ some url
      → assert_fetchable_url is_ip parse raw allow_private ≡ fetchable result
      → (url ≡ result) × IsFetchable is_ip allow_private url
  unfolding assert_fetchable_url
  checked parse raw allow url result e f = elim (Bool-cases (is_web url.protocol)) [
    | inr other ↦ let f' = rw (e, assert_fetchable_url, other) at f in absurd (cc)
    | inl web ↦ elim (Bool-cases (is_blocked blocked_hostnames (to_lower url.hostname))) [
      | inl blocked ↦ let f' = rw (e, assert_fetchable_url, web, blocked) at f in absurd (cc)
      | inr free ↦ elim (Bool-cases (not allow && is_private_host is_ip url.hostname)) [
        | inl private ↦
            let f' = rw (e, assert_fetchable_url, web, free, private) at f in absurd (cc)
        | inr public ↦
            let f' = rw (e, assert_fetchable_url, web, free, public) at f in
            (
              cc,
              record {
                web = web;
                free = free;
                public = not_and allow (is_private_host is_ip url.hostname) public;
              },
            )
      ]
    ]
  ]

  -- What the tests of a URL that is returned gave.
  assert_fetchable_url-IsFetchable :
      (parse : Text → Option Url) (raw : Text) (allow_private : Bool) (result : Url)
      → assert_fetchable_url is_ip parse raw allow_private ≡ fetchable result
      → (parse raw ≡ some result) × IsFetchable is_ip allow_private result
  unfolding assert_fetchable_url
  assert_fetchable_url-IsFetchable parse raw allow result f = elim (Option-cases (parse raw)) [
    | inl wrong ↦ let f' = rw (wrong, assert_fetchable_url) at f in absurd (cc)
    | inr (url, e) ↦
        let (same, good) = checked parse raw allow url result e f in
        (e ∙ ap some same, subst (IsFetchable is_ip allow) same good)
  ]

  public_ipv4 :
      (hostname : Text)
      → is_private_host is_ip hostname ≡ false
      → is_ip (bare hostname) ≡ 4
      → is_private_ipv4 (bare hostname) ≡ false
  unfolding is_private_host
  public_ipv4 hostname h v =
      elim (Bool-cases (
        same_text (bare hostname) (codes "localhost")
        || ends_with (bare hostname) (codes ".localhost"))) [
          | inl local ↦ let h' = rw (local, is_private_host) at h in absurd (cc)
          | inr named ↦ elim (Bool-cases (ends_with (bare hostname) (codes ".local"))) [
            | inl local ↦ let h' = rw (named, is_private_host, local) at h in absurd (cc)
            | inr other ↦ let h' = rw (named, is_private_host, other, v) at h in h'
          ]
        ]

  -- If assertFetchableUrl returns a URL when private hosts are not allowed, and its host, bare of
  -- brackets, is an IPv4 address of four octets, then that address lies in none of the reserved
  -- blocks.
  pub fetched_address_public :
      (parse : Text → Option Url) (raw : Text) (result : Url) (a b c d : ℕ)
      → assert_fetchable_url is_ip parse raw false ≡ fetchable result
      → is_ip (bare result.hostname) ≡ 4
      → parts (bare result.hostname) ≡ some a ∷ some b ∷ some c ∷ some d ∷ []
      → a ≤ 255
      → b ≤ 255
      → c ≤ 255
      → d ≤ 255
      → is_reserved (address a b c d) ≡ false
  fetched_address_public parse raw result a b c d f v split o p q r =
      let good = (assert_fetchable_url-IsFetchable parse raw false result f).1 in
      elim good.public [
        | inl allowed ↦ absurd (cc)
        | inr public ↦
            sym (is_private_ipv4-is_reserved (bare result.hostname) a b c d split o p q r)
            ∙ public_ipv4 result.hostname public v
      ]
