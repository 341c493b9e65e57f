-- ===== src/Web/Ssrf.antt =====
-- Which hosts are private, and which URLs may be fetched.
pub mod Blocks
pub mod Laws
use codeberg.Text.{Text, codes, ends_with, is_empty, same_text, starts_with, strip_prefix}
use codeberg.Base.{
  ℕ, ◌+◌, ◌-◌, ◌*◌, ◌==◌, leb, ltb, ◌&&◌, ◌||◌, not, if◌then◌else◌, Bool, true, false, Option, none,
  some, List, [], ◌∷◌, ◌++◌, map, length, drop,
}

-- `toLowerCase`, of ASCII.
abbrev pub lower : ℕ → ℕ
lower c = if leb b'A' c && leb c b'Z' then c + 32 else c

abbrev pub to_lower : Text → Text
to_lower t = map lower t

abbrev pub drop_open : Text → Text
drop_open [] = []
drop_open (c ∷ t) = if c == b'[' then t else c ∷ t

abbrev pub drop_close : Text → Text
drop_close [] = []
drop_close (c ∷ t) = if c == b']' && is_empty t then [] else c ∷ drop_close t

-- The host in lower case, without the brackets of an IPv6 address.
abbrev pub bare : Text → Text
bare hostname = drop_close (drop_open (to_lower hostname))

-- `split('.')`, after the part read so far.
unfoldable pub split_dots : Text → Text → List Text
split_dots part [] = part ∷ []
split_dots part (c ∷ t) =
    if c == b'.' then part ∷ split_dots [] t else split_dots (part ++ c ∷ []) t

abbrev pub is_digit : ℕ → Bool
is_digit c = leb b'0' c && leb c b'9'

unfoldable pub digits : ℕ → Text → Option ℕ
digits n [] = some n
digits n (c ∷ t) = let rest = digits (n * 10 + (c - b'0')) t in if is_digit c then rest else none

-- `Number` of a part; each part that reaches it is made of digits, and any other is `none`.
unfoldable pub number : Text → Option ℕ
number t = if is_empty t then none else digits 0 t

unfoldable pub numbers : List Text → List (Option ℕ)
numbers [] = []
numbers (t ∷ rest) = number t ∷ numbers rest

unfoldable pub parts : Text → List (Option ℕ)
parts ip = numbers (split_dots [] ip)

abbrev pub is_octet : ℕ → Bool
is_octet n = leb n 255

-- The tests on the first two numbers of an address.
unfoldable pub is_private_block : ℕ → ℕ → Bool
is_private_block a b =
    if a == 0 || a == 10 || a == 127
    then true
    else if a == 169 && b == 254
    then true
    else if a == 172 && leb 16 b && leb b 31
    then true
    else if a == 192 && b == 168
    then true
    else leb 224 a

unfoldable pub is_private_parts : List (Option ℕ) → Bool
is_private_parts (some a ∷ (some b ∷ (some c ∷ (some d ∷ [])))) =
    if is_octet a && is_octet b && is_octet c && is_octet d then is_private_block a b else true
is_private_parts _ = true

abbrev pub is_private_ipv4 : Text → Bool
is_private_ipv4 ip = is_private_parts (parts ip)

abbrev pub is_number : Text → Bool
is_number t = elim (number t) [ none ↦ false | some n ↦ true ]

-- `\d+\.\d+\.\d+\.\d+`
abbrev pub is_quad : List Text → Bool
is_quad (a ∷ (b ∷ (c ∷ (d ∷ [])))) = is_number a && is_number b && is_number c && is_number d
is_quad _ = false

unfoldable pub mapped : Text → Option Text
mapped host = elim (strip_prefix (codes "::ffff:") host) [
  | none ↦ none
  | some ip ↦ if is_quad (split_dots [] ip) then some ip else none
]

unfoldable pub is_private_ipv6 : Text → Bool
is_private_ipv6 ip =
    let host = to_lower ip in
    if same_text host (codes "::1") || same_text host (codes "::")
    then true
    else if starts_with host (codes "fe80")
    then true
    else if starts_with host (codes "fc") || starts_with host (codes "fd")
    then true
    else (elim (mapped host) [ none ↦ false | some v4 ↦ is_private_ipv4 v4 ])

pub record Url : Type 0 where
  pub protocol : Text
  pub hostname : Text

pub data Fetch : Type 0 where
  fetchable : Url → Fetch
  invalid_url unsupported_scheme blocked_host private_host : Fetch

abbrev pub blocked_hostnames : List Text
blocked_hostnames = codes "metadata.google.internal" ∷ codes "metadata.goog" ∷ []

abbrev pub is_blocked : List Text → Text → Bool
is_blocked [] host = false
is_blocked (b ∷ rest) host = same_text b host || is_blocked rest host

abbrev pub is_web : Text → Bool
is_web protocol = same_text protocol (codes "http:") || same_text protocol (codes "https:")

module _ (is_ip : Text → ℕ) where
  unfoldable pub is_private_host : Text → Bool
  is_private_host hostname =
      let host = bare hostname in
      if same_text host (codes "localhost") || ends_with host (codes ".localhost")
      then true
      else if ends_with host (codes ".local")
      then true
      else if is_ip host == 4
      then is_private_ipv4 host
      else if is_ip host == 6
      then is_private_ipv6 host
      else false

  unfoldable pub assert_fetchable_url : (Text → Option Url) → Text → Bool → Fetch
  assert_fetchable_url parse raw allow_private = elim (parse raw) [
    | none ↦ invalid_url
    | some url ↦
        if not (is_web url.protocol)
        then unsupported_scheme
        else if is_blocked blocked_hostnames (to_lower url.hostname)
        then blocked_host
        else if not allow_private && is_private_host url.hostname
        then private_host
        else fetchable url
  ]
