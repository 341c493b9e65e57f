-- ===== src/Web/Tests.antt =====
-- Some hosts: the theorems of the guard at inputs that meet their hypotheses, and runs of it.
use codeberg.Text.{ends_with, Text, codes, same_text, strip_prefix}
use codeberg.Base.{ℕ, ◌≡◌, if◌then◌else◌, true, false, Option, some, arith, refl}
use codeberg.Web.Ssrf.{
  parts, numbers, number, digits, split_dots, is_private_block, is_private_parts, is_private_ipv6,
  mapped, Url, is_private_host, assert_fetchable_url,
}
use codeberg.Web.Ssrf.Blocks.{address, is_reserved}
use codeberg.Web.Ssrf.Laws.{fetched_address_public}

abbrev is_ip : Text → ℕ
is_ip host = if same_text host (codes "93.184.216.34") then 4 else 6

abbrev public_url : Url
public_url = record { protocol = codes "https:"; hostname = codes "93.184.216.34" }

abbrev parse : Text → Option Url
parse raw = some public_url

mapped_test : is_private_ipv6 (codes "::ffff:127.0.0.1") ≡ true
unfolding is_private_ipv6 mapped strip_prefix split_dots number digits parts numbers
    is_private_parts is_private_block
mapped_test = refl

mapped_hex_test : is_private_host is_ip (codes "[::ffff:7f00:1]") ≡ false
unfolding is_private_host ends_with is_private_ipv6 mapped strip_prefix split_dots number digits
    parts numbers is_private_parts is_private_block
mapped_hex_test = refl

fetched_address_public_example : is_reserved (address 93 184 216 34) ≡ false
unfolding assert_fetchable_url is_private_host ends_with parts numbers number digits split_dots
    is_private_parts is_private_block
fetched_address_public_example =
    fetched_address_public is_ip parse (codes "x") public_url 93 184 216 34 refl refl refl
      (omega arith) (omega arith) (omega arith) (omega arith)
