-- ===== src/SearchArgs.antt =====
-- The arguments of the search command: agent/src/cli/search/args.ts.
--
-- `Number` on a text is an argument, with its values by what the parser asks of them. `argv` is
-- what follows the program and the script.
pub mod Valid
mod Tests
use codeberg.Base.{
  ℕ, zero, suc, ltb, leb, not, ◌&&◌, ◌||◌, if◌then◌else◌, Bool, true, false, Option, none, some,
  List, [], ◌∷◌, ◌++◌,
}
use codeberg.Text.{Text, codes, same_text, starts_with, trim, is_empty}

-- A number: whole from zero on, strictly between zero and one, or none of these.
pub data Number : Type 0 where
  whole between : ℕ → Number
  other : Number

pub data SearchCliError : Type 0 where
  requires_value not_positive not_score unknown_option : Text → SearchCliError
  query_required url_required : SearchCliError

pub record SearchCliOptions : Type 0 where
  pub daemon_url : Text
  pub query : Text
  pub k : Option ℕ
  pub repo : Option Text
  pub path_glob : Option Text
  pub kind : Option Text
  pub min_score : Option Number
  pub hybrid : Bool
  pub json : Bool

pub data Parsed (A : Type 0) : Type 0 where
  parsed : A → Parsed A
  error : SearchCliError → Parsed A

pub data Flag : Type 0 where
  daemon k repo path_glob kind min_score : Flag

abbrev pub is_blank : Text → Bool
is_blank text = is_empty (trim text)

-- `isValueFlag`, with the flag.
unfoldable pub value_flag : Text → Option Flag
value_flag arg =
    if same_text arg (codes "--daemon")
    then some daemon
    else if same_text arg (codes "--k")
    then some k
    else if same_text arg (codes "--repo")
    then some repo
    else if same_text arg (codes "--path-glob")
    then some path_glob
    else if same_text arg (codes "--kind")
    then some kind
    else if same_text arg (codes "--min-score")
    then some min_score
    else none

abbrev pub parse_positive_int : Text → Number → Parsed ℕ
parse_positive_int flag (whole zero) = error (not_positive flag)
parse_positive_int flag (whole (suc n)) = parsed (suc n)
parse_positive_int flag (between n) = error (not_positive flag)
parse_positive_int flag other = error (not_positive flag)

abbrev pub is_score : Number → Bool
is_score (whole n) = leb n 1
is_score (between n) = true
is_score other = false

abbrev pub parse_score : Text → Number → Parsed Number
parse_score flag n = if is_score n then parsed n else error (not_score flag)

-- `options` without a query, and the parts of it.
abbrev pub defaults : Text → SearchCliOptions
defaults url = record {
  daemon_url = url;
  query = [];
  k = none;
  repo = none;
  path_glob = none;
  kind = none;
  min_score = none;
  hybrid = false;
  json = false;
}

abbrev pub with_k : SearchCliOptions → Parsed ℕ → Parsed SearchCliOptions
with_k options (parsed n) = parsed (record options { k = some n })
with_k options (error e) = error e

abbrev pub with_score : SearchCliOptions → Parsed Number → Parsed SearchCliOptions
with_score options (parsed n) = parsed (record options { min_score = some n })
with_score options (error e) = error e

-- `queryParts.join(' ')`
unfoldable pub join : List Text → Text
join [] = []
join (part ∷ []) = part
join (part ∷ (next ∷ rest)) = part ++ 32 ∷ join (next ∷ rest)

-- What follows the loop.
unfoldable pub finish : SearchCliOptions → List Text → Parsed SearchCliOptions
finish options parts =
    if is_empty (trim (join parts))
    then error query_required
    else if is_blank options.daemon_url
    then error url_required
    else parsed (record options { query = trim (join parts) })

-- An argument that takes no value.
unfoldable pub take_arg :
    Text → SearchCliOptions × List Text → Parsed (SearchCliOptions × List Text)
take_arg arg (options, parts) =
    if same_text arg (codes "--hybrid")
    then parsed (record options { hybrid = true }, parts)
    else if same_text arg (codes "--json")
    then parsed (record options { json = true }, parts)
    else if starts_with arg (codes "--")
    then error (unknown_option arg)
    else parsed (options, parts ++ arg ∷ [])

abbrev pub asks_help : List Text → Bool
asks_help [] = true
asks_help (arg ∷ rest) = same_text arg (codes "--help") || same_text arg (codes "-h")

module _ (number : Text → Number) where
  unfoldable pub apply_value_flag : SearchCliOptions → Flag → Text → Text → Parsed SearchCliOptions
  apply_value_flag options daemon flag raw = parsed (record options { daemon_url = raw })
  apply_value_flag options k flag raw = with_k options (parse_positive_int flag (number raw))
  apply_value_flag options repo flag raw = parsed (record options { repo = some raw })
  apply_value_flag options path_glob flag raw = parsed (record options { path_glob = some raw })
  apply_value_flag options kind flag raw = parsed (record options { kind = some raw })
  apply_value_flag options min_score flag raw = with_score options (parse_score flag (number raw))

  -- `applyValueFlag(options, arg, requireValue(arg, value))`
  unfoldable pub take_value : SearchCliOptions → Flag → Text → Option Text → Parsed SearchCliOptions
  take_value options flag arg none = error (requires_value arg)
  take_value options flag arg (some raw) =
      if is_blank raw then error (requires_value arg) else apply_value_flag options flag arg raw

  unfoldable pub parse_loop : List Text → SearchCliOptions × List Text → Parsed SearchCliOptions
  parse_loop [] (options, parts) = finish options parts
  parse_loop (arg ∷ []) (options, parts) = elim (value_flag arg) [
    | some flag ↦ error (requires_value arg)
    | none ↦ (elim (take_arg arg (options, parts)) [
      | error e ↦ error e
      | parsed s ↦ finish s.0 s.1
    ])
  ]
  parse_loop (arg ∷ (value ∷ rest)) (options, parts) = elim (value_flag arg) [
    | some flag ↦ (elim (take_value options flag arg (some value)) [
      | error e ↦ error e
      | parsed next ↦ parse_loop rest (next, parts)
    ])
    | none ↦ (elim (take_arg arg (options, parts)) [
      | error e ↦ error e
      | parsed s ↦ parse_loop (value ∷ rest) s
    ])
  ]

  -- `none` is the text 'help'; `url` is that of the environment or the default.
  unfoldable pub parse_search_args : List Text → Text → Option (Parsed SearchCliOptions)
  parse_search_args argv url =
      if asks_help argv then none else some (parse_loop argv (defaults url, []))
