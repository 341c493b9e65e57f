-- ===== src/SearchArgs/Tests.antt =====
-- Searches from the command line: the theorem at an input that meets its hypothesis, and errors.
use codeberg.Base.{◌≡◌, true, false, none, some, [], ◌∷◌, refl, if◌then◌else◌}
use codeberg.Text.{Text, codes, same_text, strip_prefix, trim, trim_start, trim_end, is_space}
use codeberg.SearchArgs.{
  Number, whole, other, SearchCliOptions, error, requires_value, not_positive, value_flag,
  take_value, take_arg, apply_value_flag, parse_loop, parse_search_args, finish, join,
}
use codeberg.SearchArgs.Valid.{IsValid, parse_search_args-IsValid}

abbrev number : Text → Number
number text =
    if same_text text (codes "5")
    then whole 5
    else if same_text text (codes "0")
    then whole 0
    else other

abbrev url : Text
url = codes "http://127.0.0.1"

abbrev five_results : SearchCliOptions
five_results = record {
  daemon_url = url;
  query = codes "open file";
  k = some 5;
  repo = none;
  path_glob = none;
  kind = none;
  min_score = none;
  hybrid = true;
  json = false;
}

parse_search_args-IsValid_example : IsValid five_results
unfolding parse_search_args parse_loop value_flag take_value take_arg apply_value_flag finish join
    strip_prefix trim trim_start trim_end is_space
parse_search_args-IsValid_example =
    parse_search_args-IsValid number
      (codes "open" ∷ codes "--k" ∷ codes "5" ∷ codes "--hybrid" ∷ codes "file" ∷ []) url
      five_results refl

no_value_test :
    parse_search_args number (codes "open" ∷ codes "--k" ∷ []) url
    ≡ some (error (requires_value (codes "--k")))
unfolding parse_search_args parse_loop value_flag take_value take_arg strip_prefix
no_value_test = refl

no_results_test :
    parse_search_args number (codes "--k" ∷ codes "0" ∷ codes "open" ∷ []) url
    ≡ some (error (not_positive (codes "--k")))
unfolding parse_search_args parse_loop value_flag take_value take_arg apply_value_flag strip_prefix
    trim trim_start trim_end is_space
no_results_test = refl
