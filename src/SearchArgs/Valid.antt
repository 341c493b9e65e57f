-- ===== src/SearchArgs/Valid.antt =====
-- Options that the parser returns are fit for a search.
use codeberg.Base.{
  subst, ℕ, zero, suc, ◌<◌, ◌≡◌, Bool, true, false, Option, none, some, List, [], ◌∷◌, ◌++◌, arith,
  Bool-cases, Option-cases, inl, inr, In, here, there, if◌then◌else◌,
}
use codeberg.Text.{
  codes, same_text, starts_with, Text, trim, trim_start, trim_end, is_space, is_empty,
}
use codeberg.Text.Trim.{trim_idem}
use codeberg.SearchArgs.{
  Number, whole, between, other, unknown_option, SearchCliOptions, Parsed, parsed, error, Flag,
  daemon, k, repo, path_glob, kind, min_score, is_blank, value_flag, parse_positive_int, is_score,
  parse_score, defaults, with_k, with_score, join, finish, apply_value_flag, take_value, take_arg,
  parse_loop, asks_help, parse_search_args,
}

abbrev OnSome : {A : Type 0} → (A → Type 0) → Option A → Type 0
OnSome p none = Unit {0}
OnSome p (some a) = p a

abbrev OnParsed : {A : Type 0} → (A → Type 0) → Parsed A → Type 0
OnParsed p (error e) = Unit {0}
OnParsed p (parsed a) = p a

-- A text with a character that is no space.
abbrev IsFilled : Text → Type 0
IsFilled text = (c : ℕ) × (In c text × (is_space c ≡ false))

-- A number between zero and one.
pub data IsScore : Number → Type 0 where
  at_zero : IsScore (whole 0)
  at_one : IsScore (whole 1)
  inside : (n : ℕ) → IsScore (between n)

score_lem : (n : Number) → is_score n ≡ true → IsScore n
score_lem (whole zero) e = at_zero
score_lem (whole (suc zero)) e = at_one
score_lem (whole (suc (suc n))) e = absurd (ground arith)
score_lem (between n) e = inside n
score_lem other e = absurd (cc)

trim_end-IsFilled : (t : Text) → is_empty (trim_end t) ≡ false → IsFilled t
unfolding trim_end
trim_end-IsFilled [] e = absurd (cc)
trim_end-IsFilled (c ∷ t) e = elim (Bool-cases (is_space c)) [
  | inr shown ↦ (c, (here, shown))
  | inl space ↦ elim (Bool-cases (is_empty (trim_end t))) [
    | inl empty ↦ let e' = rw (space, empty, trim_end) at e in absurd (cc)
    | inr more ↦ let (d, (i, shown)) = trim_end-IsFilled t more in (d, (there i, shown))
  ]
]

trim_start-IsFilled : (t : Text) → IsFilled (trim_start t) → IsFilled t
unfolding trim_start
trim_start-IsFilled [] h = h
trim_start-IsFilled (c ∷ t) h = elim (Bool-cases (is_space c)) [
  | inr shown ↦ (c, (here, shown))
  | inl space ↦
      let h' = rw (space, trim_start) at h in
      let (d, (i, shown)) = trim_start-IsFilled t h' in (d, (there i, shown))
]

filled_lem : (t : Text) → is_blank t ≡ false → IsFilled t
unfolding trim
filled_lem t e = trim_start-IsFilled t (trim_end-IsFilled (trim_start t) e)

trim-IsFilled : (t : Text) → is_empty (trim t) ≡ false → IsFilled (trim t)
trim-IsFilled t e = filled_lem (trim t) (rw (trim_idem t) e)

-- The values that the flags gave.
pub record AreFlags (count : Option ℕ) (score : Option Number) (repository glob sort : Option Text)
    : Type 0 where
  pub positive : OnSome (λ n. 0 < n) count
  pub scored : OnSome IsScore score
  pub repo_filled : OnSome IsFilled repository
  pub glob_filled : OnSome IsFilled glob
  pub kind_filled : OnSome IsFilled sort

abbrev pub IsFlagged : SearchCliOptions → Type 0
IsFlagged options = AreFlags options.k options.min_score options.repo options.path_glob options.kind

pub record IsValid (options : SearchCliOptions) : Type 0 where
  pub flagged : IsFlagged options
  pub query_filled : IsFilled options.query
  pub url_filled : IsFilled options.daemon_url

with_k-IsFlagged :
    (options : SearchCliOptions) (flag : Text) (n : Number)
    → IsFlagged options
    → OnParsed IsFlagged (with_k options (parse_positive_int flag n))
with_k-IsFlagged options flag (whole zero) f = tt
with_k-IsFlagged options flag (whole (suc n)) f = record {
  positive = omega arith;
  scored = f.scored;
  repo_filled = f.repo_filled;
  glob_filled = f.glob_filled;
  kind_filled = f.kind_filled;
}
with_k-IsFlagged options flag (between n) f = tt
with_k-IsFlagged options flag other f = tt

with_score-IsFlagged :
    (options : SearchCliOptions) (flag : Text) (n : Number)
    → IsFlagged options
    → OnParsed IsFlagged (with_score options (parse_score flag n))
with_score-IsFlagged options flag n f = elim (Bool-cases (is_score n)) [
  | inr bad ↦ rw bad tt
  | inl good ↦ rw good (record {
    positive = f.positive;
    scored = score_lem n good;
    repo_filled = f.repo_filled;
    glob_filled = f.glob_filled;
    kind_filled = f.kind_filled;
  })
]

if-OnParsed :
    {A : Type 0} (p : A → Type 0) (b : Bool) (x y : Parsed A)
    → OnParsed p x
    → OnParsed p y
    → OnParsed p (if b then x else y)
if-OnParsed p true x y h g = h
if-OnParsed p false x y h g = g

take_arg-IsFlagged :
    (arg : Text) (options : SearchCliOptions) (parts : List Text)
    → IsFlagged options
    → OnParsed (λ (s : SearchCliOptions × List Text). IsFlagged s.0) (take_arg arg (options, parts))
unfolding take_arg
take_arg-IsFlagged arg options parts f =
    let p = λ (s : SearchCliOptions × List Text). IsFlagged s.0 in
    if-OnParsed p (same_text arg (codes "--hybrid"))
      (parsed (record options { hybrid = true }, parts)) _ f
      (if-OnParsed p (same_text arg (codes "--json"))
        (parsed (record options { json = true }, parts)) _ f
        (if-OnParsed p (starts_with arg (codes "--")) (error (unknown_option arg))
          (parsed (options, parts ++ arg ∷ [])) tt f))

finish-IsValid :
    (options : SearchCliOptions) (parts : List Text)
    → IsFlagged options
    → OnParsed IsValid (finish options parts)
unfolding finish
finish-IsValid options parts f = elim (Bool-cases (is_empty (trim (join parts)))) [
  | inl empty ↦ rw empty tt
  | inr filled ↦ elim (Bool-cases (is_blank options.daemon_url)) [
    | inl blank ↦ rw (filled, blank) tt
    | inr url ↦
        rw (filled, url)
          (record {
            flagged = f;
            query_filled = trim-IsFilled (join parts) filled;
            url_filled = filled_lem options.daemon_url url;
          })
  ]
]

-- What follows an argument is valid if it is after every argument that is taken.
bind-IsValid :
    (p : Parsed (SearchCliOptions × List Text))
    (f : SearchCliOptions × List Text → Parsed SearchCliOptions)
    → OnParsed (λ (s : SearchCliOptions × List Text). IsFlagged s.0) p
    → ((s : SearchCliOptions × List Text) → IsFlagged s.0 → OnParsed IsValid (f s))
    → OnParsed IsValid
        (elim p as (λ x. Parsed SearchCliOptions) [ error e ↦ error e | parsed s ↦ f s ])
bind-IsValid (error e) f h v = tt
bind-IsValid (parsed s) f h v = v s h

bind_value-IsValid :
    (p : Parsed SearchCliOptions) (f : SearchCliOptions → Parsed SearchCliOptions)
    → OnParsed IsFlagged p
    → ((o : SearchCliOptions) → IsFlagged o → OnParsed IsValid (f o))
    → OnParsed IsValid
        (elim p as (λ x. Parsed SearchCliOptions) [ error e ↦ error e | parsed o ↦ f o ])
bind_value-IsValid (error e) f h v = tt
bind_value-IsValid (parsed o) f h v = v o h

module _ (number : Text → Number) where
  apply_value_flag-IsFlagged :
      (options : SearchCliOptions) (flag : Flag) (arg raw : Text)
      → IsFilled raw
      → IsFlagged options
      → OnParsed IsFlagged (apply_value_flag number options flag arg raw)
  unfolding apply_value_flag
  apply_value_flag-IsFlagged options daemon arg raw h f = f
  apply_value_flag-IsFlagged options k arg raw h f = with_k-IsFlagged options arg (number raw) f
  apply_value_flag-IsFlagged options repo arg raw h f = record {
    positive = f.positive;
    scored = f.scored;
    repo_filled = h;
    glob_filled = f.glob_filled;
    kind_filled = f.kind_filled;
  }
  apply_value_flag-IsFlagged options path_glob arg raw h f = record {
    positive = f.positive;
    scored = f.scored;
    repo_filled = f.repo_filled;
    glob_filled = h;
    kind_filled = f.kind_filled;
  }
  apply_value_flag-IsFlagged options kind arg raw h f = record {
    positive = f.positive;
    scored = f.scored;
    repo_filled = f.repo_filled;
    glob_filled = f.glob_filled;
    kind_filled = h;
  }
  apply_value_flag-IsFlagged options min_score arg raw h f =
      with_score-IsFlagged options arg (number raw) f

  take_value-IsFlagged :
      (options : SearchCliOptions) (flag : Flag) (arg raw : Text)
      → IsFlagged options
      → OnParsed IsFlagged (take_value number options flag arg (some raw))
  unfolding take_value
  take_value-IsFlagged options flag arg raw f = elim (Bool-cases (is_blank raw)) [
    | inl blank ↦ rw blank tt
    | inr filled ↦
        rw filled (apply_value_flag-IsFlagged options flag arg raw (filled_lem raw filled) f)
  ]

  parse_loop-IsValid :
      (argv : List Text) (options : SearchCliOptions) (parts : List Text)
      → IsFlagged options
      → OnParsed IsValid (parse_loop number argv (options, parts))
  unfolding parse_loop
  parse_loop-IsValid [] options parts f = finish-IsValid options parts f
  parse_loop-IsValid (arg ∷ []) options parts f = elim (Option-cases (value_flag arg)) [
    | inr (flag, found) ↦ rw (found, parse_loop) tt
    | inl plain ↦
        rw (plain, parse_loop)
          (bind-IsValid (take_arg arg (options, parts)) (λ s. finish s.0 s.1)
            (take_arg-IsFlagged arg options parts f) (λ s h. finish-IsValid s.0 s.1 h))
  ]
  parse_loop-IsValid (arg ∷ (value ∷ rest)) options parts f = elim (Option-cases (value_flag arg)) [
    | inr (flag, found) ↦
        rw (found, parse_loop)
          (bind_value-IsValid (take_value number options flag arg (some value))
            (λ o. parse_loop number rest (o, parts)) (take_value-IsFlagged options flag arg value f)
            (λ o h. parse_loop-IsValid rest o parts h))
    | inl plain ↦
        rw (plain, parse_loop)
          (bind-IsValid (take_arg arg (options, parts)) (λ s. parse_loop number (value ∷ rest) s)
            (take_arg-IsFlagged arg options parts f)
            (λ s h. parse_loop-IsValid (value ∷ rest) s.0 s.1 h))
  ]

  -- The options that the parser returns have a query and a daemon's URL with a character that is
  -- no space, a number of results from one on and a score of zero, of one or between them where
  -- they were asked for, and a character that is no space in the repository, the pattern and the
  -- kind that were given.
  pub parse_search_args-IsValid :
      (argv : List Text) (url : Text) (options : SearchCliOptions)
      → parse_search_args number argv url ≡ some (parsed options)
      → IsValid options
  unfolding parse_search_args
  parse_search_args-IsValid argv url options e = elim (Bool-cases (asks_help argv)) [
    | inl help ↦ let e' = rw (help, parse_search_args) at e in absurd (cc)
    | inr search ↦
        let e' = rw (search, parse_search_args) at e in
        let same : parse_loop number argv (defaults url, []) ≡ parsed options = cc in
        subst (OnParsed IsValid) same (
          parse_loop-IsValid argv (defaults url) [] (record {
            positive = tt;
            scored = tt;
            repo_filled = tt;
            glob_filled = tt;
            kind_filled = tt;
          }))
  ]
