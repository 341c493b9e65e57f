-- ===== src/History/Files/Laws/Found.antt =====
-- What `historyFilesIn` and `dedupe` give: every tag with a path, and nothing but paths.
use codeberg.Text.Same.{eq_of_same_text}
use codeberg.Text.{Text, is_empty, same_text, trim}
use codeberg.Text.Trim.{trim-All, trim_idem}
use codeberg.Base.{
  ◌==◌, ◌≡◌, ◌⊎◌, true, false, List, [], ◌∷◌, ◌++◌, In, In-cons, here, there, In-append,
  In-append_left, In-append_right, subst, Bool-cases, inl, inr, ap, sym, ◌∙◌,
}
use codeberg.History.Messages.{ModelMessage}
use codeberg.History.Files.{captures, trimmed, history_files_in, has, dedupe_from, dedupe}
use codeberg.History.Files.Laws.Scan.{HasNoLt, captures-HasNoLt}

-- A path as a tag carries it: not empty, trimmed, without `<`.
pub record IsPath (f : Text) : Type 0 where
  pub no_lt : HasNoLt f
  pub filled : is_empty f ≡ false
  pub trims : trim f ≡ f

In-trimmed :
    (l : List Text) {f : Text}
    → In f (trimmed l)
    → (g : Text) × In g l × (f ≡ trim g) × (is_empty (trim g) ≡ false)
unfolding trimmed
In-trimmed [] i = elim i [ ]
In-trimmed (g ∷ l) i = elim (Bool-cases (is_empty (trim g))) [
  | inl empty ↦ let (h, j, e, n) = In-trimmed l (rw (empty, trimmed) at i) in (h, there j, e, n)
  | inr filled ↦ elim (In-cons (rw (filled, trimmed) at i)) [
    | inl same ↦ (g, here, sym same, filled)
    | inr k ↦ let (h, j, e, n) = In-trimmed l k in (h, there j, e, n)
  ]
]

In-trimmed_of :
    (l : List Text) {g : Text} → In g l → trim g ≡ g → is_empty g ≡ false → In g (trimmed l)
unfolding trimmed
In-trimmed_of [] i t n = elim i [ ]
In-trimmed_of (x ∷ l) {g} i t n = elim (In-cons i) [
  | inl same ↦ let e : trim x ≡ g = ap trim same ∙ t in rw (e, n, trimmed) here
  | inr j ↦ elim (Bool-cases (is_empty (trim x))) [
    | inl empty ↦ rw (empty, trimmed) (In-trimmed_of l j t n)
    | inr filled ↦ rw (filled, trimmed) (there (In-trimmed_of l j t n))
  ]
]

pub history_files_in-IsPath :
    (messages : List ModelMessage) {f : Text} → In f (history_files_in messages) → IsPath f
unfolding history_files_in
history_files_in-IsPath [] i = elim i [ ]
history_files_in-IsPath (message ∷ rest) i = elim (In-append (trimmed (captures message.text)) i) [
  | inr j ↦ history_files_in-IsPath rest j
  | inl j ↦
      let (g, k, e, n) = In-trimmed (captures message.text) j in
      subst IsPath (sym e) (record {
        no_lt = trim-All (λ c. (c == b'<') ≡ false) g (captures-HasNoLt message.text k).0;
        filled = n;
        trims = trim_idem g;
      })
]

pub history_files_in_head :
    (message : ModelMessage) (rest : List ModelMessage) {f : Text}
    → IsPath f
    → In f (captures message.text)
    → In f (history_files_in (message ∷ rest))
unfolding history_files_in
history_files_in_head message rest p i =
    In-append_left (history_files_in rest)
      (In-trimmed_of (captures message.text) i p.trims p.filled)

pub history_files_in-append :
    (l m : List ModelMessage) {f : Text}
    → In f (history_files_in (l ++ m))
    → In f (history_files_in l) ⊎ In f (history_files_in m)
unfolding history_files_in
history_files_in-append [] m i = inr i
history_files_in-append (x ∷ l) m i = elim (In-append (trimmed (captures x.text)) i) [
  | inl j ↦ inl (In-append_left (history_files_in l) j)
  | inr j ↦ elim (history_files_in-append l m j) [
    | inl k ↦ inl (In-append_right (trimmed (captures x.text)) k)
    | inr k ↦ inr k
  ]
]

pub history_files_in_tail :
    (message : ModelMessage) (rest : List ModelMessage) {f : Text}
    → In f (history_files_in rest)
    → In f (history_files_in (message ∷ rest))
unfolding history_files_in
history_files_in_tail message rest i = In-append_right (trimmed (captures message.text)) i

has-In : (l : List Text) (f : Text) → has l f ≡ true → In f l
unfolding has
has-In [] f h = absurd (cc)
has-In (x ∷ l) f h = elim (Bool-cases (same_text x f)) [
  | inl same ↦ rw (eq_of_same_text x f same) here
  | inr other ↦ there (has-In l f (rw (other, has) at h))
]

dedupe_from-keeps : (out l : List Text) {f : Text} → In f out → In f (dedupe_from out l)
unfolding dedupe_from
dedupe_from-keeps out [] i = i
dedupe_from-keeps out (x ∷ l) i = elim (Bool-cases (has out x)) [
  | inl old ↦ rw (old, dedupe_from) (dedupe_from-keeps out l i)
  | inr new ↦
      rw (new, dedupe_from) (dedupe_from-keeps (out ++ x ∷ []) l (In-append_left (x ∷ []) i))
]

dedupe_from-In : (out l : List Text) {f : Text} → In f l → In f (dedupe_from out l)
unfolding dedupe_from
dedupe_from-In out [] i = elim i [ ]
dedupe_from-In out (x ∷ l) {f} i = elim (Bool-cases (has out x)) [
  | inl old ↦
      rw (old, dedupe_from)
        (elim (In-cons i) [
          | inl same ↦ dedupe_from-keeps out l (subst (λ y. In y out) same (has-In out x old))
          | inr j ↦ dedupe_from-In out l j
        ])
  | inr new ↦
      rw (new, dedupe_from)
        (elim (In-cons i) [
          | inl same ↦ dedupe_from-keeps (out ++ x ∷ []) l (In-append_right out (rw same here))
          | inr j ↦ dedupe_from-In (out ++ x ∷ []) l j
        ])
]

-- Removing duplicates loses no path.
pub dedupe-In : (l : List Text) {f : Text} → In f l → In f (dedupe l)
unfolding dedupe
dedupe-In l i = dedupe_from-In [] l i
