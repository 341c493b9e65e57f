-- ===== src/History/Files/Laws/Scan.antt =====
-- Finding a tag: a path without `<` between the two tags is found, whatever stands around it.
use mathlib.Core.List.{append_assoc, append-nil}
use codeberg.Text.{Text, is_empty, strip_prefix}
use codeberg.Base.{
  ℕ, ◌==◌, ◌≡◌, if◌then◌else◌, true, false, none, some, [], ◌∷◌, ◌++◌, All, All-append, subst, In,
  In-cons, here, there, arith, refl, Bool-cases, Option-cases, inl, inr, ap, ◌∙◌,
}
use codeberg.History.Files.{open_tag, close_tag, match_group, match_here, captures}

==_refl : (a : ℕ) → (a == a) ≡ true
==_refl a = ground arith

strip_prefix-append : (p t : Text) → strip_prefix p (p ++ t) ≡ some t
unfolding strip_prefix
strip_prefix-append [] t = refl
strip_prefix-append (c ∷ p) t = rw (==_refl c, strip_prefix) (strip_prefix-append p t)

-- No code unit is `<`.
abbrev pub HasNoLt : Text → Type 0
HasNoLt t = All (λ c. (c == b'<') ≡ false) t

match_group-append :
    (group f rest : Text)
    → HasNoLt f
    → match_group group (f ++ (close_tag ++ rest))
      ≡ (if is_empty (group ++ f) then none else some (group ++ f))
unfolding match_group strip_prefix
match_group-append group [] rest h = rw (append-nil group)
match_group-append group (c ∷ f) rest (h, hs) =
    ground (arith, match_group-append (group ++ c ∷ []) f rest hs, append_assoc group (c ∷ []) f)

closed :
    (group : Text) (c : ℕ) (t : Text) {g : Text}
    → match_group group (c ∷ t) ≡ some g
    → (c == b'<') ≡ true
    → (group ≡ g) × (is_empty group ≡ false)
unfolding match_group
closed group c t {g} e lt = elim (Option-cases (strip_prefix close_tag (c ∷ t))) [
  | inl miss ↦ absurd (ground arith)
  | inr (rest, hit) ↦ ground arith
]

-- The groups that `matchAll` gives have no `<`, and are not empty.
match_group-HasNoLt :
    (group t : Text) {g : Text}
    → HasNoLt group
    → match_group group t ≡ some g
    → HasNoLt g × (is_empty g ≡ false)
unfolding match_group
match_group-HasNoLt group [] {g} h e = absurd (cc)
match_group-HasNoLt group (c ∷ t) {g} h e = elim (Bool-cases (c == b'<')) [
  | inl lt ↦
      let found : (group ≡ g) × (is_empty group ≡ false) = closed group c t e lt in
      (subst HasNoLt found.0 h, ground (arith, found.1))
  | inr other ↦
      match_group-HasNoLt (group ++ c ∷ []) t
        (All-append (λ x. (x == b'<') ≡ false) group (c ∷ []) h (other, tt)) (ground arith)
]

pub captures-append : (a b : Text) {g : Text} → In g (captures b) → In g (captures (a ++ b))
unfolding captures
captures-append [] b i = i
captures-append (c ∷ a) b i = elim (Option-cases (match_here (c ∷ (a ++ b)))) [
  | inl miss ↦ rw (miss, captures) (captures-append a b i)
  | inr (g, hit) ↦ rw (hit, captures) (there (captures-append a b i))
]

match_here-tag :
    (f rest : Text)
    → HasNoLt f
    → is_empty f ≡ false
    → match_here (open_tag ++ (f ++ (close_tag ++ rest))) ≡ some f
unfolding match_here
match_here-tag f rest h ne =
    rw (strip_prefix-append open_tag (f ++ (close_tag ++ rest)), match_here)
      (match_group-append [] f rest h ∙ rw ne)

pub captures-tag :
    (f rest : Text)
    → HasNoLt f
    → is_empty f ≡ false
    → In f (captures (open_tag ++ (f ++ (close_tag ++ rest))))
unfolding captures
captures-tag f rest h ne = rw (match_here-tag f rest h ne, captures) here

match_here-HasNoLt :
    (t : Text) {g : Text} → match_here t ≡ some g → HasNoLt g × (is_empty g ≡ false)
unfolding match_here
match_here-HasNoLt t e = elim (Option-cases (strip_prefix open_tag t)) [
  | inl miss ↦ absurd (ground arith)
  | inr (rest, hit) ↦ match_group-HasNoLt [] rest tt (ground arith)
]

pub captures-HasNoLt : (t : Text) {g : Text} → In g (captures t) → HasNoLt g × (is_empty g ≡ false)
unfolding captures
captures-HasNoLt [] i = elim i [ ]
captures-HasNoLt (c ∷ t) {g} i = elim (Option-cases (match_here (c ∷ t))) [
  | inl miss ↦ captures-HasNoLt t (rw (miss, captures) at i)
  | inr (f, hit) ↦ elim (In-cons (rw (hit, captures) at i)) [
    | inl same ↦ match_here-HasNoLt (c ∷ t) (hit ∙ ap some same)
    | inr j ↦ captures-HasNoLt t j
  ]
]
