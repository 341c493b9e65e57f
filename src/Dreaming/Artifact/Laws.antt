-- ===== src/Dreaming/Artifact/Laws.antt =====
-- Membership in lists of texts.
use codeberg.Base.{◌≡◌, inl, inr, ◌||◌, Bool, true, false, List, [], ◌∷◌, In, In-cons, refl}
use codeberg.Text.{Text, same_text}
use codeberg.Text.Same.{same_text_refl}
use codeberg.Dreaming.Artifact.{has_text}

pub In-has_text : (t : Text) (us : List Text) → In t us → has_text t us ≡ true
unfolding has_text
In-has_text t [] i = elim i [ ]
In-has_text t (u ∷ us) i = elim (In-cons i) [
  | inl same ↦ rw (same, same_text_refl t) refl
  | inr j ↦ rw (In-has_text t us j) (or_true (same_text t u))
]
  where
    or_true : (b : Bool) → (b || true) ≡ true
    or_true true = refl
    or_true false = refl

pub not-In_of_has : (t : Text) (us : List Text) → has_text t us ≡ false → ¬ In t us
not-In_of_has t us e i = let h = In-has_text t us i in absurd (cc)
