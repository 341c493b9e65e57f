-- ===== src/WriteGate/Counts.antt =====
-- Counting the requests of a list.
use codeberg.Base.{ℕ, zero, suc, ◌+◌, ◌≤◌, ◌≡◌, Bool, true, false, some, List, [], ◌∷◌, ◌++◌, arith}
use codeberg.WriteGate.{Request, request_at, put_at}

abbrev pub digit : Bool → ℕ
digit true = 1
digit false = 0

unfoldable pub count : (Request → Bool) → List Request → ℕ
count p [] = 0
count p (r ∷ rest) = digit (p r) + count p rest

pub count-append :
    (p : Request → Bool) (xs : List Request) (r : Request)
    → count p (xs ++ r ∷ []) ≡ count p xs + digit (p r)
unfolding count
count-append p [] r = omega arith
count-append p (x ∷ xs) r = omega (arith, count-append p xs r)

pub count-put_at :
    (p : Request → Bool) (i : ℕ) (new r : Request) (xs : List Request)
    → request_at i xs ≡ some r
    → count p (put_at i new xs) + digit (p r) ≡ count p xs + digit (p new)
unfolding count request_at put_at
count-put_at p i new r [] e = absurd (cc)
count-put_at p zero new r (x ∷ xs) e = let same : x ≡ r = cc in rw same (omega arith)
count-put_at p (suc i) new r (x ∷ xs) e = omega (arith, count-put_at p i new r xs e)

-- A test that holds only where one of two others does is counted at most as often as they are.
pub count_mono :
    (p q s : Request → Bool)
    → ((r : Request) → digit (p r) ≤ digit (q r) + digit (s r))
    → (xs : List Request) → count p xs ≤ count q xs + count s xs
unfolding count
count_mono p q s h [] = omega arith
count_mono p q s h (x ∷ xs) = omega (arith, h x, count_mono p q s h xs)

-- A request that passes a test is counted.
pub count_at :
    (p : Request → Bool) (i : ℕ) (r : Request) (xs : List Request)
    → request_at i xs ≡ some r
    → digit (p r) ≤ count p xs
unfolding count request_at
count_at p i r [] e = absurd (cc)
count_at p zero r (x ∷ xs) e = let same : x ≡ r = cc in rw same (omega arith)
count_at p (suc i) r (x ∷ xs) e = omega (arith, count_at p i r xs e)
