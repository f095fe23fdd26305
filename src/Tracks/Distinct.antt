-- ===== src/Tracks/Distinct.antt =====
-- Identifiers that are listed once each: what the sets and the keyed objects of web/src/lib/tracks.ts
-- and web/src/features/judge/scoring.ts have in common.
use platform_for_sudies.Common.{
  ℕ, zero, suc, ◌≤◌, ◌<◌, String, true, false, not, ◌||◌, List, [], ◌∷◌, ◌++◌, take, filter, length,
  str_eq, eq_iff, ◌≡◌, refl, arith, if◌then◌else◌,
}
use platform_for_sudies.Tracks.{contains}

-- No identifier twice.
abbrev pub IsDistinct : List String → Type 0
IsDistinct [] = Unit
IsDistinct (x ∷ xs) = (contains x xs ≡ false) × IsDistinct xs

pub contains-append :
    (k : String) (xs ys : List String) → contains k (xs ++ ys) ≡ (contains k xs || contains k ys)
contains-append k [] ys = refl
contains-append k (x ∷ xs) ys = ground (arith, contains-append k xs ys)

pub contains-without :
    (set : List String) (k j : String)
    → contains j (filter (λ x. not (str_eq x k)) set)
      ≡ (if str_eq k j then false else contains j set)
contains-without [] k j = ground arith
contains-without (x ∷ xs) k j =
    ground (arith, contains-without xs k j, eq_iff x k, eq_iff x j, eq_iff k j)

length-without-le :
    (k : String) (ys : List String) → length (filter (λ x. not (str_eq x k)) ys) ≤ length ys
length-without-le k [] = omega arith
length-without-le k (y ∷ ys) = ground (arith, length-without-le k ys)

length-without-lt :
    (k : String) (ys : List String)
    → contains k ys ≡ true
    → length (filter (λ x. not (str_eq x k)) ys) < length ys
length-without-lt k [] h = absurd (ground arith)
length-without-lt k (y ∷ ys) h = ground (arith, length-without-lt k ys, length-without-le k ys)

-- Distinct identifiers that all stand in a list are not more than it has.
pub length-IsDistinct :
    (xs ys : List String)
    → IsDistinct xs
    → ((k : String) → contains k xs ≡ true → contains k ys ≡ true)
    → length xs ≤ length ys
length-IsDistinct [] ys d h = omega arith
length-IsDistinct (x ∷ xs) ys (fresh, d) h =
    let rest = filter (λ y. not (str_eq y x)) ys in
    let inside : contains x ys ≡ true = ground (arith, h x, eq_iff x x) in
    let within : (k : String) → contains k xs ≡ true → contains k rest ≡ true =
      λ k e. ground (arith, contains-without ys x k, h k, eq_iff x k) in
    omega (arith, length-IsDistinct xs rest d within, length-without-lt x ys inside)

pub append-IsDistinct :
    (xs ys : List String)
    → IsDistinct xs
    → IsDistinct ys
    → ((k : String) → contains k xs ≡ true → contains k ys ≡ false)
    → IsDistinct (xs ++ ys)
append-IsDistinct [] ys d e h = e
append-IsDistinct (x ∷ xs) ys (fresh, d) e h = (
  ground (arith, contains-append x xs ys, h x, eq_iff x x),
  append-IsDistinct xs ys d e (λ k c. h k (ground arith)),
)

contains-take :
    (n : ℕ) (k : String) (xs : List String) → contains k xs ≡ false → contains k (take n xs) ≡ false
contains-take zero k xs h = refl
contains-take (suc n) k [] h = refl
contains-take (suc n) k (x ∷ xs) h = ground (arith, contains-take n k xs)

pub take-IsDistinct : (n : ℕ) (xs : List String) → IsDistinct xs → IsDistinct (take n xs)
take-IsDistinct zero xs d = tt
take-IsDistinct (suc n) [] d = tt
take-IsDistinct (suc n) (x ∷ xs) (fresh, d) = (contains-take n x xs fresh, take-IsDistinct n xs d)
