-- ===== src/Record/Page/Count.antt =====
-- How many of the first slots are taken.
use miniob_basic.Base.{
  ℕ, zero, suc, ◌+◌, ◌≤◌, ◌<◌, ◌≡◌, refl, Bool, true, false, arith, if◌then◌else◌, ◌==◌, ℕ_discrete,
  ap,
}

unfoldable pub count : (ℕ → Bool) → ℕ → ℕ
count p zero = 0
count p (suc n) = (if p n then 1 else 0) + count p n

pub count-congr : (p q : ℕ → Bool) (n : ℕ) → ((j : ℕ) → j < n → p j ≡ q j) → count p n ≡ count q n
unfolding count
count-congr p q zero e = refl
count-congr p q (suc n) e =
    ground (arith, e n (omega arith), count-congr p q n (λ j h. e j (omega arith)))

pub count-all : (p : ℕ → Bool) (n : ℕ) → ((j : ℕ) → j < n → p j ≡ true) → count p n ≡ n
unfolding count
count-all p zero e = refl
count-all p (suc n) e = ground (arith, e n (omega arith), count-all p n (λ j h. e j (omega arith)))

pub count_none : (p : ℕ → Bool) (n : ℕ) → ((j : ℕ) → j < n → p j ≡ false) → count p n ≡ 0
unfolding count
count_none p zero e = refl
count_none p (suc n) e =
    ground (arith, e n (omega arith), count_none p n (λ j h. e j (omega arith)))

pub count-le : (p : ℕ → Bool) (n : ℕ) → count p n ≤ n
unfolding count
count-le p zero = omega arith
count-le p (suc n) = ground (arith, count-le p n)

-- Taking a free slot adds one.
pub count_take :
    (p q : ℕ → Bool) (n i : ℕ)
    → i < n
    → p i ≡ false
    → ((j : ℕ) → j < n → q j ≡ (if i == j then true else p j))
    → count q n ≡ count p n + 1
unfolding count
count_take p q zero i h f e = absurd (omega arith)
count_take p q (suc n) i h f e = elim (ℕ_discrete i n) [
  | yes s ↦ ground (
    arith,
    e n (omega arith),
    ap p s,
    count-congr p q n (λ j c. ground (arith, e j (omega arith))),
  )
  | no d ↦
      ground
        (arith, e n (omega arith), count_take p q n i (omega arith) f (λ j c. e j (omega arith)))
]

-- A taken slot counts, so freeing it takes one away.
pub count_free :
    (p q : ℕ → Bool) (n i : ℕ)
    → i < n
    → p i ≡ true
    → ((j : ℕ) → j < n → q j ≡ (if i == j then false else p j))
    → count p n ≡ count q n + 1
count_free p q n i h t e =
    count_take q p n i h (ground (arith, e i h))
      (λ j c. ground (arith, e j c, ap p {x = i} {y = j}))
