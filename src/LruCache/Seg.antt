-- ===== src/LruCache/Seg.antt =====
-- Segments of a doubly linked list.
use miniob_basic.Base.{
  ℕ, ◌≡◌, ◌≢◌, refl, ap, ◌∙◌, Bool, true, false, ◌||◌, ◌==◌, ==_iff, ==_ne, Option, some, List, [],
  ◌∷◌, ◌++◌, arith,
}
use miniob_basic.LruCache.{ListNode, write, set_next, set_prev}

abbrev pub has : ℕ → List ℕ → Bool
has a [] = false
has a (x ∷ xs) = (a == x) || has a xs

abbrev pub Distinct : List ℕ → Type 0
Distinct [] = Unit
Distinct (x ∷ xs) = (has x xs ≡ false) × Distinct xs

abbrev pub first : List ℕ → Option ℕ → Option ℕ
first [] n = n
first (x ∷ xs) n = some x

abbrev pub last : Option ℕ → List ℕ → Option ℕ
last p [] = p
last p (x ∷ xs) = last (some x) xs

pub not_both : (a b : ℕ) (xs : List ℕ) → has b xs ≡ true → has a xs ≡ false → b ≢ a
not_both a b xs c h e = cc (ap (λ x. has x xs) e)

pub has_self : (x : ℕ) (xs : List ℕ) → has x (x ∷ xs) ≡ true
has_self x xs = rw ((==_iff x x).1 refl) refl

pub has-ne : (a x : ℕ) (xs : List ℕ) → has a (x ∷ xs) ≡ false → a ≢ x
has-ne a x xs h e = cc (ap (λ y. has y (x ∷ xs)) e, has_self x xs)

pub has-rest : (a x : ℕ) (xs : List ℕ) → has a (x ∷ xs) ≡ false → has a xs ≡ false
has-rest a x xs h = ground arith

module _ {ℓ} {K V : Type ℓ} where
  -- The nodes `xs` follow one another both ways, behind `p` and in front of `n`.
  abbrev pub Seg : (ℕ → ListNode K V) → Option ℕ → List ℕ → Option ℕ → Type 0
  Seg nodes p [] n = Unit
  Seg nodes p (x ∷ xs) n =
      ((nodes x).prev ≡ p) × ((nodes x).next ≡ first xs n) × Seg nodes (some x) xs n

  pub Seg-frame :
      (nodes nodes' : ℕ → ListNode K V) (p : Option ℕ) (xs : List ℕ) (n : Option ℕ)
      → ((a : ℕ) → has a xs ≡ true → nodes' a ≡ nodes a)
      → Seg nodes p xs n
      → Seg nodes' p xs n
  Seg-frame nodes nodes' p [] n same s = tt
  Seg-frame nodes nodes' p (x ∷ xs) n same s =
      let e : nodes' x ≡ nodes x = same x (ground arith) in
      (
        ap (λ m. m.prev) e ∙ s.0,
        ap (λ m. m.next) e ∙ s.1,
        Seg-frame nodes nodes' (some x) xs n (λ a h. same a (ground arith)) (s.2),
      )

  pub write_self : (nodes : ℕ → ListNode K V) (a : ℕ) (m : ListNode K V) → write nodes a m a ≡ m
  write_self nodes a m = rw ((==_iff a a).1 refl, write) refl

  pub write-other :
      (nodes : ℕ → ListNode K V) (a b : ℕ) (m : ListNode K V) → b ≢ a → write nodes a m b ≡ nodes b
  write-other nodes a b m h = rw (==_ne b a h, write) refl

  pub Seg-write :
      (nodes : ℕ → ListNode K V) (p : Option ℕ) (xs : List ℕ) (n : Option ℕ) (a : ℕ)
      (m : ListNode K V)
      → has a xs ≡ false
      → Seg nodes p xs n
      → Seg (write nodes a m) p xs n
  Seg-write nodes p xs n a m h s =
      Seg-frame nodes (write nodes a m) p xs n
        (λ b c. write-other nodes a b m (not_both a b xs c h)) s

  pub Seg-append :
      (nodes : ℕ → ListNode K V) (p : Option ℕ) (xs ys : List ℕ) (n : Option ℕ)
      → Seg nodes p xs (first ys n)
      → Seg nodes (last p xs) ys n
      → Seg nodes p (xs ++ ys) n
  Seg-append nodes p [] ys n s t = t
  Seg-append nodes p (x ∷ []) ys n s t = (s.0, s.1, t)
  Seg-append nodes p (x ∷ y ∷ xs) ys n s t =
      (s.0, s.1, Seg-append nodes (some x) (y ∷ xs) ys n (s.2) t)

  pub Seg-split :
      (nodes : ℕ → ListNode K V) (p : Option ℕ) (xs ys : List ℕ) (n : Option ℕ)
      → Seg nodes p (xs ++ ys) n
      → Seg nodes p xs (first ys n) × Seg nodes (last p xs) ys n
  Seg-split nodes p [] ys n s = (tt, s)
  Seg-split nodes p (x ∷ []) ys n s = ((s.0, s.1, tt), s.2)
  Seg-split nodes p (x ∷ y ∷ xs) ys n s =
      let (t, u) = Seg-split nodes (some x) (y ∷ xs) ys n (s.2) in ((s.0, s.1, t), u)

  -- The last node of `y ∷ xs` is another than `x`.
  pub set_next-other :
      (nodes : ℕ → ListNode K V) (x y : ℕ) (xs : List ℕ) (n : Option ℕ)
      → has x (y ∷ xs) ≡ false
      → set_next nodes (last (some y) xs) n x ≡ nodes x
  set_next-other nodes x y [] n h =
      write-other nodes y x (record (nodes y) { next = n }) (has-ne x y [] h)
  set_next-other nodes x y (z ∷ zs) n h = set_next-other nodes x z zs n (has-rest x y (z ∷ zs) h)

  -- A segment that is not empty is led to another end by its last node.
  pub Seg-set_next :
      (nodes : ℕ → ListNode K V) (p : Option ℕ) (x : ℕ) (xs : List ℕ) (n n' : Option ℕ)
      → Distinct (x ∷ xs)
      → Seg nodes p (x ∷ xs) n
      → Seg (set_next nodes (last p (x ∷ xs)) n') p (x ∷ xs) n'
  Seg-set_next nodes p x [] n n' d s =
      let e = write_self nodes x (record (nodes x) { next = n' }) in
      (ap (λ m. m.prev) e ∙ s.0, ap (λ m. m.next) e, tt)
  Seg-set_next nodes p x (y ∷ xs) n n' d s =
      let e = set_next-other nodes x y xs n' (d.0) in
      (
        ap (λ m. m.prev) e ∙ s.0,
        ap (λ m. m.next) e ∙ s.1,
        Seg-set_next nodes (some x) y xs n n' (d.1) (s.2),
      )

  -- And from another start by its first.
  pub Seg-set_prev :
      (nodes : ℕ → ListNode K V) (p p' : Option ℕ) (x : ℕ) (xs : List ℕ) (n : Option ℕ)
      → Distinct (x ∷ xs)
      → Seg nodes p (x ∷ xs) n
      → Seg (set_prev nodes (some x) p') p' (x ∷ xs) n
  Seg-set_prev nodes p p' x xs n d s =
      let m = record (nodes x) { prev = p' } in
      let e = write_self nodes x m in
      (
        ap (λ m'. m'.prev) e,
        ap (λ m'. m'.next) e ∙ s.1,
        Seg-write nodes (some x) xs n x m (d.0) (s.2),
      )
