-- ===== src/LruCache/Entries.antt =====
-- The entries of a cache, the one used last first.
use miniob_basic.Base.{
  ℕ, ◌≡◌, ◌≢◌, refl, sym, ap, ap₂, ◌∙◌, Bool, true, false, ==_iff, ==_ne, ℕ_discrete, Option, none,
  some, List, [], ◌∷◌, if◌then◌else◌, arith, Bool-cases, inl, inr, ◌⊎◌,
}
use miniob_basic.LruCache.{ListNode, write, erase_node, find_node}
use miniob_basic.LruCache.Seg.{has, has_self, write-other, not_both}
use miniob_basic.LruCache.Link.{SameData}

-- What the code relies on of the equality of keys.
pub record IsEquality {ℓ} {K : Type ℓ} (pred : K → K → Bool) : Type ℓ where
  pub equal : (a b : K) → pred a b ≡ true → a ≡ b
  pub same : (a : K) → pred a a ≡ true

module _ {ℓ} {K V : Type ℓ} where
  abbrev pub entries : (ℕ → ListNode K V) → List ℕ → List (K × V)
  entries nodes [] = []
  entries nodes (p ∷ ps) = ((nodes p).key, (nodes p).value) ∷ entries nodes ps

  -- No two nodes of the list have one key.
  abbrev pub KeysDistinct : (ℕ → ListNode K V) → List ℕ → Type ℓ
  KeysDistinct nodes xs =
      (a b : ℕ) → has a xs ≡ true → has b xs ≡ true → (nodes a).key ≡ (nodes b).key → a ≡ b

  pub entries-same :
      (nodes nodes' : ℕ → ListNode K V) (xs : List ℕ)
      → SameData nodes nodes'
      → entries nodes' xs ≡ entries nodes xs
  entries-same nodes nodes' [] s = refl
  entries-same nodes nodes' (x ∷ xs) s =
      ap₂ ◌∷◌ (ap₂ (λ k v. (k, v)) (s.same_key x) (s.same_value x)) (entries-same nodes nodes' xs s)

  pub entries-write :
      (nodes : ℕ → ListNode K V) (p : ℕ) (m : ListNode K V) (xs : List ℕ)
      → has p xs ≡ false
      → entries (write nodes p m) xs ≡ entries nodes xs
  entries-write nodes p m [] h = refl
  entries-write nodes p m (x ∷ xs) h =
      let e : write nodes p m x ≡ nodes x =
        write-other nodes p x m (not_both p x (x ∷ xs) (has_self x xs) h) in
      ap₂ ◌∷◌ (ap (λ n. (n.key, n.value)) e) (entries-write nodes p m xs (ground arith))

module _ {ℓ} {K V : Type ℓ} (pred : K → K → Bool) where
  abbrev pub erase_key : K → List (K × V) → List (K × V)
  erase_key key [] = []
  erase_key key ((k, v) ∷ es) = if pred k key then es else (k, v) ∷ erase_key key es

  abbrev pub lookup : K → List (K × V) → Option V
  lookup key [] = none
  lookup key ((k, v) ∷ es) = if pred k key then some v else lookup key es

module _ {ℓ} {K : Type ℓ} (pred : K → K → Bool) (eq : IsEquality pred) where
  pub pred_same : (a b : K) → a ≡ b → pred a b ≡ true
  pred_same a b e = ap (pred a) (sym e) ∙ eq.same a

  pub pred_other : (a b : K) → a ≢ b → pred a b ≡ false
  pred_other a b n = elim (Bool-cases (pred a b)) [
    | inl e ↦ absurd (n (eq.equal a b e))
    | inr e ↦ e
  ]

  -- Two keys are one, or not.
  pub key_cases : (a b : K) → (a ≡ b) ⊎ (a ≢ b)
  key_cases a b = elim (Bool-cases (pred a b)) [
    | inl e ↦ inl (eq.equal a b e)
    | inr e ↦ inr (λ f. cc (pred_same a b f, e))
  ]

module _ {ℓ} {K V : Type ℓ} (pred : K → K → Bool) (eq : IsEquality pred) where
  pub find_node-some :
      (nodes : ℕ → ListNode K V) (key : K) (qs : List ℕ) (p : ℕ)
      → find_node pred nodes key qs ≡ some p
      → (has p qs ≡ true) × ((nodes p).key ≡ key)
  find_node-some nodes key [] p e = cc
  find_node-some nodes key (q ∷ qs) p e = elim (key_cases pred eq (nodes q).key key) [
    | inl h ↦
        let f : q ≡ p = cc (rw (pred_same pred eq (nodes q).key key h) at e) in
        (ap (λ a. has a (q ∷ qs)) (sym f) ∙ has_self q qs, ap (λ a. (nodes a).key) (sym f) ∙ h)
    | inr h ↦
        let (i, k) =
          find_node-some nodes key qs p (rw (pred_other pred eq (nodes q).key key h) at e) in
        (ground arith, k)
  ]

  pub find_node-none :
      (nodes : ℕ → ListNode K V) (key : K) (qs : List ℕ) (a : ℕ)
      → find_node pred nodes key qs ≡ none
      → has a qs ≡ true
      → (nodes a).key ≢ key
  find_node-none nodes key [] a e h = cc
  find_node-none nodes key (q ∷ qs) a e h = elim (key_cases pred eq (nodes q).key key) [
    | inl g ↦ absurd (cc (rw (pred_same pred eq (nodes q).key key g) at e))
    | inr g ↦ elim (ℕ_discrete a q) [
      | yes i ↦ λ f. g (ap (λ b. (nodes b).key) (sym i) ∙ f)
      | no i ↦
          find_node-none nodes key qs a (rw (pred_other pred eq (nodes q).key key g) at e)
            (ground arith)
    ]
  ]

  pub lookup-entries :
      (nodes : ℕ → ListNode K V) (xs : List ℕ) (p : ℕ)
      → KeysDistinct nodes xs
      → has p xs ≡ true
      → (lookup pred (nodes p).key (entries nodes xs) ≡ some (nodes p).value)
        × (erase_key pred (nodes p).key (entries nodes xs) ≡ entries nodes (erase_node p xs))
  lookup-entries nodes [] p k h = cc
  lookup-entries nodes (x ∷ xs) p k h = elim (ℕ_discrete x p) [
    | yes e ↦
        rw
          (
            pred_same pred eq (nodes x).key (nodes p).key (ap (λ a. (nodes a).key) e),
            (==_iff x p).1 e,
          )
          (ap (λ a. some (nodes a).value) e, refl)
    | no e ↦
        let g : (nodes x).key ≢ (nodes p).key = λ f. e (k x p (has_self x xs) h f) in
        let (i, j) =
          lookup-entries nodes xs p (λ a b c d. k a b (ground arith) (ground arith))
            (ground arith) in
        rw (pred_other pred eq (nodes x).key (nodes p).key g, ==_ne x p e)
          (i, ap (◌∷◌ ((nodes x).key, (nodes x).value)) j)
  ]

  pub lookup-absent :
      (nodes : ℕ → ListNode K V) (xs : List ℕ) (key : K)
      → ((a : ℕ) → has a xs ≡ true → (nodes a).key ≢ key)
      → (lookup pred key (entries nodes xs) ≡ none)
        × (erase_key pred key (entries nodes xs) ≡ entries nodes xs)
  lookup-absent nodes [] key k = (refl, refl)
  lookup-absent nodes (x ∷ xs) key k =
      let (i, j) = lookup-absent nodes xs key (λ a h. k a (ground arith)) in
      rw (pred_other pred eq (nodes x).key key (k x (has_self x xs)))
        (i, ap (◌∷◌ ((nodes x).key, (nodes x).value)) j)
