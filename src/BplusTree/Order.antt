-- ===== src/BplusTree/Order.antt =====
-- The order of keys, and lists of items whose keys ascend.
pub mod Parts
use miniob_basic.Base.{
  ℕ, zero, suc, ◌+◌, ◌-◌, ◌≤◌, ◌<◌, ◌≡◌, ◌≢◌, refl, sym, ap, ap₂, subst, ◌∙◌, ◌⊎◌, inl, inr, Bool,
  true, false, List, [], ◌∷◌, ◌++◌, arith, length, Bool-cases, ℕ_discrete,
}
use miniob_basic.Base.Int.{ℤ}
use miniob_basic.LowerBound.{Sign, below, equal, above, sign, lower_bound}
use miniob_basic.LowerBound.Search.{
  IsSorted, IsLowerBound, side_of, lower_bound-IsLowerBound, Sign-cases,
}
use miniob_basic.BplusTree.Array.{slice}
use miniob_basic.BplusTree.Block.Laws.{insert_nth, remove_nth}

-- What the code relies on of the comparison of keys; keys that it finds equal need not be the same.
pub record IsOrder {ℓ} {K : Type ℓ} (cmp : K → K → ℤ) : Type ℓ where
  pub above_of_below : (a b : K) → sign (cmp a b) ≡ below → sign (cmp b a) ≡ above
  pub below_of_above : (a b : K) → sign (cmp a b) ≡ above → sign (cmp b a) ≡ below
  pub equal_sym : (a b : K) → sign (cmp a b) ≡ equal → sign (cmp b a) ≡ equal
  pub below_trans :
      (a b c : K) → sign (cmp a b) ≡ below → sign (cmp b c) ≡ below → sign (cmp a c) ≡ below
  pub like : (a b c : K) → sign (cmp a b) ≡ equal → sign (cmp a c) ≡ sign (cmp b c)

abbrev pub All {ℓ κ} : {A : Type ℓ} → (A → Type κ) → List A → Type κ
All P [] = Unit
All P (x ∷ xs) = P x × All P xs

pub All-append {ℓ κ} :
    {A : Type ℓ} (P : A → Type κ) (xs ys : List A) → All P xs → All P ys → All P (xs ++ ys)
All-append P [] ys h k = k
All-append P (x ∷ xs) ys h k = (h.0, All-append P xs ys (h.1) k)

pub All-parts {ℓ κ} :
    {A : Type ℓ} (P : A → Type κ) (xs ys : List A) → All P (xs ++ ys) → All P xs × All P ys
All-parts P [] ys h = (tt, h)
All-parts P (x ∷ xs) ys h = let (i, j) = All-parts P xs ys (h.1) in ((h.0, i), j)

pub All-imp {ℓ κ μ} :
    {A : Type ℓ} (P : A → Type κ) (Q : A → Type μ) (xs : List A)
    → ((x : A) → P x → Q x)
    → All P xs
    → All Q xs
All-imp P Q [] f h = tt
All-imp P Q (x ∷ xs) f h = (f x (h.0), All-imp P Q xs f (h.1))

abbrev pub place_step : Sign → ℕ × Bool → ℕ × Bool
place_step below r = (suc r.0, r.1)
place_step equal r = (0, true)
place_step above r = (0, false)

abbrev pub insert_step {ℓ} : {A : Type ℓ} → Sign → A → A → List A → List A → List A
insert_step below new x rest xs = x ∷ rest
insert_step equal new x rest xs = new ∷ x ∷ xs
insert_step above new x rest xs = new ∷ x ∷ xs

abbrev pub erase_step {ℓ} : {A : Type ℓ} → Sign → A → List A → List A → List A
erase_step below x rest xs = x ∷ rest
erase_step equal x rest xs = xs
erase_step above x rest xs = x ∷ xs

module _ {ℓ} {A : Type ℓ} where
  insert_nth-step :
      (s : Sign) (new x : A) (p : ℕ × Bool) (xs rest : List A)
      → insert_nth p.0 new xs ≡ rest
      → insert_nth (place_step s p).0 new (x ∷ xs) ≡ insert_step s new x rest xs
  insert_nth-step below new x p xs rest h = ap (◌∷◌ x) h
  insert_nth-step equal new x p xs rest h = refl
  insert_nth-step above new x p xs rest h = refl

  remove_nth-step :
      (s : Sign) (x : A) (p : ℕ × Bool) (xs rest : List A)
      → (p.1 ≡ true → remove_nth p.0 xs ≡ rest)
      → (place_step s p).1 ≡ true
      → remove_nth (place_step s p).0 (x ∷ xs) ≡ erase_step s x rest xs
  remove_nth-step below x p xs rest h g = ap (◌∷◌ x) (h g)
  remove_nth-step equal x p xs rest h g = refl
  remove_nth-step above x p xs rest h g = cc

module _ {ℓ κ} {K : Type ℓ} {V : Type κ} (cmp : K → K → ℤ) where
  abbrev pub IsAscending : List (K × V) → Type 0
  IsAscending [] = Unit
  IsAscending (x ∷ xs) = All (λ y. sign (cmp x.0 y.0) ≡ below) xs × IsAscending xs

  -- Where a key stands in a list, found by going over it: how many items are below it, and whether
  -- the next one equals it.
  abbrev pub place : K → List (K × V) → ℕ × Bool
  place key [] = (0, false)
  place key (x ∷ xs) = place_step (sign (cmp x.0 key)) (place key xs)

  -- An item goes to its place.
  abbrev pub insert_sorted : K → V → List (K × V) → List (K × V)
  insert_sorted key v [] = (key, v) ∷ []
  insert_sorted key v (x ∷ xs) =
      insert_step (sign (cmp x.0 key)) (key, v) x (insert_sorted key v xs) xs

  -- The item with a key is taken out.
  abbrev pub erase_sorted : K → List (K × V) → List (K × V)
  erase_sorted key [] = []
  erase_sorted key (x ∷ xs) = erase_step (sign (cmp x.0 key)) x (erase_sorted key xs) xs

  pub insert_nth-place :
      (key : K) (v : V) (xs : List (K × V))
      → insert_nth (place key xs).0 (key, v) xs ≡ insert_sorted key v xs
  insert_nth-place key v [] = refl
  insert_nth-place key v (x ∷ xs) =
      insert_nth-step (sign (cmp x.0 key)) (key, v) x (place key xs) xs (insert_sorted key v xs)
        (insert_nth-place key v xs)

  pub remove_nth-place :
      (key : K) (xs : List (K × V))
      → (place key xs).1 ≡ true
      → remove_nth (place key xs).0 xs ≡ erase_sorted key xs
  remove_nth-place key [] h = refl
  remove_nth-place key (x ∷ xs) h =
      remove_nth-step (sign (cmp x.0 key)) x (place key xs) xs (erase_sorted key xs)
        (remove_nth-place key xs) h

  -- The result of the binary search is the place.
  pub lower_bound_unique :
      (a : ℕ → K × V) (s n : ℕ) (key : K) (r : ℕ × Bool)
      → IsLowerBound (λ i. sign (cmp (a (s + i)).0 key)) n r
      → r ≡ place key (slice a s n)
  lower_bound_unique a s zero key r b =
      ap₂ (λ (m : ℕ) (f : Bool). (m, f)) (omega (arith, b.in_range))
        (elim (Bool-cases (r.1)) [ inl h ↦ absurd (omega (arith, (b.found h).0)) | inr h ↦ h ])
  lower_bound_unique a s (suc n) key r b =
      let side : ℕ → Sign = λ i. sign (cmp (a (s + i)).0 key) in
      let at_s : side 0 ≡ sign (cmp (a s).0 key) = ap (λ i. sign (cmp (a i).0 key)) (omega arith) in
      elim (Sign-cases (sign (cmp (a s).0 key))) [
        | inl e ↦
            let m = r.0 - 1 in
            let pos : 0 < r.0 = first_below side r n b (at_s ∙ e) in
            let q : suc m ≡ r.0 = omega arith in
            let ih = lower_bound_unique a (suc s) n key (m, r.1) (shifted a s n key r b pos) in
            ap₂ (λ (k : ℕ) (f : Bool). (k, f)) (sym q) refl
            ∙ ap (place_step below) ih
            ∙ ap (λ t. place_step t (place key (slice a (suc s) n))) (sym e)
        | inr (inl e) ↦
            ap₂ (λ (k : ℕ) (f : Bool). (k, f)) (not_behind side r n b (at_s ∙ e) (λ h. cc))
              (elim (Bool-cases (r.1)) [
                | inl h ↦ h
                | inr h ↦
                    let z = not_behind side r n b (at_s ∙ e) (λ h. cc) in
                    absurd (cc (b.not_found h (omega arith), ap side z, at_s, e))
              ])
            ∙ ap (λ t. place_step t (place key (slice a (suc s) n))) (sym e)
        | inr (inr e) ↦
            ap₂ (λ (k : ℕ) (f : Bool). (k, f)) (not_behind side r n b (at_s ∙ e) (λ h. cc))
              (elim (Bool-cases (r.1)) [
                | inl h ↦
                    let z = not_behind side r n b (at_s ∙ e) (λ h. cc) in
                    absurd (cc ((b.found h).1, ap side z, at_s, e))
                | inr h ↦ h
              ])
            ∙ ap (λ t. place_step t (place key (slice a (suc s) n))) (sym e)
      ]
    where
      first_below :
          (side : ℕ → Sign) (r : ℕ × Bool) (n : ℕ)
          → IsLowerBound side (suc n) r
          → side 0 ≡ below
          → 0 < r.0
      first_below side r n b e = elim (ℕ_discrete (r.0) 0) [
        | yes z ↦ elim (Bool-cases (r.1)) [
          | inl h ↦ absurd (cc ((b.found h).1, ap side z, e))
          | inr h ↦ absurd (cc (b.not_found h (omega arith), ap side z, e))
        ]
        | no z ↦ omega arith
      ]

      not_behind :
          (side : ℕ → Sign) (r : ℕ × Bool) (n : ℕ) {t : Sign}
          → IsLowerBound side (suc n) r
          → side 0 ≡ t
          → t ≢ below
          → r.0 ≡ 0
      not_behind side r n b e ne = elim (ℕ_discrete (r.0) 0) [
        | yes z ↦ z
        | no z ↦ absurd (ne (sym e ∙ b.before 0 (omega arith)))
      ]

      shifted :
          (a : ℕ → K × V) (s n : ℕ) (key : K) (r : ℕ × Bool)
          → IsLowerBound (λ i. sign (cmp (a (s + i)).0 key)) (suc n) r
          → 0 < r.0
          → IsLowerBound (λ i. sign (cmp (a (suc s + i)).0 key)) n (r.0 - 1, r.1)
      shifted a s n key r b pos =
          let move = λ (i j : ℕ) (e : suc s + i ≡ s + j). ap (λ k. sign (cmp (a k).0 key)) e in
          record {
            in_range = omega (arith, b.in_range);
            before = λ i h. move i (suc i) (omega arith) ∙ b.before (suc i) (omega arith);
            behind = λ i h c.
                move i (suc i) (omega arith) ∙ b.behind (suc i) (omega arith) (omega arith);
            found = λ h.
                (omega (arith, (b.found h).0), move (r.0 - 1) (r.0) (omega arith) ∙ (b.found h).1);
            not_found = λ h c. move (r.0 - 1) (r.0) (omega arith) ∙ b.not_found h (omega arith);
          }
