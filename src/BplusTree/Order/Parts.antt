-- ===== src/BplusTree/Order/Parts.antt =====
-- Where an item goes in, and which one is taken out, in a list of which a part is below the key and a
-- part above it.
use miniob_basic.Base.{
  ℕ, suc, ◌≤◌, ◌<◌, ◌≡◌, refl, sym, ap, subst, ◌∙◌, Bool, true, false, List, [], ◌∷◌, ◌++◌, arith,
  inl, inr, length,
}
use miniob_basic.Base.Int.{ℤ}
use miniob_basic.LowerBound.{Sign, below, equal, above, sign}
use miniob_basic.LowerBound.Search.{Sign-cases}
use miniob_basic.BplusTree.Order.{
  IsOrder, All, All-imp, place_step, insert_step, erase_step, IsAscending, place, insert_sorted,
  erase_sorted,
}

-- What holds of all keys of `xs` and of `key` holds of all keys of `ys`.
abbrev pub IsWithin {ℓ κ} :
    {K : Type ℓ} {R : Type κ} → K → List (K × R) → List (K × R) → Type (1 ⊔ ℓ)
IsWithin {K = K} key xs ys = (Q : K → Type 0) → All (λ x. Q x.0) xs → Q key → All (λ y. Q y.0) ys

module _ {ℓ κ} {K : Type ℓ} {V : Type κ} (cmp : K → K → ℤ) where
  -- All keys are above the key, so the first step decides.
  place-above :
      (key : K) (ws : List (K × V))
      → All (λ x. sign (cmp x.0 key) ≡ above) ws
      → place cmp key ws ≡ (0, false)
  place-above key [] h = refl
  place-above key (w ∷ ws) h = ap (λ s. place_step s (place cmp key ws)) (h.0)

  insert_sorted-above :
      (key : K) (v : V) (ws : List (K × V))
      → All (λ x. sign (cmp x.0 key) ≡ above) ws
      → insert_sorted cmp key v ws ≡ (key, v) ∷ ws
  insert_sorted-above key v [] h = refl
  insert_sorted-above key v (w ∷ ws) h =
      ap (λ s. insert_step s (key, v) w (insert_sorted cmp key v ws) ws) (h.0)

  erase_sorted-above :
      (key : K) (ws : List (K × V))
      → All (λ x. sign (cmp x.0 key) ≡ above) ws
      → erase_sorted cmp key ws ≡ ws
  erase_sorted-above key [] h = refl
  erase_sorted-above key (w ∷ ws) h = ap (λ s. erase_step s w (erase_sorted cmp key ws) ws) (h.0)

  pub place-middle :
      (key : K) (us vs ws : List (K × V))
      → All (λ x. sign (cmp x.0 key) ≡ below) us
      → All (λ x. sign (cmp x.0 key) ≡ above) ws
      → (place cmp key (us ++ (vs ++ ws))).1 ≡ (place cmp key vs).1
  place-middle key [] [] ws b a = ap (λ r. r.1) (place-above key ws a)
  place-middle key [] (v ∷ vs) ws b a =
      same_flag (sign (cmp v.0 key)) (place cmp key (vs ++ ws)) (place cmp key vs)
        (place-middle key [] vs ws tt a)
    where
      same_flag : (s : Sign) (p q : ℕ × Bool) → p.1 ≡ q.1 → (place_step s p).1 ≡ (place_step s q).1
      same_flag below p q e = e
      same_flag equal p q e = refl
      same_flag above p q e = refl
  place-middle key (u ∷ us) vs ws b a =
      ap (λ s. (place_step s (place cmp key (us ++ (vs ++ ws)))).1) (b.0)
      ∙ place-middle key us vs ws (b.1) a

  pub insert_sorted-middle :
      (key : K) (v : V) (us vs ws : List (K × V))
      → All (λ x. sign (cmp x.0 key) ≡ below) us
      → All (λ x. sign (cmp x.0 key) ≡ above) ws
      → insert_sorted cmp key v (us ++ (vs ++ ws)) ≡ us ++ (insert_sorted cmp key v vs ++ ws)
  insert_sorted-middle key v [] [] ws b a = insert_sorted-above key v ws a
  insert_sorted-middle key v [] (x ∷ vs) ws b a =
      same_rest (sign (cmp x.0 key)) _ _ (insert_sorted-middle key v [] vs ws tt a)
    where
      same_rest :
          (s : Sign) (rest rest' : List (K × V))
          → rest ≡ rest' ++ ws
          → insert_step s (key, v) x rest (vs ++ ws) ≡ insert_step s (key, v) x rest' vs ++ ws
      same_rest below r r' e = ap (◌∷◌ x) e
      same_rest equal r r' e = refl
      same_rest above r r' e = refl
  insert_sorted-middle key v (u ∷ us) vs ws b a =
      ap
        (λ s.
          insert_step s (key, v) u (insert_sorted cmp key v (us ++ (vs ++ ws))) (us ++ (vs ++ ws)))
        (b.0)
      ∙ ap (◌∷◌ u) (insert_sorted-middle key v us vs ws (b.1) a)

  pub erase_sorted-middle :
      (key : K) (us vs ws : List (K × V))
      → All (λ x. sign (cmp x.0 key) ≡ below) us
      → All (λ x. sign (cmp x.0 key) ≡ above) ws
      → erase_sorted cmp key (us ++ (vs ++ ws)) ≡ us ++ (erase_sorted cmp key vs ++ ws)
  erase_sorted-middle key [] [] ws b a = erase_sorted-above key ws a
  erase_sorted-middle key [] (x ∷ vs) ws b a =
      same_rest (sign (cmp x.0 key)) _ _ (erase_sorted-middle key [] vs ws tt a)
    where
      same_rest :
          (s : Sign) (rest rest' : List (K × V))
          → rest ≡ rest' ++ ws
          → erase_step s x rest (vs ++ ws) ≡ erase_step s x rest' vs ++ ws
      same_rest below r r' e = ap (◌∷◌ x) e
      same_rest equal r r' e = refl
      same_rest above r r' e = refl
  erase_sorted-middle key (u ∷ us) vs ws b a =
      ap (λ s. erase_step s u (erase_sorted cmp key (us ++ (vs ++ ws))) (us ++ (vs ++ ws))) (b.0)
      ∙ ap (◌∷◌ u) (erase_sorted-middle key us vs ws (b.1) a)

  pub place-le : (key : K) (xs : List (K × V)) → (place cmp key xs).0 ≤ length xs
  place-le key [] = omega arith
  place-le key (x ∷ xs) = step (sign (cmp x.0 key)) (place cmp key xs) (place-le key xs)
    where
      step : (s : Sign) (p : ℕ × Bool) → p.0 ≤ length xs → (place_step s p).0 ≤ suc (length xs)
      step below p h = omega arith
      step equal p h = omega arith
      step above p h = omega arith

  pub place-lt :
      (key : K) (xs : List (K × V)) → (place cmp key xs).1 ≡ true → (place cmp key xs).0 < length xs
  place-lt key [] h = cc
  place-lt key (x ∷ xs) h = step (sign (cmp x.0 key)) (place cmp key xs) (place-lt key xs) h
    where
      step :
          (s : Sign) (p : ℕ × Bool)
          → (p.1 ≡ true → p.0 < length xs)
          → (place_step s p).1 ≡ true
          → (place_step s p).0 < suc (length xs)
      step below p h g = omega (arith, h g)
      step equal p h g = omega arith
      step above p h g = omega arith

  pub insert_sorted-IsWithin :
      (key : K) (v : V) (xs : List (K × V)) → IsWithin key xs (insert_sorted cmp key v xs)
  insert_sorted-IsWithin key v [] Q h k = (k, tt)
  insert_sorted-IsWithin key v (x ∷ xs) Q h k =
      step (sign (cmp x.0 key)) _ (insert_sorted-IsWithin key v xs Q (h.1) k)
    where
      step :
          (s : Sign) (rest : List (K × V))
          → All (λ y. Q y.0) rest
          → All (λ y. Q y.0) (insert_step s (key, v) x rest xs)
      step below _ r = (h.0, r)
      step equal _ r = (k, h)
      step above _ r = (k, h)

  pub erase_sorted-IsWithin :
      (key : K) (xs : List (K × V)) → IsWithin key xs (erase_sorted cmp key xs)
  erase_sorted-IsWithin key [] Q h k = tt
  erase_sorted-IsWithin key (x ∷ xs) Q h k =
      step (sign (cmp x.0 key)) _ (erase_sorted-IsWithin key xs Q (h.1) k)
    where
      step :
          (s : Sign) (rest : List (K × V))
          → All (λ y. Q y.0) rest
          → All (λ y. Q y.0) (erase_step s x rest xs)
      step below _ r = (h.0, r)
      step equal _ r = h.1
      step above _ r = h

module _ {ℓ κ} {K : Type ℓ} {V : Type κ} (cmp : K → K → ℤ) (order : IsOrder cmp) where
  pub insert_sorted-IsAscending :
      (key : K) (v : V) (xs : List (K × V))
      → IsAscending cmp xs
      → (place cmp key xs).1 ≡ false
      → IsAscending cmp (insert_sorted cmp key v xs)
  insert_sorted-IsAscending key v [] h n = (tt, tt)
  insert_sorted-IsAscending key v (x ∷ xs) h n =
      let result =
        λ (s : Sign). IsAscending cmp (insert_step s (key, v) x (insert_sorted cmp key v xs) xs) in
      let flag = λ (s : Sign). (place_step s (place cmp key xs)).1 ≡ false in
      elim (Sign-cases (sign (cmp x.0 key))) [
        | inl e ↦ subst result (sym e) (
          insert_sorted-IsWithin cmp key v xs (λ k. sign (cmp x.0 k) ≡ below) (h.0) e,
          insert_sorted-IsAscending key v xs (h.1) (subst flag e n),
        )
        | inr (inl e) ↦ let f = subst flag e n in absurd (cc)
        | inr (inr e) ↦
            let b = order.below_of_above x.0 key e in
            subst result (sym e) (
              (
                b,
                All-imp (λ y. sign (cmp x.0 y.0) ≡ below) (λ y. sign (cmp key y.0) ≡ below) xs
                    (λ y g. order.below_trans key x.0 y.0 b g) (h.0),
              ),
              h,
            )
      ]

  pub erase_sorted-IsAscending :
      (key : K) (xs : List (K × V)) → IsAscending cmp xs → IsAscending cmp (erase_sorted cmp key xs)
  erase_sorted-IsAscending key [] h = tt
  erase_sorted-IsAscending key (x ∷ xs) h =
      let result = λ (s : Sign). IsAscending cmp (erase_step s x (erase_sorted cmp key xs) xs) in
      elim (Sign-cases (sign (cmp x.0 key))) [
        | inl e ↦ subst result (sym e) (
          erase_sorted-IsWithin cmp key xs (λ k. sign (cmp x.0 k) ≡ below) (h.0) e,
          erase_sorted-IsAscending key xs (h.1),
        )
        | inr (inl e) ↦ subst result (sym e) (h.1)
        | inr (inr e) ↦ subst result (sym e) h
      ]
