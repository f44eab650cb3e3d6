-- ===== src/LruCache/Touch.antt =====
-- A node that is used, or is new, goes to the front.
use miniob_basic.Base.{
  ℕ, ◌≡◌, refl, sym, ap, ap₂, subst, ◌∙◌, Bool, true, false, ◌||◌, ◌==◌, Option, none, some, List,
  [], ◌∷◌, ◌++◌, append-nil,
}
use miniob_basic.LruCache.{LruCache, push_front, move_to_front, lru_touch, lru_push}
use miniob_basic.LruCache.Seg.{has, first, last}
use miniob_basic.LruCache.Link.{
  has-append, SameData, SameData-trans, relinked, IsUnlinked, relinked-IsUnlinked, pushed,
  pushed-IsPushed,
}
use miniob_basic.LruCache.Holds.{Holds, last-append, last-some, next_kept, unlink-relinked}

new_tail :
    (us : List ℕ) (u p : ℕ) (vs : List ℕ) (t : Option ℕ)
    → t ≡ last none (u ∷ (us ++ (p ∷ vs)))
    → (elim (first vs none) as (λ o. Option ℕ) [ none ↦ last none (u ∷ us) | some q ↦ t ])
      ≡ last (some p) (u ∷ (us ++ vs))
new_tail us u p [] t e = ap (last (some u)) (sym (append-nil us))
new_tail us u p (v ∷ vs) t e =
    e ∙ last-append (some u) us p (v ∷ vs) ∙ sym (last-append (some u) us v vs)

swap_or : (u x p y : Bool) → (u || (x || (p || y))) ≡ (p || (u || (x || y)))
swap_or true x true y = refl
swap_or true x false y = refl
swap_or false true true y = refl
swap_or false true false y = refl
swap_or false false true y = refl
swap_or false false false y = refl

has-moved :
    (a u : ℕ) (us : List ℕ) (p : ℕ) (vs : List ℕ)
    → has a (u ∷ (us ++ (p ∷ vs))) ≡ has a (p ∷ (u ∷ (us ++ vs)))
has-moved a u us p vs =
    ap (◌||◌ (a == u)) (has-append a us (p ∷ vs))
    ∙ swap_or (a == u) (has a us) (a == p) (has a vs)
    ∙ ap (λ b. (a == p) || ((a == u) || b)) (sym (has-append a us vs))

module _ {ℓ} {K V : Type ℓ} where
  push_front_lem :
      (c : LruCache K V) (p : ℕ) (f : Option ℕ)
      → c.lru_front ≡ f
      → push_front c p ≡ record c { nodes = pushed c.nodes p f; lru_front = some p }
  unfolding push_front
  push_front_lem c p f e = ap (λ g. record c { nodes = pushed c.nodes p g; lru_front = some p }) e

  pub Holds-lru_push :
      (c : LruCache K V) (p : ℕ) (xs : List ℕ)
      → Holds c xs
      → has p xs ≡ false
      → Holds (lru_push c p) (p ∷ xs) × SameData c.nodes (lru_push c p).nodes
  unfolding lru_push
  Holds-lru_push c p xs h n =
      let tail : Option ℕ = elim c.lru_tail [ none ↦ some p | some q ↦ c.lru_tail ] in
      let c1 : LruCache K V = record c { lru_tail = tail } in
      let i = pushed-IsPushed c.nodes p xs h.chain h.distinct n in
      subst
        (λ c'.
          Holds (record c' { searcher = p ∷ c'.searcher }) (p ∷ xs) × SameData c.nodes c'.nodes)
        (sym (push_front_lem c1 p (first xs none) h.front))
        (
          record {
            chain = i.chain;
            front = refl;
            tail = pushed_tail xs c.lru_tail h.tail;
            distinct = (n, h.distinct);
            same = λ a. ap (λ b. (a == p) || b) (h.same a);
            once = (h.same p ∙ n, h.once);
          },
          i.same,
        )
    where
      pushed_tail :
          (xs : List ℕ) (t : Option ℕ)
          → t ≡ last none xs
          → (elim t as (λ u. Option ℕ) [ none ↦ some p | some q ↦ t ]) ≡ last (some p) xs
      pushed_tail [] t e = rw e refl
      pushed_tail (x ∷ xs) t e = let (z, f, g) = last-some x xs in rw (e ∙ f) e

  move_to_front_lem :
      (c : LruCache K V) (us : List ℕ) (p : ℕ) (vs : List ℕ)
      → IsUnlinked c.nodes (relinked c.nodes us vs) us p vs
      → move_to_front c p
        ≡ push_front
            (record c {
              nodes = relinked c.nodes us vs;
              lru_tail = elim (first vs none) as (λ o. Option ℕ) [
                | none ↦ last none us
                | some q ↦ c.lru_tail
              ];
            })
            p
  unfolding move_to_front
  move_to_front_lem c us p vs u =
      ap₂ (λ n t. push_front (record c { nodes = n; lru_tail = t }) p)
        (unlink-relinked c.nodes (relinked c.nodes us vs) us p vs u)
        (ap (λ m. elim m.next as (λ o. Option ℕ) [ none ↦ (c.nodes p).prev | some q ↦ c.lru_tail ])
            (next_kept c.nodes (relinked c.nodes us vs) us p vs u)
          ∙ ap₂ (λ f b. elim f as (λ o. Option ℕ) [ none ↦ b | some q ↦ c.lru_tail ]) u.behind
              u.before)

  lru_touch-first : (c : LruCache K V) (p : ℕ) → (c.nodes p).prev ≡ none → lru_touch c p ≡ c
  unfolding lru_touch
  lru_touch-first c p e = rw (e, lru_touch) refl

  lru_touch-later :
      (c : LruCache K V) (p q : ℕ) → (c.nodes p).prev ≡ some q → lru_touch c p ≡ move_to_front c p
  unfolding lru_touch
  lru_touch-later c p q e = rw (e, lru_touch) refl

  pub Holds-lru_touch :
      (c : LruCache K V) (us : List ℕ) (p : ℕ) (vs : List ℕ)
      → Holds c (us ++ (p ∷ vs))
      → Holds (lru_touch c p) (p ∷ (us ++ vs)) × SameData c.nodes (lru_touch c p).nodes
  Holds-lru_touch c [] p vs h =
      let i = relinked-IsUnlinked c.nodes [] p vs h.chain h.distinct in
      subst (λ c'. Holds c' (p ∷ vs) × SameData c.nodes c'.nodes)
        (sym (lru_touch-first c p i.before))
        (h, record { same_key = λ a. refl; same_value = λ a. refl })
  Holds-lru_touch c (u ∷ us) p vs h =
      let i = relinked-IsUnlinked c.nodes (u ∷ us) p vs h.chain h.distinct in
      let (z, e, g) = last-some u us in
      let tail : Option ℕ = elim (first vs none) [
        | none ↦ last none (u ∷ us)
        | some q ↦ c.lru_tail
      ] in
      let c1 : LruCache K V = record c { nodes = relinked c.nodes (u ∷ us) vs; lru_tail = tail } in
      let k = pushed-IsPushed c1.nodes p (u ∷ (us ++ vs)) i.chain i.parts i.outside in
      subst (λ c'. Holds c' (p ∷ (u ∷ (us ++ vs))) × SameData c.nodes c'.nodes)
        (sym (
          lru_touch-later c p z (i.before ∙ e)
          ∙ move_to_front_lem c (u ∷ us) p vs i
          ∙ push_front_lem c1 p (some u) h.front))
        (
          record {
            chain = k.chain;
            front = refl;
            tail = new_tail us u p vs c.lru_tail h.tail;
            distinct = (i.outside, i.parts);
            same = λ a. h.same a ∙ has-moved a u us p vs;
            once = h.once;
          },
          SameData-trans c.nodes c1.nodes (pushed c1.nodes p (some u)) i.same k.same,
        )
