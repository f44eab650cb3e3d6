-- ===== src/LruCache/Holds.antt =====
-- The linked list and the hash set of a cache hold the same nodes.
use miniob_basic.Base.{
  ℕ, ◌≡◌, refl, sym, ap, ap₂, subst, ◌∙◌, true, false, not, ◌&&◌, ◌==◌, ==_iff, ==_ne, ℕ_discrete,
  Option, none, some, List, [], ◌∷◌, ◌++◌, if◌then◌else◌, arith, append-nil,
}
use miniob_basic.LruCache.{
  ListNode, LruCache, set_next, set_prev, erase_node, is_node, unlink, lru_remove,
}
use miniob_basic.LruCache.Seg.{has, Distinct, first, last, Seg, has-ne, has_self, not_both}
use miniob_basic.LruCache.Link.{
  has-append, SameData, set_next-last, relinked, IsUnlinked, relinked-IsUnlinked,
}

-- The nodes `xs` are those of the cache, the one used last first.
pub record Holds {ℓ} {K V : Type ℓ} (c : LruCache K V) (xs : List ℕ) : Type ℓ where
  pub chain : Seg c.nodes none xs none
  pub front : c.lru_front ≡ first xs none
  pub tail : c.lru_tail ≡ last none xs
  pub distinct : Distinct xs
  pub same : (a : ℕ) → has a c.searcher ≡ has a xs
  pub once : Distinct c.searcher

pub last-append :
    (p : Option ℕ) (xs : List ℕ) (y : ℕ) (ys : List ℕ) → last p (xs ++ (y ∷ ys)) ≡ last (some y) ys
last-append p [] y ys = refl
last-append p (x ∷ xs) y ys = last-append (some x) xs y ys

pub last-some :
    (x : ℕ) (xs : List ℕ) → (z : ℕ) × (last (some x) xs ≡ some z) × (has z (x ∷ xs) ≡ true)
last-some x [] = (x, refl, has_self x [])
last-some x (y ∷ ys) = let (z, e, h) = last-some y ys in (z, e, ground arith)

pub last-none : (xs : List ℕ) → last none xs ≡ none → xs ≡ []
last-none [] e = refl
last-none (x ∷ xs) e = let (z, f, h) = last-some x xs in cc

is_node-last :
    (p x : ℕ) (xs : List ℕ) → has p (x ∷ xs) ≡ false → is_node (last (some x) xs) p ≡ false
is_node-last p x xs h =
    let (z, e, g) = last-some x xs in rw e (==_ne z p (not_both p z (x ∷ xs) g h))

pub has-erase_node :
    (a p : ℕ) (xs : List ℕ) → Distinct xs → has a (erase_node p xs) ≡ (has a xs && not (a == p))
has-erase_node a p [] d = refl
has-erase_node a p (x ∷ xs) d = elim (ℕ_discrete x p) [
  | yes e ↦ rw ((==_iff x p).1 e) (elim (ℕ_discrete a p) [
    | yes q ↦ rw ((==_iff a p).1 q) (ap (λ y. has y xs) (q ∙ sym e) ∙ d.0 ∙ ground arith)
    | no q ↦ ground arith
  ])
  | no e ↦ rw (==_ne x p e) (ground (arith, has-erase_node a p xs (d.1)))
]

pub Distinct-erase_node : (p : ℕ) (xs : List ℕ) → Distinct xs → Distinct (erase_node p xs)
Distinct-erase_node p [] d = tt
Distinct-erase_node p (x ∷ xs) d = elim (ℕ_discrete x p) [
  | yes e ↦ rw ((==_iff x p).1 e) (d.1)
  | no e ↦
      rw (==_ne x p e) (has-erase_node x p xs (d.1) ∙ rw (d.0) refl, Distinct-erase_node p xs (d.1))
]

front_left :
    (us : List ℕ) (p : ℕ) (vs : List ℕ)
    → has p us ≡ false
    → (if is_node (first (us ++ (p ∷ vs)) none) p
        then first vs none
        else first (us ++ (p ∷ vs)) none)
      ≡ first (us ++ vs) none
front_left [] p vs h = rw ((==_iff p p).1 refl) refl
front_left (u ∷ us) p vs h = rw (==_ne u p (λ e. has-ne p u us h (sym e))) refl

tail_left :
    (us : List ℕ) (p : ℕ) (vs : List ℕ)
    → has p vs ≡ false
    → (if is_node (last none (us ++ (p ∷ vs))) p then last none us else last none (us ++ (p ∷ vs)))
      ≡ last none (us ++ vs)
tail_left us p [] h = rw (last-append none us p [], (==_iff p p).1 refl, append-nil us) refl
tail_left us p (v ∷ vs) h =
    rw (last-append none us p (v ∷ vs), last-append none us v vs, is_node-last p v vs h) refl

module _ {ℓ} {K V : Type ℓ} where
  set_next-unlinked :
      (nodes nodes' : ℕ → ListNode K V) (us : List ℕ) (p : ℕ) (vs : List ℕ)
      → IsUnlinked nodes nodes' us p vs
      → set_next nodes (nodes p).prev (nodes p).next ≡ set_next nodes (last none us) (first vs none)
  set_next-unlinked nodes nodes' us p vs u = ap₂ (set_next nodes) u.before u.behind

  pub next_kept :
      (nodes nodes' : ℕ → ListNode K V) (us : List ℕ) (p : ℕ) (vs : List ℕ)
      → IsUnlinked nodes nodes' us p vs
      → set_next nodes (nodes p).prev (nodes p).next p ≡ nodes p
  next_kept nodes nodes' us p vs u =
      ap (λ n. n p) (set_next-unlinked nodes nodes' us p vs u)
      ∙ set_next-last nodes p us (first vs none) (ground (arith, has-append p us vs, u.outside))

  pub unlink-relinked :
      (nodes nodes' : ℕ → ListNode K V) (us : List ℕ) (p : ℕ) (vs : List ℕ)
      → IsUnlinked nodes nodes' us p vs
      → unlink nodes p ≡ relinked nodes us vs
  unlink-relinked nodes nodes' us p vs u =
      ap₂ (λ n m. set_prev n m.next m.prev) (set_next-unlinked nodes nodes' us p vs u)
        (next_kept nodes nodes' us p vs u)
      ∙ ap₂ (set_prev (set_next nodes (last none us) (first vs none))) u.behind u.before

  lru_remove_lem :
      (c : LruCache K V) (us : List ℕ) (p : ℕ) (vs : List ℕ)
      → IsUnlinked c.nodes (relinked c.nodes us vs) us p vs
      → lru_remove c p ≡ record {
        nodes = relinked c.nodes us vs;
        searcher = erase_node p c.searcher;
        lru_front = if is_node c.lru_front p then first vs none else c.lru_front;
        lru_tail = if is_node c.lru_tail p then last none us else c.lru_tail;
      }
  unfolding lru_remove
  lru_remove_lem c us p vs u =
      ap
        (λ n. record {
          nodes = n;
          searcher = erase_node p c.searcher;
          lru_front = if is_node c.lru_front p then (n p).next else c.lru_front;
          lru_tail = if is_node c.lru_tail p then (n p).prev else c.lru_tail;
        })
        (unlink-relinked c.nodes (relinked c.nodes us vs) us p vs u)
      ∙ ap
          (λ m. record {
            nodes = relinked c.nodes us vs;
            searcher = erase_node p c.searcher;
            lru_front = if is_node c.lru_front p then m.next else c.lru_front;
            lru_tail = if is_node c.lru_tail p then m.prev else c.lru_tail;
          })
          u.kept
      ∙ ap₂
          (λ m n. record {
            nodes = relinked c.nodes us vs;
            searcher = erase_node p c.searcher;
            lru_front = if is_node c.lru_front p then m else c.lru_front;
            lru_tail = if is_node c.lru_tail p then n else c.lru_tail;
          })
          u.behind u.before

  pub Holds-lru_remove :
      (c : LruCache K V) (us : List ℕ) (p : ℕ) (vs : List ℕ)
      → Holds c (us ++ (p ∷ vs))
      → Holds (lru_remove c p) (us ++ vs) × SameData c.nodes (lru_remove c p).nodes
  Holds-lru_remove c us p vs h =
      let u = relinked-IsUnlinked c.nodes us p vs h.chain h.distinct in
      let q = has-append p us vs in
      let p_us : has p us ≡ false = ground (arith, q, u.outside) in
      let p_vs : has p vs ≡ false = ground (arith, q, u.outside) in
      subst (λ c'. Holds c' (us ++ vs) × SameData c.nodes c'.nodes)
        (sym (lru_remove_lem c us p vs u))
        (
          record {
            chain = u.chain;
            front =
                ap (λ f. if is_node f p then first vs none else f) h.front
                ∙ front_left us p vs p_us;
            tail =
                ap (λ f. if is_node f p then last none us else f) h.tail ∙ tail_left us p vs p_vs;
            distinct = u.parts;
            same =
                λ a. has-erase_node a p c.searcher h.once ∙ removed a us p vs (h.same a) p_us p_vs;
            once = Distinct-erase_node p c.searcher h.once;
          },
          u.same,
        )
    where
      removed :
          (a : ℕ) (us : List ℕ) (p : ℕ) (vs : List ℕ)
          → has a c.searcher ≡ has a (us ++ (p ∷ vs))
          → has p us ≡ false
          → has p vs ≡ false
          → (has a c.searcher && not (a == p)) ≡ has a (us ++ vs)
      removed a us p vs e f g = elim (ℕ_discrete a p) [
        | yes q ↦
            let z : has p (us ++ vs) ≡ false = ground (arith, has-append p us vs, f, g) in
            rw ((==_iff a p).1 q) (ground (arith, ap (λ b. has b (us ++ vs)) q, z))
        | no q ↦ rw (e, ==_ne a p q) (ground (arith, has-append a us (p ∷ vs), has-append a us vs))
      ]
