-- ===== src/LruCache/Refine.antt =====
-- A cache is a list of entries with distinct keys, the one used last first.
use miniob_basic.Base.{
  ℕ, ◌≡◌, ◌≢◌, refl, sym, ap, ap₂, subst, ◌∙◌, Bool, true, none, some, List, ◌∷◌, ◌++◌, arith, inl,
  inr, Option-cases,
}
use miniob_basic.LruCache.{ListNode, LruCache, erase_node, find, lru_touch, lru_remove, get, remove}
use miniob_basic.LruCache.Seg.{has}
use miniob_basic.LruCache.Link.{SameData, has-split, has-append}
use miniob_basic.LruCache.Holds.{Holds, Holds-lru_remove}
use miniob_basic.LruCache.Touch.{Holds-lru_touch}
use miniob_basic.LruCache.Entries.{
  erase_key, lookup, entries, KeysDistinct, entries-same, find_node-some, find_node-none,
  lookup-entries, lookup-absent, IsEquality,
}

-- The linked list and the hash set of the cache hold one list of nodes, with these entries.
pub record Refines {ℓ} {K V : Type ℓ} (c : LruCache K V) (l : List (K × V)) : Type ℓ where
  pub list : List ℕ
  pub holds : Holds c list
  pub keys : KeysDistinct c.nodes list
  pub shows : entries c.nodes list ≡ l

-- An entry that is used goes to the front.
abbrev pub to_front {ℓ} : {K V : Type ℓ} → (K → K → Bool) → K → List (K × V) → List (K × V)
to_front pred key l = elim (lookup pred key l) [
  | none ↦ l
  | some v ↦ (key, v) ∷ erase_key pred key l
]

has-front :
    (a p : ℕ) (us vs : List ℕ) → has a (p ∷ (us ++ vs)) ≡ true → has a (us ++ (p ∷ vs)) ≡ true
has-front a p us vs h = ground (arith, has-append a us vs, has-append a us (p ∷ vs))

has-taken : (a p : ℕ) (us vs : List ℕ) → has a (us ++ vs) ≡ true → has a (us ++ (p ∷ vs)) ≡ true
has-taken a p us vs h = ground (arith, has-append a us vs, has-append a us (p ∷ vs))

module _ {ℓ} {K V : Type ℓ} where
  pub KeysDistinct-same :
      (nodes nodes' : ℕ → ListNode K V) (xs ys : List ℕ)
      → SameData nodes nodes'
      → ((a : ℕ) → has a ys ≡ true → has a xs ≡ true)
      → KeysDistinct nodes xs
      → KeysDistinct nodes' ys
  KeysDistinct-same nodes nodes' xs ys s i k a b h g e =
      k a b (i a h) (i b g) (sym (s.same_key a) ∙ e ∙ s.same_key b)

module _ {ℓ} {K V : Type ℓ} (pred : K → K → Bool) (eq : IsEquality pred) where
  pub Refines-lru_touch :
      (c : LruCache K V) (l : List (K × V)) (r : Refines c l) (p : ℕ)
      → has p r.list ≡ true
      → Refines
          (lru_touch c p)
          (((c.nodes p).key, (c.nodes p).value) ∷ erase_key pred (c.nodes p).key l)
  Refines-lru_touch c l r p h =
      let (us, vs, e, f) = has-split p r.list h in
      let (k, s) = Holds-lru_touch c us p vs (subst (Holds c) e r.holds) in
      let (i, j) = lookup-entries pred eq c.nodes r.list p r.keys h in
      record {
        list = p ∷ (us ++ vs);
        holds = k;
        keys =
            KeysDistinct-same c.nodes (lru_touch c p).nodes (us ++ (p ∷ vs)) (p ∷ (us ++ vs)) s
              (λ a. has-front a p us vs) (subst (KeysDistinct c.nodes) e r.keys);
        shows =
            entries-same c.nodes (lru_touch c p).nodes (p ∷ (us ++ vs)) s
            ∙ ap (◌∷◌ ((c.nodes p).key, (c.nodes p).value)) (
                ap (entries c.nodes) (sym f) ∙ sym j ∙ ap (erase_key pred (c.nodes p).key) r.shows);
      }

  touch-SameData :
      (c : LruCache K V) (l : List (K × V)) (r : Refines c l) (p : ℕ)
      → has p r.list ≡ true
      → SameData c.nodes (lru_touch c p).nodes
  touch-SameData c l r p h =
      let (us, vs, e, f) = has-split p r.list h in
      (Holds-lru_touch c us p vs (subst (Holds c) e r.holds)).1

  -- What the list says of the key of a node that `find` answers with.
  pub record IsFound (c : LruCache K V) (l : List (K × V)) (key : K) (list : List ℕ) (p : ℕ)
      : Type ℓ where
    pub in_list : has p list ≡ true
    pub its_key : (c.nodes p).key ≡ key
    pub looked_up : lookup pred key l ≡ some (c.nodes p).value
    pub erased : erase_key pred key l ≡ entries c.nodes (erase_node p list)

  pub find-IsFound :
      (c : LruCache K V) (l : List (K × V)) (key : K) (r : Refines c l) (p : ℕ)
      → find pred c key ≡ some p
      → IsFound c l key r.list p
  find-IsFound c l key r p e =
      let (h, k) = find_node-some pred eq c.nodes key c.searcher p e in
      let g = sym (r.holds.same p) ∙ h in
      let (i, j) = lookup-entries pred eq c.nodes r.list p r.keys g in
      record {
        in_list = g;
        its_key = k;
        looked_up = ap₂ (lookup pred) (sym k) (sym r.shows) ∙ i;
        erased = ap₂ (erase_key pred) (sym k) (sym r.shows) ∙ j;
      }

  pub find-absent :
      (c : LruCache K V) (l : List (K × V)) (key : K) (r : Refines c l)
      → find pred c key ≡ none
      → (a : ℕ) → has a r.list ≡ true
      → (c.nodes a).key ≢ key
  find-absent c l key r e a h =
      find_node-none pred eq c.nodes key c.searcher a e (r.holds.same a ∙ h)

  pub find-none :
      (c : LruCache K V) (l : List (K × V)) (key : K) (r : Refines c l)
      → find pred c key ≡ none
      → (lookup pred key l ≡ none) × (erase_key pred key l ≡ l)
  find-none c l key r e =
      let (i, j) = lookup-absent pred eq c.nodes r.list key (find-absent c l key r e) in
      (ap (lookup pred key) (sym r.shows) ∙ i, ap (erase_key pred key) (sym r.shows) ∙ j ∙ r.shows)

  pub to_front-none :
      (key : K) (l : List (K × V)) → lookup pred key l ≡ none → to_front pred key l ≡ l
  to_front-none key l e = rw (e, to_front) refl

  pub to_front-some :
      (key : K) (l : List (K × V)) (v : V)
      → lookup pred key l ≡ some v
      → to_front pred key l ≡ (key, v) ∷ erase_key pred key l
  to_front-some key l v e = rw (e, to_front) refl

  get-none : (c : LruCache K V) (key : K) → find pred c key ≡ none → get pred c key ≡ (none, c)
  unfolding get
  get-none c key e = rw (e, get) refl

  get-some :
      (c : LruCache K V) (key : K) (p : ℕ)
      → find pred c key ≡ some p
      → get pred c key ≡ (some ((lru_touch c p).nodes p).value, lru_touch c p)
  unfolding get
  get-some c key p e = rw (e, get) refl

  -- A search without an answer changes nothing.
  pub get-absent :
      (c : LruCache K V) (l : List (K × V)) (key : K)
      → Refines c l
      → lookup pred key l ≡ none
      → get pred c key ≡ (none, c)
  get-absent c l key r h = elim (Option-cases (find pred c key)) [
    | inl e ↦ get-none c key e
    | inr (p, e) ↦ let f = find-IsFound c l key r p e in cc (f.looked_up, h)
  ]

  -- When `pred` is the equality of keys, `get` answers with the value of the key, if there is one,
  -- and puts its entry in front.
  pub Refines-get :
      (c : LruCache K V) (l : List (K × V)) (key : K)
      → Refines c l
      → ((get pred c key).0 ≡ lookup pred key l) × Refines (get pred c key).1 (to_front pred key l)
  Refines-get c l key r = elim (Option-cases (find pred c key)) [
    | inl e ↦
        let (i, j) = find-none c l key r e in
        rw (get-none c key e) (sym i, subst (Refines c) (sym (to_front-none key l i)) r)
    | inr (p, e) ↦
        let f = find-IsFound c l key r p e in
        rw (get-some c key p e) (
          ap some ((touch-SameData c l r p f.in_list).same_value p) ∙ sym f.looked_up,
          subst (Refines (lru_touch c p)) (sym (to_front-some key l (c.nodes p).value f.looked_up))
              (subst (λ k. Refines (lru_touch c p) ((k, (c.nodes p).value) ∷ erase_key pred k l))
                f.its_key (Refines-lru_touch c l r p f.in_list)),
        )
  ]

  remove-none : (c : LruCache K V) (key : K) → find pred c key ≡ none → remove pred c key ≡ c
  unfolding remove
  remove-none c key e = rw (e, remove) refl

  remove-some :
      (c : LruCache K V) (key : K) (p : ℕ)
      → find pred c key ≡ some p
      → remove pred c key ≡ lru_remove c p
  unfolding remove
  remove-some c key p e = rw (e, remove) refl

  Refines-lru_remove :
      (c : LruCache K V) (l : List (K × V)) (key : K) (r : Refines c l) (p : ℕ)
      → IsFound c l key r.list p
      → Refines (lru_remove c p) (erase_key pred key l)
  Refines-lru_remove c l key r p f =
      let (us, vs, e, g) = has-split p r.list f.in_list in
      let (k, s) = Holds-lru_remove c us p vs (subst (Holds c) e r.holds) in
      record {
        list = us ++ vs;
        holds = k;
        keys =
            KeysDistinct-same c.nodes (lru_remove c p).nodes (us ++ (p ∷ vs)) (us ++ vs) s
              (λ a. has-taken a p us vs) (subst (KeysDistinct c.nodes) e r.keys);
        shows =
            entries-same c.nodes (lru_remove c p).nodes (us ++ vs) s
            ∙ ap (entries c.nodes) (sym g)
            ∙ sym f.erased;
      }

  -- When `pred` is the equality of keys, `remove` takes the entry of the key out, and leaves the
  -- entries as they are without one.
  pub Refines-remove :
      (c : LruCache K V) (l : List (K × V)) (key : K)
      → Refines c l
      → Refines (remove pred c key) (erase_key pred key l)
  Refines-remove c l key r = elim (Option-cases (find pred c key)) [
    | inl e ↦ rw (remove-none c key e, (find-none c l key r e).1) r
    | inr (p, e) ↦
        rw (remove-some c key p e) (Refines-lru_remove c l key r p (find-IsFound c l key r p e))
  ]
