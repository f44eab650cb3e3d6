-- ===== src/LruCache/Link.antt =====
-- A node is taken out of a doubly linked list, and put in front of one.
use miniob_basic.Base.{
  ℕ, ◌≡◌, refl, sym, ap, ◌∙◌, true, false, ◌||◌, ==_iff, ==_ne, ℕ_discrete, Option, none, some,
  List, [], ◌∷◌, ◌++◌, arith, Bool-cases, inl, inr, Bool-cases, inl, inr,
}
use miniob_basic.LruCache.{ListNode, write, set_next, set_prev, erase_node}
use miniob_basic.LruCache.Seg.{
  has, Distinct, first, last, Seg, Seg-frame, Seg-write, Seg-append, Seg-split, Seg-set_next,
  Seg-set_prev, set_next-other, write_self, write-other, has-ne, has-rest, has_self,
}

pub has-append : (a : ℕ) (xs ys : List ℕ) → has a (xs ++ ys) ≡ (has a xs || has a ys)
has-append a [] ys = refl
has-append a (x ∷ xs) ys = ground (arith, has-append a xs ys)

-- The parts of a list without repetition.
pub record AreApart (xs ys : List ℕ) : Type 0 where
  pub left : Distinct xs
  pub right : Distinct ys
  pub apart : (a : ℕ) → has a xs ≡ true → has a ys ≡ false

pub Distinct-split : (xs ys : List ℕ) → Distinct (xs ++ ys) → AreApart xs ys
Distinct-split [] ys d = record { left = tt; right = d; apart = λ a h. cc }
Distinct-split (x ∷ xs) ys d =
    let v = Distinct-split xs ys (d.1) in
    let e = has-append x xs ys in
    record {
      left = (ground (arith, e, d.0), v.left);
      right = v.right;
      apart = λ a h. elim (ℕ_discrete a x) [
        | yes q ↦ ap (λ b. has b ys) q ∙ ground (arith, e, d.0)
        | no q ↦ v.apart a (ground arith)
      ];
    }

pub Distinct-append : (xs ys : List ℕ) → AreApart xs ys → Distinct (xs ++ ys)
Distinct-append [] ys v = v.right
Distinct-append (x ∷ xs) ys v = (
  has-append x xs ys ∙ ground (arith, v.left.0, v.apart x),
  Distinct-append xs ys
      record { left = v.left.1; right = v.right; apart = λ a h. v.apart a (ground arith) },
)

-- A list at a place of an element.
pub has-split :
    (p : ℕ) (xs : List ℕ)
    → has p xs ≡ true
    → (us : List ℕ) × (vs : List ℕ) × (xs ≡ us ++ (p ∷ vs)) × (erase_node p xs ≡ us ++ vs)
has-split p [] h = cc
has-split p (x ∷ xs) h = elim (ℕ_discrete x p) [
  | yes e ↦ ([], xs, ap (λ y. y ∷ xs) e, rw ((==_iff x p).1 e) refl)
  | no e ↦
      let (us, vs, q, r) = has-split p xs (ground arith) in
      (x ∷ us, vs, ap (◌∷◌ x) q, rw (==_ne x p e) (ap (◌∷◌ x) r))
]

module _ {ℓ} {K V : Type ℓ} where
  -- Keys and values are as before.
  pub record SameData (nodes nodes' : ℕ → ListNode K V) : Type ℓ where
    pub same_key : (a : ℕ) → (nodes' a).key ≡ (nodes a).key
    pub same_value : (a : ℕ) → (nodes' a).value ≡ (nodes a).value

  pub SameData-trans :
      (n1 n2 n3 : ℕ → ListNode K V) → SameData n1 n2 → SameData n2 n3 → SameData n1 n3
  SameData-trans n1 n2 n3 a b = record {
    same_key = λ x. b.same_key x ∙ a.same_key x;
    same_value = λ x. b.same_value x ∙ a.same_value x;
  }

  pub SameData-write :
      (nodes : ℕ → ListNode K V) (p : ℕ) (m : ListNode K V)
      → m.key ≡ (nodes p).key
      → m.value ≡ (nodes p).value
      → SameData nodes (write nodes p m)
  SameData-write nodes p m k v = record {
    same_key = λ a. elim (ℕ_discrete a p) [
      | yes e ↦ rw ((==_iff a p).1 e, write) (k ∙ ap (λ x. (nodes x).key) (sym e))
      | no e ↦ rw (==_ne a p e, write) refl
    ];
    same_value = λ a. elim (ℕ_discrete a p) [
      | yes e ↦ rw ((==_iff a p).1 e, write) (v ∙ ap (λ x. (nodes x).value) (sym e))
      | no e ↦ rw (==_ne a p e, write) refl
    ];
  }

  SameData-set_next :
      (nodes : ℕ → ListNode K V) (p q : Option ℕ) → SameData nodes (set_next nodes p q)
  SameData-set_next nodes none q = record { same_key = λ a. refl; same_value = λ a. refl }
  SameData-set_next nodes (some p) q =
      SameData-write nodes p (record (nodes p) { next = q }) refl refl

  SameData-set_prev :
      (nodes : ℕ → ListNode K V) (p q : Option ℕ) → SameData nodes (set_prev nodes p q)
  SameData-set_prev nodes none q = record { same_key = λ a. refl; same_value = λ a. refl }
  SameData-set_prev nodes (some p) q =
      SameData-write nodes p (record (nodes p) { prev = q }) refl refl

  pub set_next-last :
      (nodes : ℕ → ListNode K V) (x : ℕ) (us : List ℕ) (n : Option ℕ)
      → has x us ≡ false
      → set_next nodes (last none us) n x ≡ nodes x
  set_next-last nodes x [] n h = refl
  set_next-last nodes x (y ∷ ys) n h = set_next-other nodes x y ys n h

  set_prev-first :
      (nodes : ℕ → ListNode K V) (x : ℕ) (vs : List ℕ) (q : Option ℕ)
      → has x vs ≡ false
      → set_prev nodes (first vs none) q x ≡ nodes x
  set_prev-first nodes x [] q h = refl
  set_prev-first nodes x (b ∷ vs) q h =
      write-other nodes b x (record (nodes b) { prev = q }) (has-ne x b vs h)

  end_moved :
      (nodes : ℕ → ListNode K V) (us : List ℕ) (n n' : Option ℕ)
      → Distinct us
      → Seg nodes none us n
      → Seg (set_next nodes (last none us) n') none us n'
  end_moved nodes [] n n' d s = tt
  end_moved nodes (a ∷ us) n n' d s = Seg-set_next nodes none a us n n' d s

  start_moved :
      (nodes : ℕ → ListNode K V) (vs : List ℕ) (p p' : Option ℕ)
      → Distinct vs
      → Seg nodes p vs none
      → Seg (set_prev nodes (first vs none) p') p' vs none
  start_moved nodes [] p p' d s = tt
  start_moved nodes (b ∷ vs) p p' d s = Seg-set_prev nodes p p' b vs none d s

  abbrev pub relinked : (ℕ → ListNode K V) → List ℕ → List ℕ → ℕ → ListNode K V
  relinked nodes us vs =
      set_prev (set_next nodes (last none us) (first vs none)) (first vs none) (last none us)

  -- The neighbours of `p` are led past it, and `p` itself is left as it is.
  pub record IsUnlinked (nodes nodes' : ℕ → ListNode K V) (us : List ℕ) (p : ℕ) (vs : List ℕ)
      : Type ℓ where
    pub chain : Seg nodes' none (us ++ vs) none
    pub kept : nodes' p ≡ nodes p
    pub same : SameData nodes nodes'
    pub before : (nodes p).prev ≡ last none us
    pub behind : (nodes p).next ≡ first vs none
    pub parts : Distinct (us ++ vs)
    pub outside : has p (us ++ vs) ≡ false

  pub relinked-IsUnlinked :
      (nodes : ℕ → ListNode K V) (us : List ℕ) (p : ℕ) (vs : List ℕ)
      → Seg nodes none (us ++ (p ∷ vs)) none
      → Distinct (us ++ (p ∷ vs))
      → IsUnlinked nodes (relinked nodes us vs) us p vs
  relinked-IsUnlinked nodes us p vs s d =
      let v = Distinct-split us (p ∷ vs) d in
      let (s1, s2) = Seg-split nodes none us (p ∷ vs) none s in
      let nodes1 = set_next nodes (last none us) (first vs none) in
      let p_us : has p us ≡ false = not_in p us vs v in
      let apart = λ (a : ℕ) (h : has a us ≡ true). has-rest a p vs (v.apart a h) in
      let t1 = end_moved nodes us (some p) (first vs none) v.left s1 in
      let t2 =
        Seg-frame nodes nodes1 (some p) vs none
          (λ a h. set_next-last nodes a us (first vs none) (apart_back a us vs apart h)) (s2.2) in
      let u1 =
        Seg-frame nodes1 (relinked nodes us vs) none us (first vs none)
          (λ a h. set_prev-first nodes1 a vs (last none us) (apart a h)) t1 in
      let u2 = start_moved nodes1 vs (some p) (last none us) (v.right.1) t2 in
      record {
        chain = Seg-append (relinked nodes us vs) none us vs none u1 u2;
        kept =
            set_prev-first nodes1 p vs (last none us) (v.right.0)
            ∙ set_next-last nodes p us (first vs none) p_us;
        same =
            SameData-trans nodes nodes1 (relinked nodes us vs)
              (SameData-set_next nodes (last none us) (first vs none))
              (SameData-set_prev nodes1 (first vs none) (last none us));
        before = s2.0;
        behind = s2.1;
        parts = Distinct-append us vs record { left = v.left; right = v.right.1; apart = apart };
        outside = has-append p us vs ∙ ground (arith, p_us, v.right.0);
      }
    where
      apart_back :
          (a : ℕ) (us vs : List ℕ)
          → ((b : ℕ) → has b us ≡ true → has b vs ≡ false)
          → has a vs ≡ true
          → has a us ≡ false
      apart_back a us vs f h = elim (Bool-cases (has a us)) [ inl e ↦ cc (f a e) | inr e ↦ e ]

      not_in : (p : ℕ) (us vs : List ℕ) → AreApart us (p ∷ vs) → has p us ≡ false
      not_in p us vs v = elim (Bool-cases (has p us)) [
        | inl e ↦ cc (v.apart p e, has_self p vs)
        | inr e ↦ e
      ]

  -- `p`, which is not in the list, goes in front of it.
  pub record IsPushed (nodes nodes' : ℕ → ListNode K V) (p : ℕ) (xs : List ℕ) : Type ℓ where
    pub chain : Seg nodes' none (p ∷ xs) none
    pub same : SameData nodes nodes'

  abbrev pub pushed : (ℕ → ListNode K V) → ℕ → Option ℕ → ℕ → ListNode K V
  pushed nodes p front =
      set_prev (set_next (set_prev nodes (some p) none) (some p) front) front (some p)

  pub pushed-IsPushed :
      (nodes : ℕ → ListNode K V) (p : ℕ) (xs : List ℕ)
      → Seg nodes none xs none
      → Distinct xs
      → has p xs ≡ false
      → IsPushed nodes (pushed nodes p (first xs none)) p xs
  pushed-IsPushed nodes p xs s d h =
      let m0 = record (nodes p) { prev = none } in
      let nodes0 = write nodes p m0 in
      let m1 = record (nodes0 p) { next = first xs none } in
      let nodes1 = write nodes0 p m1 in
      let nodes2 = set_prev nodes1 (first xs none) (some p) in
      let e : nodes2 p ≡ m1 = set_prev-first nodes1 p xs (some p) h ∙ write_self nodes0 p m1 in
      record {
        chain = (
          ap (λ m. m.prev) e ∙ ap (λ m. m.prev) (write_self nodes p m0),
          ap (λ m. m.next) e,
          start_moved nodes1 xs none (some p) d
              (Seg-write nodes0 none xs none p m1 h (Seg-write nodes none xs none p m0 h s)),
        );
        same = SameData-trans nodes nodes0 nodes2 (SameData-write nodes p m0 refl refl) (
            SameData-trans nodes0 nodes1 nodes2 (SameData-write nodes0 p m1 refl refl)
              (SameData-set_prev nodes1 (first xs none) (some p)));
      }
