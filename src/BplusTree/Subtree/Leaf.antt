-- ===== src/BplusTree/Subtree/Leaf.antt =====
-- The leaf of a key in a tree, and the tree when that leaf gets other items.
use miniob_basic.Base.{
  ℕ, zero, suc, ◌-◌, ◌≡◌, ◌≢◌, refl, sym, ap, subst, ◌∙◌, List, [], ◌∷◌, ◌++◌, append_assoc,
  append-nil, inl, inr,
}
use miniob_basic.Base.Int.{ℤ}
use miniob_basic.LowerBound.{Sign, below, above, sign}
use miniob_basic.LowerBound.Search.{Sign-cases}
use miniob_basic.BplusTree.Array.{slice}
use miniob_basic.BplusTree.Order.{IsOrder, All, All-append, All-parts, All-imp}
use miniob_basic.BplusTree.Order.Parts.{IsWithin}
use miniob_basic.BplusTree.Node.{IndexNode}
use miniob_basic.BplusTree.Node.Lookup.{child_for, descend_step}
use miniob_basic.BplusTree.Subtree.{IsBelow, IsAbove, IsForest, IsSubtree}

-- `p` stands in `ps`.
abbrev pub IsIn : ℕ → List ℕ → Type 1
IsIn p ps = (Q : ℕ → Type 0) → All Q ps → Q p

module _ {ℓ} {K : Type ℓ} (cmp : K → K → ℤ) (order : IsOrder cmp) where
  below-of :
      (x y key : K) → sign (cmp x y) ≡ below → sign (cmp y key) ≢ above → sign (cmp x key) ≡ below
  below-of x y key b n = elim (Sign-cases (sign (cmp y key))) [
    | inl e ↦ order.below_trans x y key b e
    | inr (inl e) ↦
        order.below_of_above key x (sym (order.like y key x e) ∙ order.above_of_below x y b)
    | inr (inr e) ↦ absurd (n e)
  ]

  above-of :
      (x y key : K) → sign (cmp x y) ≢ below → sign (cmp y key) ≡ above → sign (cmp x key) ≡ above
  above-of x y key n a = elim (Sign-cases (sign (cmp x y))) [
    | inl e ↦ absurd (n e)
    | inr (inl e) ↦ order.like x y key e ∙ a
    | inr (inr e) ↦
        order.above_of_below key x
          (order.below_trans key y x (order.below_of_above y key a) (order.below_of_above x y e))
  ]

  not_below-of : (y key : K) → sign (cmp y key) ≢ above → sign (cmp key y) ≢ below
  not_below-of y key n b = n (order.above_of_below key y b)

module _ {ℓ κ} {K : Type ℓ} {R : Type κ} (cmp : K → K → ℤ) where
  forest_imp :
      (S S' : ℕ → List ℕ → List (K × R) → Type (ℓ ⊔ κ)) (P : ℕ → Type 0)
      → ((c : ℕ) (qs : List ℕ) (us : List (K × R)) → S c qs us → All P qs → S' c qs us)
      → (page : ℕ) (ys : List (K × ℕ)) (ps : List ℕ) (xs : List (K × R))
      → IsForest cmp S page ys ps xs
      → All P ps
      → IsForest cmp S' page ys ps xs
  forest_imp S S' P f page [] ps xs w h = f page ps xs w h
  forest_imp S S' P f page (y ∷ ys) ps xs w h =
      let (qs, rs, us, vs, e, g, a, b, nb, s, r) = w in
      let (i, j) = All-parts P qs rs (subst (All P) e h) in
      (qs, rs, us, vs, e, g, a, b, nb, f page qs us s i, forest_imp S S' P f y.1 ys rs vs r j)

  -- A subtree stays when its pages stay.
  pub subtree_stays :
      (nodes nodes' : ℕ → IndexNode K R) (P : ℕ → Type 0)
      → ((p : ℕ) → P p → nodes' p ≡ nodes p)
      → (depth page : ℕ) (ps : List ℕ) (xs : List (K × R)) → IsSubtree cmp nodes depth page ps xs
      → All P ps
      → IsSubtree cmp nodes' depth page ps xs
  subtree_stays nodes nodes' P f zero page ps xs (n, at_page, e, g) h =
      (n, f page ((subst (All P) g h).0) ∙ at_page, e, g)
  subtree_stays nodes nodes' P f (suc depth) page ps xs (n, qs, at_page, pos, asc, e, a, w) h =
      let all = subst (All P) e h in
      (
        n,
        qs,
        f page (all.0) ∙ at_page,
        pos,
        asc,
        e,
        a,
        forest_imp (IsSubtree cmp nodes depth) (IsSubtree cmp nodes' depth) P
            (subtree_stays nodes nodes' P f depth) (n.children.array 0).1
            (slice n.children.array 1 (n.children.size - 1)) qs xs w (all.1),
      )

-- The child of a key among those of a node: its pages and items, and the items of the others on both
-- sides; `put` gives the child other items.
pub record ChildOf {ℓ κ} {K : Type ℓ} {R : Type κ} (cmp : K → K → ℤ) (key : K)
    (S : ℕ → List ℕ → List (K × R) → Type (ℓ ⊔ κ)) (page : ℕ) (ys : List (K × ℕ)) (ps : List ℕ)
    (xs : List (K × R)) : Type ((ℓ ⊔ κ) + 1) where
  pub child_pages : List ℕ
  pub child_items : List (K × R)
  pub before : List (K × R)
  pub behind : List (K × R)
  pub is_child : S (child_for cmp key page ys) child_pages child_items
  pub all_items : xs ≡ before ++ (child_items ++ behind)
  pub before_below : IsBelow cmp key before
  pub behind_above : IsAbove cmp key behind
  pub pages_in : (Q : ℕ → Type 0) → All Q ps → All Q child_pages
  pub put :
      (S' : ℕ → List ℕ → List (K × R) → Type (ℓ ⊔ κ)) (q : ℕ) (us : List (K × R))
      → IsIn q child_pages
      → S' (child_for cmp key page ys) child_pages us
      → ((c : ℕ) (qs : List ℕ) (vs : List (K × R)) → S c qs vs → All (λ p. p ≢ q) qs → S' c qs vs)
      → IsWithin key child_items us
      → IsForest cmp S' page ys ps (before ++ (us ++ behind))

module _ {ℓ κ} {K : Type ℓ} {R : Type κ} (cmp : K → K → ℤ) (order : IsOrder cmp) (key : K) where
  only_child :
      (S : ℕ → List ℕ → List (K × R) → Type (ℓ ⊔ κ)) (page : ℕ) (ps : List ℕ) (xs : List (K × R))
      → S page ps xs
      → ChildOf cmp key S page [] ps xs
  only_child S page ps xs s = record {
    child_pages = ps;
    child_items = xs;
    before = [];
    behind = [];
    is_child = s;
    all_items = sym (append-nil xs);
    before_below = tt;
    behind_above = tt;
    pages_in = λ Q h. h;
    put = λ S' q us i s' f w. subst (S' page ps) (sym (append-nil us)) s';
  }

  -- The key is below the separator `y`.
  child_left :
      (S : ℕ → List ℕ → List (K × R) → Type (ℓ ⊔ κ)) (page : ℕ) (y : K × ℕ) (ys : List (K × ℕ))
      (ps : List ℕ) (xs : List (K × R))
      → IsForest cmp S page (y ∷ ys) ps xs
      → sign (cmp y.0 key) ≡ above
      → ChildOf cmp key S page (y ∷ ys) ps xs
  child_left S page y ys ps xs (qs, rs, us, vs, e, g, a, b, nb, s, r) h =
      let c : child_for cmp key page (y ∷ ys) ≡ page =
        ap (λ s. descend_step s page (child_for cmp key y.1 ys)) h in
      record {
        child_pages = qs;
        child_items = us;
        before = [];
        behind = vs;
        is_child = subst (λ p. S p qs us) (sym c) s;
        all_items = g;
        before_below = tt;
        behind_above =
            All-imp (λ x. sign (cmp x.0 y.0) ≢ below) (λ x. sign (cmp x.0 key) ≡ above) vs
              (λ x n. above-of cmp order x.0 y.0 key n h) nb;
        pages_in = λ Q all. (All-parts Q qs rs (subst (All Q) e all)).0;
        put = λ S' q us' i s' f w. (
          qs,
          rs,
          us',
          vs,
          e,
          refl,
          a,
          w (λ k. sign (cmp k y.0) ≡ below) b (order.below_of_above y.0 key h),
          nb,
          subst (λ p. S' p qs us') c s',
          forest_imp cmp S S' (λ p. p ≢ q) f y.1 ys rs vs r
              (All-imp (λ p. q ≢ p) (λ p. p ≢ q) rs (λ p n e. n (sym e))
                (i (λ p. All (λ r. p ≢ r) rs) a)),
        );
      }

  -- The key is not below the separator `y`.
  child_right :
      (S : ℕ → List ℕ → List (K × R) → Type (ℓ ⊔ κ)) (page : ℕ) (y : K × ℕ) (ys : List (K × ℕ))
      (ps : List ℕ) (xs : List (K × R)) (w : IsForest cmp S page (y ∷ ys) ps xs)
      → sign (cmp y.0 key) ≢ above
      → child_for cmp key page (y ∷ ys) ≡ child_for cmp key y.1 ys
      → ChildOf cmp key S y.1 ys w.1 w.3
      → ChildOf cmp key S page (y ∷ ys) ps xs
  child_right S page y ys ps xs (qs, rs, us, vs, e, g, a, b, nb, s, r) h c o = record {
    child_pages = o.child_pages;
    child_items = o.child_items;
    before = us ++ o.before;
    behind = o.behind;
    is_child = subst (λ p. S p o.child_pages o.child_items) (sym c) o.is_child;
    all_items =
        g ∙ ap (◌++◌ us) o.all_items ∙ sym (append_assoc us o.before (o.child_items ++ o.behind));
    before_below =
        All-append (λ x. sign (cmp x.0 key) ≡ below) us o.before
          (All-imp (λ x. sign (cmp x.0 y.0) ≡ below) (λ x. sign (cmp x.0 key) ≡ below) us
            (λ x n. below-of cmp order x.0 y.0 key n h) b)
          o.before_below;
    behind_above = o.behind_above;
    pages_in = λ Q all. o.pages_in Q ((All-parts Q qs rs (subst (All Q) e all)).1);
    put = λ S' q us' i s' f w.
        let not_below = λ (x : K × R). sign (cmp x.0 y.0) ≢ below in
        let (nb1, nb2) =
          All-parts not_below o.before (o.child_items ++ o.behind)
            (subst (All not_below) o.all_items nb) in
        let (nb3, nb4) = All-parts not_below o.child_items o.behind nb2 in
        (
          qs,
          rs,
          us,
          o.before ++ (us' ++ o.behind),
          e,
          append_assoc us o.before (us' ++ o.behind),
          a,
          b,
          All-append not_below o.before (us' ++ o.behind) nb1 (
              All-append not_below us' o.behind
                (w (λ k. sign (cmp k y.0) ≢ below) nb3 (not_below-of cmp order y.0 key h)) nb4),
          f page qs us s (
              All-imp (λ p. All (λ r. p ≢ r) rs) (λ p. p ≢ q) qs
                (λ p all. i (λ r. p ≢ r) (o.pages_in (λ r. p ≢ r) all)) a),
          o.put S' q us' i (subst (λ p. S' p o.child_pages us') c s') f w,
        );
  }

  pub child_of :
      (S : ℕ → List ℕ → List (K × R) → Type (ℓ ⊔ κ)) (page : ℕ) (ys : List (K × ℕ)) (ps : List ℕ)
      (xs : List (K × R))
      → IsForest cmp S page ys ps xs
      → ChildOf cmp key S page ys ps xs
  child_of S page [] ps xs w = only_child S page ps xs w
  child_of S page (y ∷ ys) ps xs w =
      let right =
        λ (n : sign (cmp y.0 key) ≢ above)
            (c : child_for cmp key page (y ∷ ys) ≡ child_for cmp key y.1 ys).
          child_right S page y ys ps xs w n c (child_of S y.1 ys w.1 w.3 (w.10)) in
      let step = λ (s : Sign). descend_step s page (child_for cmp key y.1 ys) in
      elim (Sign-cases (sign (cmp y.0 key))) [
        | inl e ↦ right (λ h. cc) (ap step e)
        | inr (inl e) ↦ right (λ h. cc) (ap step e)
        | inr (inr e) ↦ child_left S page y ys ps xs w e
      ]
