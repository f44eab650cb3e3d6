-- ===== src/BplusTree/Scanner/Next.antt =====
-- What one call of `next_entry` gives.
use miniob_basic.Base.{
  ℕ, suc, ◌+◌, ◌-◌, ◌≤◌, ◌<◌, ◌≡◌, refl, sym, ap, ap₂, subst, ◌∙◌, Bool, true, false, Option, some,
  none, List, [], ◌∷◌, ◌++◌, arith, inl, inr, ◌⊎◌, Bool-cases, le→not_ltb, dec_lt,
}
use miniob_basic.Rc.{Rc, Run, success, record_eof}
use miniob_basic.BplusTree.Array.{slice}
use miniob_basic.BplusTree.Block.Laws.{items}
use miniob_basic.BplusTree.Node.{leaf, LeafIndexNode, IndexNode}
use miniob_basic.BplusTree.Tree.{Handler, BplusTree, Result, ok}
use miniob_basic.BplusTree.Subtree.Find.{IsAnswering}
use miniob_basic.BplusTree.Scanner.{BplusTreeScanner, next_leaf, entry_from, next_from, next_entry}
use miniob_basic.BplusTree.Scanner.Step.{
  until_step, until_right, is_behind, next_from-leaf, emitted_at, next_from-within, next_from-last,
}

-- Leaves that are linked by their next pages, up to the last.
abbrev pub IsChain {ℓ κ} :
    {K : Type ℓ} {R : Type κ}
    → (ℕ → IndexNode K R)
    → Option ℕ
    → List (LeafIndexNode K R)
    → Type (ℓ ⊔ κ)
IsChain nodes next [] = (next ≡ none) × Unit {ℓ ⊔ κ}
IsChain nodes next (n ∷ ns) =
    (q : ℕ) × (next ≡ some q)
    × (nodes q ≡ leaf n)
    × (0 < n.block.size)
    × IsChain nodes n.next_brother ns

abbrev pub chain_items {ℓ κ} : {K : Type ℓ} {R : Type κ} → List (LeafIndexNode K R) → List (K × R)
chain_items [] = []
chain_items (n ∷ ns) = items n.block ++ chain_items ns

-- Where a scanner stands behind an entry that it gave, and what is left of the leaves.
pub record IsAt {ℓ κ} {K : Type ℓ} {R : Type κ} (nodes : ℕ → IndexNode K R) (right : Option K)
    (s : BplusTreeScanner K) (xs : List (K × R)) : Type (ℓ ⊔ κ) where
  pub page : ℕ
  pub node : LeafIndexNode K R
  pub behind : List (LeafIndexNode K R)
  pub is_page : s.current ≡ some page
  pub at_page : nodes page ≡ leaf node
  pub in_range : s.iter_index < node.block.size
  pub is_chain : IsChain nodes node.next_brother behind
  pub is_right : s.right_key ≡ right
  pub emitted : s.first_emitted ≡ true
  pub is_rest :
      xs
      ≡ slice node.block.array (suc s.iter_index) (node.block.size - suc s.iter_index)
        ++ chain_items behind

module _ {ℓ κ μ} {K : Type ℓ} {R : Type κ} {P : Type μ} (h : Handler K R P)
    (answering : IsAnswering h.disk_buffer_pool) (try_slatch : ℕ → Bool)
    (latched : (p : ℕ) → try_slatch p ≡ true) where
  -- What one call gives: the next entry, or the end of the range.
  abbrev pub Outcome :
      (ℕ → IndexNode K R)
      → Option K
      → List (K × R)
      → BplusTree K R P
      → Run (Result (Rc × Option R × BplusTreeScanner K) × BplusTree K R P)
      → Type (ℓ ⊔ κ ⊔ μ)
  Outcome nodes right xs t r =
      (s' : BplusTreeScanner K) × (p : P) × (((r
            ≡ some (ok (record_eof, none, s'), record t { pages = p }))
          × (until_right h.key_comparator right xs ≡ []))
        ⊎ ((y : K × R) × (ys : List (K × R)) × (xs ≡ y ∷ ys)
            × (is_behind h.key_comparator right y.0 ≡ false)
            × (r ≡ some (ok (success, some y.1, s'), record t { pages = p }))
            × IsAt nodes right s' ys))

  -- Behind the last item of another leaf.
  next_from-on :
      (fuel : ℕ) (s : BplusTreeScanner K) (page index : ℕ) (t : BplusTree K R P)
      (n : LeafIndexNode K R) (q : ℕ)
      → t.nodes page ≡ leaf n
      → n.block.size ≤ index
      → n.next_brother ≡ some q
      → next_from h (suc fuel) try_slatch s page index t
        ≡ next_from h fuel try_slatch s q 0
            (record t { pages = (h.disk_buffer_pool.get_page t.pages q).1 })
  next_from-on fuel s page index t n q at l e =
      let here = record s { current = some page; iter_index = index } in
      let next = λ (p : ℕ). next_from h fuel try_slatch s p 0 in
      next_from-leaf h try_slatch fuel s page index t n false at (le→not_ltb n.block.size index l)
      ∙ ap (λ b. next_leaf h try_slatch next here b t) e
      ∙ rw (answering t.pages q, latched q) refl

  -- At an item of a leaf, the call gives it or ends there.
  within-Outcome :
      (fuel : ℕ) (s : BplusTreeScanner K) (page index : ℕ) (t u : BplusTree K R P)
      (n : LeafIndexNode K R) (ns : List (LeafIndexNode K R)) (right : Option K) (p : P)
      → u ≡ record t { pages = p }
      → t.nodes page ≡ leaf n
      → index < n.block.size
      → IsChain t.nodes n.next_brother ns
      → s.right_key ≡ right
      → s.first_emitted ≡ true
      → Outcome t.nodes right
          (slice n.block.array index (n.block.size - index) ++ chain_items ns)
          t
          (next_from h (suc fuel) try_slatch s page index u)
  within-Outcome fuel s page index t u n ns right p same at l c r f =
      let cmp = h.key_comparator in
      let x = n.block.array index in
      let rest = slice n.block.array (suc index) (n.block.size - suc index) ++ chain_items ns in
      let here = record s { current = some page; iter_index = index } in
      let size : n.block.size - index ≡ suc (n.block.size - suc index) = omega arith in
      let e : slice n.block.array index (n.block.size - index) ++ chain_items ns ≡ x ∷ rest =
        ap (λ m. slice n.block.array index m ++ chain_items ns) size in
      let at_u = ap (λ (v : BplusTree K R P). v.nodes page) same ∙ at in
      let go = λ (flag : Bool) (b : is_behind cmp s.right_key x.0 ≡ flag).
        next_from-within h try_slatch fuel s page index u n flag at_u l b
        ∙ ap (λ v. some (ok (emitted_at h try_slatch s page index n flag), v)) same in
      elim (Bool-cases (is_behind cmp right x.0)) [
        | inl b ↦ (
          here,
          p,
          inl (
            go true (ap (λ k. is_behind cmp k x.0) r ∙ b),
            ap (until_right cmp right) e
                ∙ ap (λ g. until_step g x.1 (until_right cmp right rest)) b,
          ),
        )
        | inr b ↦ (
          here,
          p,
          inr (
            x,
            rest,
            e,
            b,
            go false (ap (λ k. is_behind cmp k x.0) r ∙ b),
            record {
              page = page;
              node = n;
              behind = ns;
              is_page = refl;
              at_page = at;
              in_range = l;
              is_chain = c;
              is_right = r;
              emitted = f;
              is_rest = refl;
            },
          ),
        )
      ]

  recast :
      (right : Option K) (t : BplusTree K R P) (xs ys : List (K × R))
      (r r' : Run (Result (Rc × Option R × BplusTreeScanner K) × BplusTree K R P))
      → Outcome t.nodes right xs t r
      → ys ≡ xs
      → r' ≡ r
      → Outcome t.nodes right ys t r'
  recast right t xs ys r r' o e f =
      subst (λ zs. Outcome t.nodes right zs t r') (sym e)
        (subst (λ u. Outcome t.nodes right xs t u) (sym f) o)

  next_entry-emitted :
      (fuel : ℕ) (s : BplusTreeScanner K) (page : ℕ) (t : BplusTree K R P)
      → s.current ≡ some page
      → s.first_emitted ≡ true
      → next_entry h fuel try_slatch s t ≡ next_from h fuel try_slatch s page (s.iter_index + 1) t
  unfolding next_entry
  next_entry-emitted fuel s page t e f = ap₂ (λ c b. entry_from h fuel try_slatch s c b t) e f

  past-Outcome :
      (fuel : ℕ) (s : BplusTreeScanner K) (page : ℕ) (t : BplusTree K R P) (n : LeafIndexNode K R)
      (ns : List (LeafIndexNode K R)) (right : Option K)
      → t.nodes page ≡ leaf n
      → n.block.size ≤ s.iter_index + 1
      → IsChain t.nodes n.next_brother ns
      → s.right_key ≡ right
      → s.first_emitted ≡ true
      → Outcome t.nodes right
          (chain_items ns)
          t
          (next_from h (suc (suc fuel)) try_slatch s page (s.iter_index + 1) t)
  past-Outcome fuel s page t n [] right at l c r f = (
    record s { current = some page; iter_index = s.iter_index + 1 },
    t.pages,
    inl (next_from-last h try_slatch (suc fuel) s page (s.iter_index + 1) t n at l (c.0), refl),
  )
  past-Outcome fuel s page t n (m ∷ ms) right at l (q, e, at_q, pos, c) r f =
      let got = (h.disk_buffer_pool.get_page t.pages q).1 in
      recast right t (slice m.block.array 0 (m.block.size - 0) ++ chain_items ms)
        (chain_items (m ∷ ms)) (next_from h (suc fuel) try_slatch s q 0 (record t { pages = got }))
        (next_from h (suc (suc fuel)) try_slatch s page (s.iter_index + 1) t)
        (within-Outcome fuel s q 0 t (record t { pages = got }) m ms right got refl at_q pos c r f)
        (ap (λ k. slice m.block.array 0 k ++ chain_items ms) (omega arith))
        (next_from-on (suc fuel) s page (s.iter_index + 1) t n q at l e)

  pub next_entry-Outcome :
      (fuel : ℕ) (s : BplusTreeScanner K) (t : BplusTree K R P) (right : Option K)
      (xs : List (K × R))
      → IsAt t.nodes right s xs
      → Outcome t.nodes right xs t (next_entry h (suc (suc fuel)) try_slatch s t)
  next_entry-Outcome fuel s t right xs w =
      let n = w.node in
      let ns = w.behind in
      let i = s.iter_index in
      let start = next_entry-emitted (suc (suc fuel)) s w.page t w.is_page w.emitted in
      elim (dec_lt (i + 1) n.block.size) [
        | yes l ↦
            recast right t (slice n.block.array (i + 1) (n.block.size - (i + 1)) ++ chain_items ns)
              xs (next_from h (suc (suc fuel)) try_slatch s w.page (i + 1) t)
              (next_entry h (suc (suc fuel)) try_slatch s t)
              (within-Outcome (suc fuel) s w.page (i + 1) t t n ns right t.pages refl w.at_page l
                w.is_chain w.is_right w.emitted)
              (w.is_rest
                ∙ ap (λ k. slice n.block.array k (n.block.size - k) ++ chain_items ns)
                    (omega arith))
              start
        | no l ↦
            let empty_end : n.block.size - suc i ≡ 0 = omega arith in
            recast right t (chain_items ns) xs
              (next_from h (suc (suc fuel)) try_slatch s w.page (i + 1) t)
              (next_entry h (suc (suc fuel)) try_slatch s t)
              (past-Outcome fuel s w.page t n ns right w.at_page (omega arith) w.is_chain w.is_right
                w.emitted)
              (w.is_rest ∙ ap (λ k. slice n.block.array (suc i) k ++ chain_items ns) empty_end)
              start
      ]
