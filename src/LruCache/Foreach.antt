-- ===== src/LruCache/Foreach.antt =====
-- `foreach` hands the entries to its function in their order, until that asks to stop.
use miniob_basic.Base.{
  ◌<◌, ℕ, zero, suc, ◌≡◌, refl, sym, ap, subst, ◌∙◌, Bool, Option, none, some, List, [], ◌∷◌,
  if◌then◌else◌, arith, length,
}
use miniob_basic.LruCache.{ListNode, LruCache, foreach_from}
use miniob_basic.LruCache.Seg.{first, Seg}
use miniob_basic.LruCache.Entries.{entries}
use miniob_basic.LruCache.Refine.{Refines}

module _ {ℓ κ} {K V : Type ℓ} {S : Type κ} (func : S → K → V → Bool × S) where
  -- What the function makes of its state over a list of entries.
  abbrev pub walk : List (K × V) → S → S
  walk [] s = s
  walk ((k, v) ∷ es) s =
      let rest = walk es ((func s k v).1) in if (func s k v).0 then rest else (func s k v).1

  foreach_from-entries :
      (nodes : ℕ → ListNode K V) (o : Option ℕ) (xs : List ℕ) (fuel : ℕ) (s : S)
      → Seg nodes o xs none
      → length (entries nodes xs) < fuel
      → foreach_from fuel (λ n. n.next) nodes func (first xs none) s ≡ walk (entries nodes xs) s
  unfolding foreach_from
  foreach_from-entries nodes o [] (suc fuel) s g h = refl
  foreach_from-entries nodes o (x ∷ xs) (suc fuel) s g h =
      let s' = (func s (nodes x).key (nodes x).value).1 in
      ap (λ r. if (func s (nodes x).key (nodes x).value).0 then r else s')
        (ap (λ q. foreach_from fuel (λ n. n.next) nodes func q s') (g.1)
          ∙ foreach_from-entries nodes (some x) xs fuel s' (g.2) (omega arith))
  foreach_from-entries nodes o xs zero s g h = absurd (omega arith)

  -- With fuel for more steps than there are entries, `foreach` ends, and its function has been
  -- called on the entries in their order, up to the first at which it asked to stop.
  pub foreach_from-front :
      (c : LruCache K V) (l : List (K × V)) (fuel : ℕ) (s : S)
      → Refines c l
      → length l < fuel
      → foreach_from fuel (λ n. n.next) c.nodes func c.lru_front s ≡ walk l s
  foreach_from-front c l fuel s r h =
      ap (λ f. foreach_from fuel (λ n. n.next) c.nodes func f s) r.holds.front
      ∙ foreach_from-entries c.nodes none r.list fuel s r.holds.chain
          (subst (λ es. length es < fuel) (sym r.shows) h)
      ∙ ap (λ es. walk es s) r.shows
