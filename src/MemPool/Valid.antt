-- ===== src/MemPool/Valid.antt =====
-- Every item of a pool is used or free, and never both.
use miniob_basic.Base.{
  ℕ, suc, ◌+◌, ◌≡◌, refl, sym, ap, subst, ◌∙◌, true, false, Option, none, some, List, [], ◌∷◌, ◌++◌,
  ==_iff, ==_ne, ℕ_discrete, arith, length, Bool-cases, inl, inr, ◌⊎◌, length-append,
}
use miniob_basic.LruCache.{erase_node}
use miniob_basic.LruCache.Seg.{has, Distinct, has_self}
use miniob_basic.LruCache.Link.{has-append, Distinct-append}
use miniob_basic.LruCache.Holds.{has-erase_node, Distinct-erase_node}
use miniob_basic.MemPool.{MemPoolSimple, alloc, free}

pub record IsValid (m : MemPoolSimple) : Type 0 where
  pub used_once : Distinct m.used
  pub frees_once : Distinct m.frees
  pub apart : (a : ℕ) → has a m.used ≡ true → has a m.frees ≡ false
  pub counted : length m.used + length m.frees ≡ m.size

pub length-erase_node :
    (a : ℕ) (xs : List ℕ) → has a xs ≡ true → length xs ≡ suc (length (erase_node a xs))
length-erase_node a [] h = cc
length-erase_node a (x ∷ xs) h = elim (ℕ_discrete x a) [
  | yes e ↦ rw ((==_iff x a).1 e) refl
  | no e ↦ rw (==_ne x a e) (ap suc (length-erase_node a xs (ground arith)))
]

-- What a pool that is not extended answers: nothing, when every item is used, or an item that was
-- not used and now is.
abbrev pub IsAllocated : MemPoolSimple → Option ℕ × MemPoolSimple → Type 0
IsAllocated m (r, m') =
    ((r ≡ none) × (m' ≡ m) × (length m.used ≡ m.size))
    ⊎ ((b : ℕ) × (r ≡ some b)
        × (has b m.used ≡ false)
        × (m'.used ≡ b ∷ m.used)
        × (m'.dynamic ≡ false)
        × IsValid m')

abbrev static : MemPoolSimple → List ℕ → MemPoolSimple
static m frees = record m { frees = frees; dynamic = false }

alloc-frees :
    (m : MemPoolSimple) (new : Option ℕ) (frees : List ℕ)
    → IsValid (static m frees)
    → IsAllocated (static m frees) (alloc (static m frees) new)
unfolding alloc
alloc-frees m new [] v = inl (refl, refl, omega (arith, v.counted))
alloc-frees m new (b ∷ frees) v = inr (
  b,
  refl,
  not_used,
  refl,
  refl,
  record {
    used_once = (not_used, v.used_once);
    frees_once = v.frees_once.1;
    apart = λ a h. elim (ℕ_discrete a b) [
      | yes e ↦ ap (λ x. has x frees) e ∙ v.frees_once.0
      | no e ↦ let g = v.apart a (ground arith) in ground arith
    ];
    counted = omega (arith, v.counted);
  },
)
  where
    not_used : has b m.used ≡ false
    not_used = elim (Bool-cases (has b m.used)) [
      | inl e ↦ cc (v.apart b e, has_self b frees)
      | inr e ↦ e
    ]

-- A valid pool that is not dynamic answers nothing, and changes nothing, only when as many items as
-- it has are used; otherwise it answers an item that was not used and now is, and stays valid.
pub alloc-IsAllocated :
    (m : MemPoolSimple) (new : Option ℕ)
    → m.dynamic ≡ false
    → IsValid m
    → IsAllocated m (alloc m new)
alloc-IsAllocated m new d v =
    subst (λ x. IsAllocated (record m { dynamic = x }) (alloc (record m { dynamic = x }) new))
      (sym d) (alloc-frees m new m.frees (subst (λ x. IsValid (record m { dynamic = x })) d v))

free-used :
    (m : MemPoolSimple) (a : ℕ)
    → has a m.used ≡ true
    → free m a ≡ record m { used = erase_node a m.used; frees = m.frees ++ (a ∷ []) }
unfolding free
free-used m a h = rw (h, free) refl

-- An item that is given back is free again, and the pool stays valid.
pub free-IsReturned :
    (m : MemPoolSimple) (a : ℕ)
    → has a m.used ≡ true
    → IsValid m
    → IsValid (free m a)
      × ((free m a).used ≡ erase_node a m.used)
      × ((free m a).dynamic ≡ m.dynamic)
free-IsReturned m a h v =
    subst (λ m'. IsValid m' × (m'.used ≡ erase_node a m.used) × (m'.dynamic ≡ m.dynamic))
      (sym (free-used m a h))
      (
        record {
          used_once = Distinct-erase_node a m.used v.used_once;
          frees_once = Distinct-append m.frees (a ∷ []) record {
            left = v.frees_once;
            right = (refl, tt);
            apart = λ b g. elim (ℕ_discrete b a) [
              | yes q ↦ cc (v.apart a h, ap (λ x. has x m.frees) q)
              | no q ↦ ground arith
            ];
          };
          apart = λ b g. elim (ℕ_discrete b a) [
            | yes q ↦
                let k = has-erase_node b a m.used v.used_once in
                absurd (ground (arith, k, g, (==_iff b a).1 q))
            | no q ↦
                let k = has-erase_node b a m.used v.used_once in
                let n = v.apart b (ground (arith, k, g)) in
                has-append b m.frees (a ∷ []) ∙ ground (arith, n, ==_ne b a q)
          ];
          counted =
              omega
                (arith, length-append m.frees (a ∷ []), length-erase_node a m.used h, v.counted);
        },
        refl,
        refl,
      )
