-- ===== src/MemPool.antt =====
-- deps/common/mm/mem_pool.h, the part MemPoolSimple: items of one size, made in pools of several.
-- An item takes one address. `new` is asked for the next pool: `none` when it has no memory.
pub mod Valid
mod Tests
use miniob_basic.Base.{
  ℕ, zero, suc, ◌+◌, Bool, true, false, not, ◌||◌, Option, none, some, List, [], ◌∷◌, ◌++◌, ◌==◌,
  if◌then◌else◌,
}
use miniob_basic.LruCache.{erase_node}
use miniob_basic.LruCache.Seg.{has}

pub record MemPoolSimple : Type 0 where
  pub pools : List ℕ
  pub used : List ℕ
  pub frees : List ℕ
  pub size : ℕ
  pub dynamic : Bool
  pub item_num_per_pool : ℕ

-- The addresses `pool + i` of the items of a pool.
abbrev pub items_from : ℕ → ℕ → List ℕ
items_from pool zero = []
items_from pool (suc n) = pool ∷ items_from (pool + 1) n

-- Without pools there is nothing to clean up.
abbrev pub cleanup : MemPoolSimple → MemPoolSimple
cleanup m = elim m.pools [
  | [] ↦ m
  | p ∷ ps ↦ record m { used = []; frees = []; size = 0; pools = [] }
]

-- `true` where the code returns 0, `false` where it returns -1.
abbrev pub extend : MemPoolSimple → Option ℕ → Bool × MemPoolSimple
extend m new = if not m.dynamic then (false, m) else elim new [
  | none ↦ (false, m)
  | some pool ↦ (
    true,
    record m {
      pools = m.pools ++ (pool ∷ []);
      size = m.size + m.item_num_per_pool;
      frees = m.frees ++ items_from pool m.item_num_per_pool;
    },
  )
]

-- The loop of `init`, over what `new` answers in turn.
abbrev pub extend_times : ℕ → (ℕ → Option ℕ) → MemPoolSimple → Bool × MemPoolSimple
extend_times zero new m = (true, m)
extend_times (suc n) new m =
    let (ok, m') = extend m (new n) in
    let rest = extend_times n new m' in if ok then rest else (false, cleanup m')

pub init : MemPoolSimple → Bool → ℕ → ℕ → (ℕ → Option ℕ) → Bool × MemPoolSimple
init m dynamic pool_num item_num_per_pool new = elim m.pools [
  | p ∷ ps ↦ (true, m)
  | [] ↦
      if (pool_num == 0) || (item_num_per_pool == 0)
      then (false, m)
      else let (ok, m') =
          extend_times pool_num new
            (record m { item_num_per_pool = item_num_per_pool; dynamic = true }) in
        if ok then (true, record m' { dynamic = dynamic }) else (false, m')
]

-- The first free item; an extension that succeeds has made one.
abbrev pub take_free : MemPoolSimple → Option ℕ × MemPoolSimple
take_free m = elim m.frees [
  | [] ↦ (none, m)
  | buffer ∷ frees ↦ (some buffer, record m { frees = frees; used = buffer ∷ m.used })
]

pub alloc : MemPoolSimple → Option ℕ → Option ℕ × MemPoolSimple
alloc m new = elim m.frees [
  | [] ↦
      if not m.dynamic
      then (none, m)
      else (let (ok, m') = extend m new in if ok then take_free m' else (none, m'))
  | buffer ∷ frees ↦ take_free m
]

-- `used` is a set: `erase_node` takes the item out of it.
pub free : MemPoolSimple → ℕ → MemPoolSimple
free m buf =
    if not (has buf m.used)
    then m
    else record m { used = erase_node buf m.used; frees = m.frees ++ (buf ∷ []) }
