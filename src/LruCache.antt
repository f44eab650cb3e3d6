-- ===== src/LruCache.antt =====
-- deps/common/lang/lru_cache.h: entries in the order of their last use, in a doubly linked list of
-- nodes that a hash set finds by their keys. Nodes live at addresses; `none` is the null pointer.
-- The hash set of the C++ library is the list of the nodes in it, of which `find` takes the one
-- with an equal key; `insert` and `erase` are called with a new key and with a node of the set.
pub mod Seg
pub mod Link
pub mod Holds
pub mod Touch
pub mod Entries
pub mod Refine
pub mod Put
pub mod Foreach
mod Tests
use miniob_basic.Base.{
  ℕ, zero, suc, ◌≡◌, length, Bool, true, false, Option, none, some, List, [], ◌∷◌, ◌==◌,
  if◌then◌else◌,
}

pub record ListNode {ℓ} (K V : Type ℓ) : Type ℓ where
  pub key : K
  pub value : V
  pub prev : Option ℕ
  pub next : Option ℕ

pub record LruCache {ℓ} (K V : Type ℓ) : Type ℓ where
  pub nodes : ℕ → ListNode K V
  pub searcher : List ℕ
  pub lru_front : Option ℕ
  pub lru_tail : Option ℕ

-- `searcher_.erase`
abbrev pub erase_node : ℕ → List ℕ → List ℕ
erase_node p [] = []
erase_node p (q ∷ qs) = if q == p then qs else q ∷ erase_node p qs

abbrev pub is_node : Option ℕ → ℕ → Bool
is_node none p = false
is_node (some q) p = q == p

module _ {ℓ} {K V : Type ℓ} where
  abbrev pub write : (ℕ → ListNode K V) → ℕ → ListNode K V → ℕ → ListNode K V
  write nodes p n a = if a == p then n else nodes a

  -- `p->next_ = q` and `p->prev_ = q`, unless `p` is null
  abbrev pub set_next : (ℕ → ListNode K V) → Option ℕ → Option ℕ → ℕ → ListNode K V
  set_next nodes none q = nodes
  set_next nodes (some p) q = write nodes p (record (nodes p) { next = q })

  abbrev pub set_prev : (ℕ → ListNode K V) → Option ℕ → Option ℕ → ℕ → ListNode K V
  set_prev nodes none q = nodes
  set_prev nodes (some p) q = write nodes p (record (nodes p) { prev = q })

  -- The node goes to the front of the list, which it is not in.
  pub push_front : LruCache K V → ℕ → LruCache K V
  push_front c p =
      let nodes1 = set_next (set_prev c.nodes (some p) none) (some p) c.lru_front in
      record c { nodes = set_prev nodes1 c.lru_front (some p); lru_front = some p }

  -- The neighbours of a node are led past it.
  abbrev pub unlink : (ℕ → ListNode K V) → ℕ → ℕ → ListNode K V
  unlink nodes p =
      let nodes1 = set_next nodes (nodes p).prev (nodes p).next in
      set_prev nodes1 (nodes1 p).next (nodes1 p).prev

  -- Behind the test of `lru_touch` that the node is not the first.
  pub move_to_front : LruCache K V → ℕ → LruCache K V
  move_to_front c p =
      let behind = (set_next c.nodes (c.nodes p).prev (c.nodes p).next p).next in
      push_front
        (record c {
          nodes = unlink c.nodes p;
          lru_tail = elim behind [ none ↦ (c.nodes p).prev | some q ↦ c.lru_tail ];
        })
        p

  pub lru_touch : LruCache K V → ℕ → LruCache K V
  lru_touch c p = elim ((c.nodes p).prev) [ none ↦ c | some q ↦ move_to_front c p ]

  pub lru_push : LruCache K V → ℕ → LruCache K V
  lru_push c p =
      let tail : Option ℕ = elim c.lru_tail [ none ↦ some p | some q ↦ c.lru_tail ] in
      let c' = push_front (record c { lru_tail = tail }) p in
      record c' { searcher = p ∷ c'.searcher }

  pub lru_remove : LruCache K V → ℕ → LruCache K V
  lru_remove c p =
      let nodes2 = unlink c.nodes p in
      record {
        nodes = nodes2;
        searcher = erase_node p c.searcher;
        lru_front = if is_node c.lru_front p then (nodes2 p).next else c.lru_front;
        lru_tail = if is_node c.lru_tail p then (nodes2 p).prev else c.lru_tail;
      }

  abbrev pub lru_cache : (ℕ → ListNode K V) → LruCache K V
  lru_cache nodes = record { nodes = nodes; searcher = []; lru_front = none; lru_tail = none }

  pub destroy : LruCache K V → LruCache K V
  destroy c = record c { searcher = []; lru_front = none; lru_tail = none }

  unfoldable pub count : LruCache K V → ℕ
  count c = length c.searcher

  -- `foreach` and `foreach_reverse`, along `next` or `prev`, with fuel: what `func` makes of its
  -- state over the entries until it asks to stop.
  pub foreach_from {κ} :
      {S : Type κ}
      → ℕ
      → (ListNode K V → Option ℕ)
      → (ℕ → ListNode K V)
      → (S → K → V → Bool × S)
      → Option ℕ
      → S
      → S
  foreach_from zero link nodes func p s = s
  foreach_from (suc fuel) link nodes func none s = s
  foreach_from (suc fuel) link nodes func (some p) s =
      let (go_on, s') = func s (nodes p).key (nodes p).value in
      let rest = foreach_from fuel link nodes func (link (nodes p)) s' in if go_on then rest else s'

-- `pred` is the equality of keys, a parameter of the class.
module _ {ℓ} {K V : Type ℓ} (pred : K → K → Bool) where
  -- `searcher_.find`, over the nodes that are left
  abbrev pub find_node : (ℕ → ListNode K V) → K → List ℕ → Option ℕ
  find_node nodes key [] = none
  find_node nodes key (p ∷ ps) = if pred (nodes p).key key then some p else find_node nodes key ps

  abbrev pub find : LruCache K V → K → Option ℕ
  find c key = find_node c.nodes key c.searcher

  pub get : LruCache K V → K → Option V × LruCache K V
  get c key = elim (find c key) [
    | none ↦ (none, c)
    | some p ↦ let c' = lru_touch c p in (some (c'.nodes p).value, c')
  ]

  -- `fresh` is the address of the new node.
  pub put : LruCache K V → K → V → (fresh : ℕ) → LruCache K V
  put c key value fresh = elim (find c key) [
    | none ↦
        lru_push
          (record c {
            nodes =
                write c.nodes fresh record { key = key; value = value; prev = none; next = none };
          })
          fresh
    | some p ↦
        lru_touch (record c { nodes = write c.nodes p (record (c.nodes p) { value = value }) }) p
  ]

  pub remove : LruCache K V → K → LruCache K V
  remove c key = elim (find c key) [ none ↦ c | some p ↦ lru_remove c p ]
