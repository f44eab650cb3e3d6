-- ===== src/LruCache/Tests.antt =====
-- A cache of two entries, the one of key 5 used last.
use miniob_basic.Base.{ℕ, ◌≡◌, refl, Bool, none, some, List, [], ◌∷◌, arith, ==_iff, ◌==◌, not}
use miniob_basic.LruCache.{
  ListNode, LruCache, lru_cache, get, put, remove, count, destroy, foreach_from, lru_push,
  push_front, lru_touch, move_to_front, lru_remove,
}
use miniob_basic.LruCache.Entries.{IsEquality, erase_key, lookup}
use miniob_basic.LruCache.Refine.{Refines, to_front, Refines-get, Refines-remove}
use miniob_basic.LruCache.Put.{Refines-put}
use miniob_basic.LruCache.Foreach.{walk, foreach_from-front}

ℕ-IsEquality : IsEquality ◌==◌
ℕ-IsEquality = record { equal = λ a b h. ground arith; same = λ a. (==_iff a a).1 refl }

abbrev no_nodes : ℕ → ListNode ℕ ℕ
no_nodes a = record { key = 0; value = 0; prev = none; next = none }

abbrev two : LruCache ℕ ℕ
two = put ◌==◌ (put ◌==◌ (lru_cache no_nodes) 7 70 100) 5 50 200

abbrev two_entries : List (ℕ × ℕ)
two_entries = (5, 50) ∷ (7, 70) ∷ []

empty-Refines : Refines (lru_cache no_nodes) []
empty-Refines = record {
  list = [];
  holds = record {
    chain = tt;
    front = refl;
    tail = refl;
    distinct = tt;
    same = λ a. refl;
    once = tt;
  };
  keys = λ a b h g e. cc;
  shows = refl;
}

Refines-put_example :
    Refines
      (put ◌==◌ (put ◌==◌ (lru_cache no_nodes) 7 70 100) 5 50 200)
      ((5, 50) ∷ erase_key ◌==◌ 5 ((7, 70) ∷ []))
unfolding put lru_push push_front
Refines-put_example =
    Refines-put ◌==◌ ℕ-IsEquality (put ◌==◌ (lru_cache no_nodes) 7 70 100) ((7, 70) ∷ []) 5 50 200
      refl (Refines-put ◌==◌ ℕ-IsEquality (lru_cache no_nodes) [] 7 70 100 refl empty-Refines)

two-Refines : Refines two two_entries
unfolding put lru_push push_front
two-Refines =
    Refines-put ◌==◌ ℕ-IsEquality (put ◌==◌ (lru_cache no_nodes) 7 70 100) ((7, 70) ∷ []) 5 50 200
      refl (Refines-put ◌==◌ ℕ-IsEquality (lru_cache no_nodes) [] 7 70 100 refl empty-Refines)

Refines-get_example :
    ((get ◌==◌ two 7).0 ≡ lookup ◌==◌ 7 two_entries)
    × Refines (get ◌==◌ two 7).1 (to_front ◌==◌ 7 two_entries)
Refines-get_example = Refines-get ◌==◌ ℕ-IsEquality two two_entries 7 two-Refines

Refines-remove_example : Refines (remove ◌==◌ two 7) (erase_key ◌==◌ 7 two_entries)
Refines-remove_example = Refines-remove ◌==◌ ℕ-IsEquality two two_entries 7 two-Refines

-- Keys in their order, up to a key of 7.
abbrev keys_to_7 : List ℕ → ℕ → ℕ → Bool × List ℕ
keys_to_7 s k v = (not (k == 7), k ∷ s)

foreach_from-front_example :
    foreach_from 3 (λ n. n.next) two.nodes keys_to_7 two.lru_front []
    ≡ walk keys_to_7 two_entries []
foreach_from-front_example =
    foreach_from-front keys_to_7 two two_entries 3 [] two-Refines (omega arith)

get-two : (get ◌==◌ two 7).0 ≡ some 70
unfolding get put lru_push push_front lru_touch move_to_front
get-two = refl

front-get : (get ◌==◌ two 7).1.lru_front ≡ some 100
unfolding get put lru_push push_front lru_touch move_to_front
front-get = refl

count-remove : count (remove ◌==◌ two 5) ≡ 1
unfolding count remove put lru_push push_front lru_remove
count-remove = refl

count-destroy : count (destroy two) ≡ 0
unfolding count destroy put lru_push push_front
count-destroy = refl

walk-two : walk keys_to_7 two_entries [] ≡ 7 ∷ 5 ∷ []
walk-two = refl
