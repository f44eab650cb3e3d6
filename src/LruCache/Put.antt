-- ===== src/LruCache/Put.antt =====
-- `put` keeps the cache a list of entries.
use miniob_basic.Base.{
  Bool, ℕ, ◌≡◌, ◌≢◌, refl, sym, ap, ap₂, subst, ◌∙◌, true, false, ==_iff, ℕ_discrete, Option, none,
  some, List, [], ◌∷◌, arith, inl, inr, Option-cases,
}
use miniob_basic.LruCache.{ListNode, LruCache, write, erase_node, find, lru_touch, lru_push, put}
use miniob_basic.LruCache.Seg.{has, Seg, Seg-write, write_self, write-other}
use miniob_basic.LruCache.Holds.{Holds, has-erase_node}
use miniob_basic.LruCache.Touch.{Holds-lru_push}
use miniob_basic.LruCache.Entries.{
  erase_key, IsEquality, entries, KeysDistinct, entries-same, entries-write, lookup-entries,
}
use miniob_basic.LruCache.Refine.{
  Refines, Refines-lru_touch, KeysDistinct-same, IsFound, find-IsFound, find-none, find-absent,
}

module _ {ℓ} {K V : Type ℓ} where
  -- The node holds a new value.
  abbrev written : LruCache K V → ℕ → V → LruCache K V
  written c p v = record c { nodes = write c.nodes p (record (c.nodes p) { value = v }) }

  -- A new node, which is in no list yet.
  abbrev new_node : K → V → ListNode K V
  new_node key v = record { key = key; value = v; prev = none; next = none }

  abbrev created : LruCache K V → K → V → ℕ → LruCache K V
  created c key v fresh = record c { nodes = write c.nodes fresh (new_node key v) }

  -- A field that the write keeps is what it was.
  write-kept {κ} :
      {F : Type κ} (f : ListNode K V → F) (nodes : ℕ → ListNode K V) (p : ℕ) (m : ListNode K V)
      (a : ℕ)
      → f m ≡ f (nodes p)
      → f (write nodes p m a) ≡ f (nodes a)
  write-kept f nodes p m a e = elim (ℕ_discrete a p) [
    | yes q ↦ rw ((==_iff a p).1 q, write) (e ∙ ap (λ x. f (nodes x)) (sym q))
    | no q ↦ ap f (write-other nodes p a m q)
  ]

  Seg-written :
      (c : LruCache K V) (p : ℕ) (v : V) (o : Option ℕ) (xs : List ℕ) (n : Option ℕ)
      → Seg c.nodes o xs n
      → Seg (written c p v).nodes o xs n
  Seg-written c p v o [] n s = tt
  Seg-written c p v o (x ∷ xs) n s =
      let m = record (c.nodes p) { value = v } in
      (
        write-kept (λ m. m.prev) c.nodes p m x refl ∙ s.0,
        write-kept (λ m. m.next) c.nodes p m x refl ∙ s.1,
        Seg-written c p v (some x) xs n (s.2),
      )

  key-written :
      (c : LruCache K V) (p : ℕ) (v : V) (a : ℕ) → ((written c p v).nodes a).key ≡ (c.nodes a).key
  key-written c p v a = write-kept (λ m. m.key) c.nodes p (record (c.nodes p) { value = v }) a refl

  Refines-written :
      (c : LruCache K V) (l : List (K × V)) (r : Refines c l) (p : ℕ) (v : V)
      → Refines (written c p v) (entries (written c p v).nodes r.list)
  Refines-written c l r p v = record {
    list = r.list;
    holds = record {
      chain = Seg-written c p v none r.list none r.holds.chain;
      front = r.holds.front;
      tail = r.holds.tail;
      distinct = r.holds.distinct;
      same = r.holds.same;
      once = r.holds.once;
    };
    keys = λ a b h g e. r.keys a b h g (sym (key-written c p v a) ∙ e ∙ key-written c p v b);
    shows = refl;
  }

  Holds-created :
      (c : LruCache K V) (key : K) (v : V) (fresh : ℕ) (xs : List ℕ)
      → Holds c xs
      → has fresh xs ≡ false
      → Holds (created c key v fresh) xs
  Holds-created c key v fresh xs h n = record {
    chain = Seg-write c.nodes none xs none fresh (new_node key v) n h.chain;
    front = h.front;
    tail = h.tail;
    distinct = h.distinct;
    same = h.same;
    once = h.once;
  }

  KeysDistinct-created :
      (nodes : ℕ → ListNode K V) (key : K) (v : V) (fresh : ℕ) (xs : List ℕ)
      → KeysDistinct nodes xs
      → ((a : ℕ) → has a xs ≡ true → (nodes a).key ≢ key)
      → has fresh xs ≡ false
      → KeysDistinct (write nodes fresh (new_node key v)) (fresh ∷ xs)
  KeysDistinct-created nodes key v fresh xs k ab n a b h g e =
      let w = write nodes fresh (new_node key v) in
      let self : (w fresh).key ≡ key = ap (λ m. m.key) (write_self nodes fresh (new_node key v)) in
      let other = λ (x : ℕ) (ne : x ≢ fresh).
        ap (λ m. m.key) (write-other nodes fresh x (new_node key v) ne) in
      elim (ℕ_discrete a fresh) [
        | yes p ↦ elim (ℕ_discrete b fresh) [
          | yes q ↦ p ∙ sym q
          | no q ↦
              absurd (ab b (ground arith) (sym (other b q) ∙ sym e ∙ ap (λ x. (w x).key) p ∙ self))
        ]
        | no p ↦ elim (ℕ_discrete b fresh) [
          | yes q ↦
              absurd (ab a (ground arith) (sym (other a p) ∙ e ∙ ap (λ x. (w x).key) q ∙ self))
          | no q ↦ k a b (ground arith) (ground arith) (sym (other a p) ∙ e ∙ other b q)
        ]
      ]

module _ {ℓ} {K V : Type ℓ} (pred : K → K → Bool) (eq : IsEquality pred) where
  erase_key-written :
      (c : LruCache K V) (l : List (K × V)) (key : K) (r : Refines c l) (p : ℕ) (v : V)
      → IsFound pred eq c l key r.list p
      → erase_key pred key (entries (written c p v).nodes r.list) ≡ erase_key pred key l
  unfolding Refines-written
  erase_key-written c l key r p v f =
      let m = record (c.nodes p) { value = v } in
      let r1 = Refines-written c l r p v in
      ap (λ k. erase_key pred k (entries (written c p v).nodes r.list))
        (sym (key-written c p v p ∙ f.its_key))
      ∙ (lookup-entries pred eq (written c p v).nodes r.list p r1.keys f.in_list).1
      ∙ entries-write c.nodes p m (erase_node p r.list) (
          has-erase_node p p r.list r.holds.distinct
          ∙ ground (arith, f.in_list, (==_iff p p).1 refl))
      ∙ sym f.erased

  put-some :
      (c : LruCache K V) (key : K) (v : V) (fresh p : ℕ)
      → find pred c key ≡ some p
      → put pred c key v fresh ≡ lru_touch (written c p v) p
  unfolding put
  put-some c key v fresh p e = rw (e, put) refl

  put-none :
      (c : LruCache K V) (key : K) (v : V) (fresh : ℕ)
      → find pred c key ≡ none
      → put pred c key v fresh ≡ lru_push (created c key v fresh) fresh
  unfolding put
  put-none c key v fresh e = rw (e, put) refl

  Refines-put_old :
      (c : LruCache K V) (l : List (K × V)) (key : K) (v : V) (r : Refines c l) (p : ℕ)
      → IsFound pred eq c l key r.list p
      → Refines (lru_touch (written c p v) p) ((key, v) ∷ erase_key pred key l)
  unfolding Refines-written
  Refines-put_old c l key v r p f =
      let c1 = written c p v in
      let m = record (c.nodes p) { value = v } in
      subst (Refines (lru_touch c1 p))
        (ap₂ (λ k w. (k, w) ∷ erase_key pred k (entries c1.nodes r.list))
            (key-written c p v p ∙ f.its_key) (ap (λ n. n.value) (write_self c.nodes p m))
          ∙ ap (◌∷◌ (key, v)) (erase_key-written c l key r p v f))
        (Refines-lru_touch pred eq c1 (entries c1.nodes r.list) (Refines-written c l r p v) p
          f.in_list)

  Refines-put_new :
      (c : LruCache K V) (l : List (K × V)) (key : K) (v : V) (fresh : ℕ) (r : Refines c l)
      → find pred c key ≡ none
      → has fresh c.searcher ≡ false
      → Refines (lru_push (created c key v fresh) fresh) ((key, v) ∷ erase_key pred key l)
  Refines-put_new c l key v fresh r e n =
      let g : has fresh r.list ≡ false = sym (r.holds.same fresh) ∙ n in
      let c1 = created c key v fresh in
      let (k, s) =
        Holds-lru_push c1 fresh r.list (Holds-created c key v fresh r.list r.holds g) g in
      let d =
        KeysDistinct-created c.nodes key v fresh r.list r.keys (find-absent pred eq c l key r e)
          g in
      record {
        list = fresh ∷ r.list;
        holds = k;
        keys =
            KeysDistinct-same c1.nodes (lru_push c1 fresh).nodes (fresh ∷ r.list) (fresh ∷ r.list) s
              (λ a h. h) d;
        shows =
            entries-same c1.nodes (lru_push c1 fresh).nodes (fresh ∷ r.list) s
            ∙ ap₂ ◌∷◌ (ap (λ m. (m.key, m.value)) (write_self c.nodes fresh (new_node key v))) (
                entries-write c.nodes fresh (new_node key v) r.list g
                ∙ r.shows
                ∙ sym ((find-none pred eq c l key r e).1));
      }

  -- When `pred` is the equality of keys and `fresh` the address of no node of the cache, `put`
  -- replaces the entry of the key, or adds one, and has it in front.
  pub Refines-put :
      (c : LruCache K V) (l : List (K × V)) (key : K) (v : V) (fresh : ℕ)
      → has fresh c.searcher ≡ false
      → Refines c l
      → Refines (put pred c key v fresh) ((key, v) ∷ erase_key pred key l)
  Refines-put c l key v fresh n r = elim (Option-cases (find pred c key)) [
    | inl e ↦ rw (put-none c key v fresh e) (Refines-put_new c l key v fresh r e n)
    | inr (p, e) ↦
        rw (put-some c key v fresh p e)
          (Refines-put_old c l key v r p (find-IsFound pred eq c l key r p e))
  ]
