-- ===== src/Record/Page/Iterate.antt =====
-- The loop of a scan over one page: every record is visited once, in the order of the slots.
use mathlib.Core.Bool.{false≢true}
use miniob_basic.Base.{
  ℕ, zero, suc, ◌+◌, ◌-◌, ◌/◌, ◌%◌, ◌<◌, ◌≡◌, ◌≢◌, refl, ap, sym, ◌∙◌, ◌⊎◌, inl, inr, Bool, true,
  Option, none, some, List, [], ◌∷◌, arith, if◌then◌else◌, ℕ_discrete,
}
use miniob_basic.Bitmap.{Bitmap, byte_at, get_bit, next_setted_bit}
use miniob_basic.Bitmap.Get.{get_bit-zero}
use miniob_basic.Bitmap.Search.{IsFirst, next_setted_bit-IsFirst}
use miniob_basic.Record.Page.{Handler, Iterator, iterator_init, iterator_next, bitmap}

-- `while (has_next()) next(record)`, with the slots that it has visited.
unfoldable pub visit : ℕ → Iterator → List ℕ
visit zero it = []
visit (suc fuel) it = elim (iterator_next it).1 [
  | none ↦ []
  | some slot ↦ slot ∷ visit fuel (iterator_next it).2
]

-- The places of `p` among the `n` from `lo` on, in order.
unfoldable pub places : (ℕ → Bool) → ℕ → ℕ → List ℕ
places p zero lo = []
places p (suc n) lo = if p lo then lo ∷ places p n (lo + 1) else places p n (lo + 1)

places-none : (p : ℕ → Bool) (n lo hi : ℕ) → lo + n ≡ hi → IsFirst p lo hi none → places p n lo ≡ []
unfolding places
places-none p zero lo hi e f = refl
places-none p (suc n) lo hi e f =
    rw (f lo (omega arith) (omega arith))
      (places-none p n (lo + 1) hi (omega arith) (λ j a b. f j (omega arith) b))

places-some :
    (p : ℕ → Bool) (n lo hi k : ℕ)
    → lo + n ≡ hi
    → IsFirst p lo hi (some k)
    → places p n lo ≡ k ∷ places p (hi - (k + 1)) (k + 1)
unfolding places
places-some p zero lo hi k e f = absurd (omega arith)
places-some p (suc n) lo hi k e (a, b, t, f) = elim (ℕ_discrete lo k) [
  | yes s ↦ let q : n ≡ hi - (k + 1) = omega arith in rw (s, t, q)
  | no d ↦ rw (f lo (omega arith) (omega arith)) (
      places-some p n (lo + 1) hi k (omega arith) (omega arith, b, t, λ j x y. f j (omega arith) y))
]

-- Behind a bit that is set the search starts at a byte's first bit or in a byte that is not 0.
resumes :
    (b : Bitmap) (k : ℕ) → get_bit b k ≡ true → ((k + 1) % 8 ≡ 0) ⊎ (byte_at b ((k + 1) / 8) ≢ 0)
resumes b k t = elim (ℕ_discrete ((k + 1) % 8) 0) [
  | yes e ↦ inl e
  | no d ↦
      let q : (k + 1) / 8 ≡ k / 8 = omega arith in
      inr (λ z. false≢true (sym (get_bit-zero b k (ap (byte_at b) (sym q) ∙ z)) ∙ t))
]

module _ (h : Handler) where
  abbrev size : ℕ
  size = h.page.record_capacity

  abbrev at : Option ℕ → Iterator
  at r = record { handler = h; next_slot_num = r }

  visit-places :
      (fuel n lo : ℕ) (r : Option ℕ)
      → n < fuel
      → lo + n ≡ size
      → IsFirst (get_bit (bitmap h.page)) lo size r
      → visit fuel (at r) ≡ places (get_bit (bitmap h.page)) n lo
  unfolding visit iterator_next
  visit-places zero n lo r c e f = absurd (omega arith)
  visit-places (suc fuel) n lo none c e f =
      sym (places-none (get_bit (bitmap h.page)) n lo size e f)
  visit-places (suc fuel) n lo (some k) c e f =
      ap (◌∷◌ k) (
        visit-places fuel (size - (k + 1)) (k + 1) (next_setted_bit (bitmap h.page) (k + 1))
          (omega arith) (omega arith)
          (next_setted_bit-IsFirst (bitmap h.page) (k + 1) (resumes (bitmap h.page) k f.2)))
      ∙ sym (places-some (get_bit (bitmap h.page)) n lo size k e f)

  -- A scan of the page from its first slot on ends, and visits exactly the slots that hold a record,
  -- each once and in ascending order.
  pub visit-iterator_init :
      visit (h.page.record_capacity + 1) (iterator_init h 0)
      ≡ places (get_bit (bitmap h.page)) h.page.record_capacity 0
  unfolding iterator_init
  visit-iterator_init =
      visit-places (size + 1) size 0 (next_setted_bit (bitmap h.page) 0) (omega arith) (omega arith)
        (next_setted_bit-IsFirst (bitmap h.page) 0 (inl refl))
