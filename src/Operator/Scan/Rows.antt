-- ===== src/Operator/Scan/Rows.antt =====
-- A table scan hands out the records that pass all its predicates.
use miniob_basic.Base.{
  ℕ, zero, suc, ◌+◌, ◌<◌, ◌≡◌, ◌&&◌, refl, sym, subst, inl, inr, Bool, true, false, some, List, [],
  ◌∷◌, length, Bool-cases, arith, map,
}
use miniob_basic.Rc.{Rc, success, record_eof}
use miniob_basic.Operator.Stream.{
  PhysicalOperator, Closes, closes, Yields, finished, yielded, Produces,
}
use miniob_basic.Operator.Predicate.{filter}
use miniob_basic.Operator.Scan.{
  Scanner, TableScan, filter_tuple, scan_next, scan_open, scan_close, scan_tuple, scan_operator,
}

module _ {R : Type 0} (scanner : Scanner R) (Closed : scanner.State → Type 0) where
  -- The scanner hands out the records of the list, one for each call, and can be closed any time.
  pub data Scans : scanner.State → List R → Type 0 where
    scan_end :
        {s : scanner.State} (c : scanner.State)
        → scanner.has_next s ≡ false
        → scanner.close_scan s ≡ (success, c)
        → Closed c
        → Scans s []
    scan_record :
        {s : scanner.State} {r : R} {rs : List R} (s' c : scanner.State)
        → scanner.has_next s ≡ true
        → scanner.next s ≡ (success, r, s')
        → scanner.close_scan s ≡ (success, c)
        → Closed c
        → Scans s' rs
        → Scans s (r ∷ rs)

-- Each predicate has a value at the tuple, that of its test.
abbrev pub HaveValues : {T : Type 0} → List (T → Rc × Bool) → List (T → Bool) → T → Type 0
HaveValues [] [] t = Unit
HaveValues [] (h ∷ hs) t = ⊥
HaveValues (e ∷ es) [] t = ⊥
HaveValues (e ∷ es) (h ∷ hs) t = (e t ≡ (success, h t)) × HaveValues es hs t

abbrev pub all_hold : {T : Type 0} → List (T → Bool) → T → Bool
all_hold [] t = true
all_hold (h ∷ hs) t = h t && all_hold hs t

filter_tuple_lem :
    {T : Type 0} (es : List (T → Rc × Bool)) (hs : List (T → Bool)) (t : T)
    → HaveValues es hs t
    → filter_tuple es t ≡ (success, all_hold hs t)
unfolding filter_tuple
filter_tuple_lem [] [] t v = refl
filter_tuple_lem [] (h ∷ hs) t v = elim v [ ]
filter_tuple_lem (e ∷ es) [] t v = elim v [ ]
filter_tuple_lem (e ∷ es) (h ∷ hs) t v = elim (Bool-cases (h t)) [
  | inl b ↦ rw (v.0, b) (filter_tuple_lem es hs t (v.1))
  | inr b ↦ rw (v.0, b) refl
]

abbrev pub AllHaveValues : {T : Type 0} → List (T → Rc × Bool) → List (T → Bool) → List T → Type 0
AllHaveValues es hs [] = Unit
AllHaveValues es hs (t ∷ ts) = HaveValues es hs t × AllHaveValues es hs ts

module _ {R T : Type 0} (scanner : Scanner R) (tuple : R → T) (predicates : List (T → Rc × Bool))
    (tests : List (T → Bool)) (Closed : scanner.State → Type 0) where
  abbrev pub ScanClosed : TableScan scanner tuple predicates → Type 0
  ScanClosed s = Closed s.record_scanner

  abbrev op : ℕ → PhysicalOperator T
  op = scan_operator scanner tuple predicates

  Closes-scan :
      (fuel : ℕ) (s : TableScan scanner tuple predicates) (rs : List R)
      → Scans scanner Closed s.record_scanner rs
      → Closes (op fuel) ScanClosed s
  unfolding scan_close
  Closes-scan fuel s [] (scan_end c e f k) = closes record s { record_scanner = c } (rw f refl) k
  Closes-scan fuel s (r ∷ rs) (scan_record s' c e g f k y) =
      closes record s { record_scanner = c } (rw f refl) k

  -- What one call of `next` finds among the records that are left.
  data Found (fuel : ℕ) (s : TableScan scanner tuple predicates) (rs : List R) : Type 0 where
    found_end :
        (s' : TableScan scanner tuple predicates)
        → filter (all_hold tests) (map tuple rs) ≡ []
        → scan_next scanner tuple predicates fuel s ≡ some (record_eof, s')
        → Closes (op fuel) ScanClosed s'
        → Found fuel s rs
    found_record :
        (s' : TableScan scanner tuple predicates) (r : R) (rest : List R)
        → filter (all_hold tests) (map tuple rs)
          ≡ tuple r ∷ filter (all_hold tests) (map tuple rest)
        → scan_next scanner tuple predicates fuel s ≡ some (success, s')
        → s'.current_record ≡ some r
        → Scans scanner Closed s'.record_scanner rest
        → AllHaveValues predicates tests (map tuple rest)
        → length rest < length rs
        → Found fuel s rs

  any_fuel :
      (f g : ℕ) (s : TableScan scanner tuple predicates)
      → Closes (op f) ScanClosed s
      → Closes (op g) ScanClosed s
  any_fuel f g s (closes c e k) = closes c e k

  find :
      (fuel : ℕ) (s : TableScan scanner tuple predicates) (rs : List R)
      → Scans scanner Closed s.record_scanner rs
      → AllHaveValues predicates tests (map tuple rs)
      → length rs < fuel
      → Found fuel s rs
  unfolding scan_next
  find zero s rs y v h = absurd (omega arith)
  find (suc fuel) s [] (scan_end c e f k) v h =
      found_end s refl (rw e refl) (Closes-scan (suc fuel) s [] (scan_end c e f k))
  find (suc fuel) s (r ∷ rs) (scan_record s' c e g f k y) v h =
      let s1 : TableScan scanner tuple predicates = record {
        record_scanner = s';
        current_record = some r;
      } in
      let w = filter_tuple_lem predicates tests (tuple r) (v.0) in
      elim (Bool-cases (all_hold tests (tuple r))) [
        | inl b ↦ found_record s1 r rs (rw b refl) (rw (e, g, w, b) refl) refl y (v.1) (omega arith)
        | inr b ↦ elim (find fuel s1 rs y (v.1) (omega arith)) [
          | found_end s'' q n c' ↦
              found_end s'' (rw b q) (rw (e, g, w, b) n) (any_fuel fuel (suc fuel) s'' c')
          | found_record s'' r' rest q n m y' v' l ↦
              found_record s'' r' rest (rw b q) (rw (e, g, w, b) n) m y' v' (omega arith)
        ]
      ]

  scan_tuple_lem :
      (s : TableScan scanner tuple predicates) (r : R)
      → s.current_record ≡ some r
      → scan_tuple scanner tuple predicates s ≡ some (tuple r)
  unfolding scan_tuple
  scan_tuple_lem s r e = rw e refl

  Yields-scan :
      (n fuel : ℕ) (s : TableScan scanner tuple predicates) (rs : List R)
      → length rs < n
      → Scans scanner Closed s.record_scanner rs
      → AllHaveValues predicates tests (map tuple rs)
      → length rs < fuel
      → Yields (op fuel) ScanClosed s (filter (all_hold tests) (map tuple rs))
  Yields-scan zero fuel s rs b y v h = absurd (omega arith)
  Yields-scan (suc n) fuel s rs b y v h = elim (find fuel s rs y v h) [
    | found_end s' q g c ↦ subst (Yields (op fuel) ScanClosed s) (sym q) (finished s' g c)
    | found_record s' r rest q g f y' v' l ↦ subst (Yields (op fuel) ScanClosed s) (sym q) (
        yielded s' g (scan_tuple_lem s' r f) (Closes-scan fuel s' rest y')
          (Yields-scan n fuel s' rest (omega arith) y' v' (omega arith)))
  ]

  pub Produces-scan :
      (fuel : ℕ) (rs : List R)
      → ((c : scanner.State)
          → Closed c
          → (s : scanner.State) × (scanner.open_scan c ≡ (success, s)) × Scans scanner Closed s rs)
      → AllHaveValues predicates tests (map tuple rs)
      → length rs < fuel
      → Produces
          (scan_operator scanner tuple predicates fuel)
          ScanClosed
          (filter (all_hold tests) (map tuple rs))
  unfolding scan_open
  Produces-scan fuel rs opens v h = record {
    opens = λ c k.
        let (s, e, y) = opens c.record_scanner k in
        let s' : TableScan scanner tuple predicates = record c { record_scanner = s } in
        (
          s',
          rw e refl,
          Closes-scan fuel s' rs y,
          Yields-scan (length rs + 1) fuel s' rs (omega arith) y v h,
        );
  }
