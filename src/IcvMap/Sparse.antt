-- ===== src/IcvMap/Sparse.antt =====
-- The sparse map is a function from indices, and it keeps exactly the pages that have an entry other
-- than zero: modules/common/ccsimics/icv_map.h.
use c3_simulator.Common.{
  ==_eq, ℕ, ◌+◌, ◌*◌, ◌/◌, ◌%◌, ◌<◌, ◌≡◌, refl, ap, sym, ◌∙◌, subst, inl, inr, arith, ◌==◌,
  if◌then◌else◌, Option, none, some, Bool-cases, ne→==, ℕ_discrete, tests, ◌≢◌, ◌↔◌,
}
use c3_simulator.IcvMap.Counting.{
  update_self, update_ne, nonzero-zero, nonzero-new, nonzero_some, Counts, set_entry-Counts,
  get-set_entry_self, get-set_entry_ne,
}
use c3_simulator.IcvMap.Page.{
  page1_size, get_page1_index, get_page2_index, Page1, new_page, update, recount, set_entry,
  get_entry, IcvMap, map_clear, set_in_page, map_set, get_in_page, map_get,
}

-- A page counts its entries and has some; there is no other page.
pub IsPage : Option Page1 → Type 0
IsPage none = Unit
IsPage (some page) = Counts page × (0 < page.count)

pub IsWf : IcvMap → Type 0
IsWf m = (p : ℕ) → IsPage (m.pages p)

-- A page is kept while its count is not zero.
kept : Page1 → Option Page1
kept page = if page.count == 0 then none else some page

or_new : Option Page1 → Page1
or_new none = new_page
or_new (some page) = page

recount-new : (v : ℕ) → (recount 0 0 v == 0) ≡ (v == 0)
unfolding recount
recount-new v = ground arith

set_in_page_lem :
    (page : Option Page1) (i v : ℕ) → set_in_page page i v ≡ kept (set_entry (or_new page) i v)
unfolding set_in_page kept or_new set_entry
set_in_page_lem none i v =
    ap (λ b. if b then none else some (set_entry new_page i v)) (sym (recount-new v))
set_in_page_lem (some page) i v = refl

or_new-Counts : (page : Option Page1) → IsPage page → Counts (or_new page)
unfolding IsPage or_new Counts
or_new-Counts none h = sym (nonzero-new page1_size)
or_new-Counts (some page) h = h.0

get-or_new : (page : Option Page1) (i : ℕ) → get_in_page page i ≡ get_entry (or_new page) i
unfolding get_in_page or_new get_entry
get-or_new none i = refl
get-or_new (some page) i = refl

kept-IsPage : (page : Page1) → Counts page → IsPage (kept page)
unfolding kept IsPage
kept-IsPage page h = elim (Bool-cases (page.count == 0)) [
  | inl e ↦ rw e _
  | inr ne ↦ rw ne (h, omega tests)
]

get-kept : (page : Page1) (i : ℕ) → Counts page → get_in_page (kept page) i ≡ get_entry page i
unfolding kept get_in_page get_entry get_page1_index Counts
get-kept page i h = elim (Bool-cases (page.count == 0)) [
  | inl e ↦
      rw e (
        sym
          (nonzero-zero page1_size page.entries (i % page1_size) (omega (tests, h)) (omega arith)))
  | inr ne ↦ rw ne refl
]

set_in_page-IsPage : (page : Option Page1) (i v : ℕ) → IsPage page → IsPage (set_in_page page i v)
set_in_page-IsPage page i v h =
    subst IsPage (sym (set_in_page_lem page i v))
      (kept-IsPage _ (set_entry-Counts (or_new page) i v (or_new-Counts page h)))

get-set_in_page :
    (page : Option Page1) (i j v : ℕ)
    → IsPage page
    → get_in_page (set_in_page page i v) j ≡ get_entry (set_entry (or_new page) i v) j
get-set_in_page page i j v h =
    ap (λ q. get_in_page q j) (set_in_page_lem page i v)
    ∙ get-kept _ j (set_entry-Counts (or_new page) i v (or_new-Counts page h))

same_index : (i j : ℕ) → i / page1_size ≡ j / page1_size → i % page1_size ≡ j % page1_size → i ≡ j
same_index i j h h' = omega arith

-- `set` preserves the invariant: every page's counter is the number of its entries other than zero,
-- and no page has the counter 0.
pub map_set-IsWf : (m : IcvMap) (i v : ℕ) → IsWf m → IsWf (map_set m i v)
unfolding map_set IsWf get_page2_index
map_set-IsWf m i v h p = elim (ℕ_discrete p (i / page1_size)) [
  | yes e ↦
      subst IsPage (sym (ap (update m.pages _ _) e ∙ update_self m.pages (i / page1_size) _))
        (set_in_page-IsPage (m.pages (i / page1_size)) i v (h (i / page1_size)))
  | no ne ↦ subst IsPage (sym (update_ne m.pages (i / page1_size) p _ ne)) (h p)
]

get-map_set_page :
    (m : IcvMap) (i j v : ℕ)
    → j / page1_size ≡ i / page1_size
    → IsWf m
    → map_get (map_set m i v) j ≡ get_entry (set_entry (or_new (m.pages (i / page1_size))) i v) j
unfolding map_set map_get IsWf get_page2_index
get-map_set_page m i j v e h =
    ap (λ q. get_in_page q j) (ap (update m.pages _ _) e ∙ update_self m.pages (i / page1_size) _)
    ∙ get-set_in_page (m.pages (i / page1_size)) i j v (h _)

get_same : (m : IcvMap) (i j v : ℕ) → IsWf m → j ≡ i → map_get (map_set m i v) j ≡ v
get_same m i j v h same =
    get-map_set_page m i j v (ap (λ k. k / page1_size) same) h
    ∙ ap (get_entry _) same
    ∙ get-set_entry_self (or_new (m.pages (i / page1_size))) i v

get_other : (m : IcvMap) (i j v : ℕ) → IsWf m → j ≢ i → map_get (map_set m i v) j ≡ map_get m j
unfolding map_set map_get get_page2_index get_page1_index
get_other m i j v h ne = elim (ℕ_discrete (j / page1_size) (i / page1_size)) [
  | no apart ↦
      ap (λ q. get_in_page q j) (update_ne m.pages (i / page1_size) (j / page1_size) _ apart)
  | yes e ↦
      get-map_set_page m i j v e h
      ∙ get-set_entry_ne (or_new (m.pages (i / page1_size))) i j v (λ e'. ne (same_index j i e e'))
      ∙ sym (get-or_new (m.pages (i / page1_size)) j)
      ∙ ap (λ q. get_in_page (m.pages q) j) (sym e)
]

absent_page :
    (page : Option Page1) (p : ℕ)
    → IsPage page
    → ((i : ℕ) → i / page1_size ≡ p → get_in_page page i ≡ 0)
    → page ≡ none
unfolding IsPage get_in_page get_entry get_page1_index Counts
absent_page none p h zeroes = refl
absent_page (some page) p (h, pos) zeroes =
    let at = nonzero_some page1_size page.entries (omega (arith, h)) in
    let inside : at.0 < page1_size = at.1 in
    let index : (p * page1_size + at.0) % page1_size ≡ at.0 = omega arith in
    absurd (at.2 (sym (ap page.entries index) ∙ zeroes (p * page1_size + at.0) (omega arith)))

-- In a well-formed map, the value at `j` after `set` at `i` is the new value where `j` is `i`, and the
-- old value at every other index.
pub map_get-map_set :
    (m : IcvMap) (i j v : ℕ)
    → IsWf m
    → map_get (map_set m i v) j ≡ (if j == i then v else map_get m j)
unfolding map_set map_get IsWf get_page2_index
map_get-map_set m i j v h = elim (ℕ_discrete j i) [
  | yes same ↦
      get_same m i j v h same ∙ sym (ap (λ b. if b then v else map_get m j) (==_eq j i same))
  | no ne ↦ get_other m i j v h ne ∙ sym (ap (λ b. if b then v else map_get m j) (ne→== j i ne))
]

pub map_get-map_set_self : (m : IcvMap) (i v : ℕ) → IsWf m → map_get (map_set m i v) i ≡ v
map_get-map_set_self m i v h = get_same m i i v h refl

-- `clear` gives a well-formed map that has the value 0 everywhere.
pub map_clear_lem : (m : IcvMap) → IsWf (map_clear m) × ((j : ℕ) → map_get (map_clear m) j ≡ 0)
unfolding map_clear map_get get_in_page IsWf IsPage
map_clear_lem m = (λ p. _, λ j. refl)

-- In a well-formed map, there is no page `p` exactly when all indices of the page have the value 0.
absent_lem :
    (m : IcvMap) (p : ℕ)
    → IsWf m
    → (m.pages p ≡ none) ↔ ((i : ℕ) → get_page2_index i ≡ p → map_get m i ≡ 0)
unfolding map_get IsWf get_page2_index get_in_page
absent_lem m p h = (
  λ e i at. ap (λ q. get_in_page q i) (ap m.pages at ∙ e),
  λ zeroes.
      absent_page (m.pages p) p (h p)
        (λ i at. ap (λ q. get_in_page (m.pages q) i) (sym at) ∙ zeroes i at),
)
