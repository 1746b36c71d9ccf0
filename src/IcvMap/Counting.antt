-- ===== src/IcvMap/Counting.antt =====
-- How the operations of a page of `ICVMap` change its entries and its counter:
-- modules/common/ccsimics/icv_map.h.
use c3_simulator.Common.{
  ℕ, zero, suc, ◌+◌, ◌-◌, ◌%◌, ◌≤◌, ◌<◌, ◌≡◌, refl, ap, sym, ◌∙◌, arith, ◌==◌, if◌then◌else◌,
  ==_refl, ne→==, ℕ_discrete, ◌≢◌,
}
use c3_simulator.IcvMap.Page.{
  page1_size, get_page1_index, Page1, update, recount, set_entry, get_entry,
}

pub weight : ℕ → ℕ
weight x = if x == 0 then 0 else 1

weight-zero : (x : ℕ) → weight x ≡ 0 → x ≡ 0
unfolding weight
weight-zero x h = ground arith

weight-le : (x : ℕ) → weight x ≤ 1
unfolding weight
weight-le x = ground arith

-- How many of the first `n` entries are not zero.
pub nonzero : ℕ → (ℕ → ℕ) → ℕ
nonzero zero f = 0
nonzero (suc n) f = weight (f n) + nonzero n f

pub update_self : {A : Type 0} (f : ℕ → A) (i : ℕ) (v : A) → update f i v i ≡ v
update_self f i v = ap (λ b. if b then v else f i) (==_refl i)

pub update_ne : {A : Type 0} (f : ℕ → A) (i j : ℕ) (v : A) → j ≢ i → update f i v j ≡ f j
update_ne f i j v ne = ap (λ b. if b then v else f j) (ne→== j i ne)

nonzero-le : (n : ℕ) (f : ℕ → ℕ) → nonzero n f ≤ n
unfolding nonzero
nonzero-le zero f = omega arith
nonzero-le (suc n) f = omega (arith, nonzero-le n f, weight-le (f n))

nonzero-update_above :
    (n : ℕ) (f : ℕ → ℕ) (i v : ℕ) → n ≤ i → nonzero n (update f i v) ≡ nonzero n f
unfolding nonzero
nonzero-update_above zero f i v h = refl
nonzero-update_above (suc n) f i v h = omega (
  arith,
  nonzero-update_above n f i v (omega arith),
  ap weight (update_ne f i n v (λ e. absurd (omega arith))),
)

nonzero-update :
    (n : ℕ) (f : ℕ → ℕ) (i v : ℕ)
    → i < n
    → nonzero n (update f i v) + weight (f i) ≡ nonzero n f + weight v
unfolding nonzero
nonzero-update zero f i v h = absurd (omega arith)
nonzero-update (suc n) f i v h = elim (ℕ_discrete n i) [
  | yes e ↦ omega (
    arith,
    nonzero-update_above n f i v (omega arith),
    ap weight (ap (update f i v) e ∙ update_self f i v),
    ap (λ j. weight (f j)) e,
  )
  | no ne ↦ omega (arith, nonzero-update n f i v (omega arith), ap weight (update_ne f i n v ne))
]

pub nonzero-zero : (n : ℕ) (f : ℕ → ℕ) (i : ℕ) → nonzero n f ≡ 0 → i < n → f i ≡ 0
unfolding nonzero
nonzero-zero zero f i none_set h = absurd (omega arith)
nonzero-zero (suc n) f i none_set h = elim (ℕ_discrete n i) [
  | yes e ↦ sym (ap f e) ∙ weight-zero (f n) (omega arith)
  | no ne ↦ nonzero-zero n f i (omega arith) (omega arith)
]

pub nonzero-new : (n : ℕ) → nonzero n (λ i. 0) ≡ 0
unfolding nonzero weight
nonzero-new zero = refl
nonzero-new (suc n) = omega (arith, nonzero-new n)

pub weight_of_zero : weight 0 ≡ 0
unfolding weight
weight_of_zero = refl

pub nonzero_some : (n : ℕ) (f : ℕ → ℕ) → 0 < nonzero n f → (i : ℕ) × (i < n) × (f i ≢ 0)
unfolding nonzero
nonzero_some zero f h = absurd (omega arith)
nonzero_some (suc n) f h = elim (ℕ_discrete (f n) 0) [
  | yes e ↦
      let at = nonzero_some n f (omega (arith, ap weight e, weight_of_zero)) in
      (at.0, omega (arith, at.1), at.2)
  | no ne ↦ (n, omega arith, ne)
]

-- Nothing counted over the length of a page is left out of its counter.
unfoldable pub Counts : Page1 → Type 0
Counts page = page.count ≡ nonzero page1_size page.entries

pub recount-counts :
    (count old val rest : ℕ)
    → count ≤ page1_size
    → count ≡ rest + weight old
    → rest + weight val ≤ page1_size
    → recount count old val ≡ rest + weight val
unfolding recount weight
recount-counts count old val rest h e h' = ground arith

pub set_entry-Counts : (page : Page1) (i v : ℕ) → Counts page → Counts (set_entry page i v)
unfolding Counts set_entry get_page1_index
set_entry-Counts page i v h =
    let f = page.entries in
    let j = i % page1_size in
    let total = nonzero page1_size f - weight (f j) in
    let r : nonzero page1_size (update f j v) ≡ total + weight v = omega (
      arith,
      nonzero-update page1_size f j v (omega arith),
      nonzero-update page1_size f j 0 (omega arith),
      weight_of_zero,
    ) in
    recount-counts page.count (f j) v total (omega (arith, h, nonzero-le page1_size f))
      (omega (arith, h, nonzero-update page1_size f j 0 (omega arith), weight_of_zero))
      (omega (arith, r, nonzero-le page1_size (update f j v)))
    ∙ sym r

pub get-set_entry_self : (page : Page1) (i v : ℕ) → get_entry (set_entry page i v) i ≡ v
unfolding get_entry set_entry get_page1_index
get-set_entry_self page i v = update_self page.entries (i % page1_size) v

pub get-set_entry_ne :
    (page : Page1) (i j v : ℕ)
    → get_page1_index j ≢ get_page1_index i
    → get_entry (set_entry page i v) j ≡ get_entry page j
unfolding get_entry set_entry get_page1_index
get-set_entry_ne page i j v ne = update_ne page.entries (i % page1_size) (j % page1_size) v ne
