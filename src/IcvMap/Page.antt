-- ===== src/IcvMap/Page.antt =====
-- `ICVMap`, its operations and its pages: modules/common/ccsimics/icv_map.h.
use c3_simulator.Common.{
  ℕ, ◌+◌, ◌-◌, ◌/◌, ◌%◌, ◌^◌, ◌&&◌, ◌==◌, not, if◌then◌else◌, Option, none, some,
}

abbrev pub page1_size : ℕ
page1_size = 2 ^ 21

unfoldable pub get_page1_index : ℕ → ℕ
get_page1_index i = i % page1_size

unfoldable pub get_page2_index : ℕ → ℕ
get_page2_index i = i / page1_size

pub record Page1 : Type 0 where
  pub count : ℕ
  pub entries : ℕ → ℕ

-- A new page has its members at zero.
abbrev pub new_page : Page1
new_page = record { count = 0; entries = λ i. 0 }

abbrev pub update : {A : Type 0} → (ℕ → A) → ℕ → A → ℕ → A
update f i v j = if j == i then v else f j

-- The count after an entry changes from `old` to `val`.
unfoldable pub recount : ℕ → ℕ → ℕ → ℕ
recount count old val =
    let count1 = if not (old == 0) && val == 0 then (count + (2 ^ 32 - 1)) % 2 ^ 32 else count in
    if old == 0 && not (val == 0) then (count1 + 1) % 2 ^ 32 else count1

-- `Page1::set`, whose result is the new page's count.
unfoldable pub set_entry : Page1 → ℕ → ℕ → Page1
unfolding recount
set_entry page index val =
    let i = get_page1_index index in
    record { count = recount page.count (page.entries i) val; entries = update page.entries i val }

unfoldable pub get_entry : Page1 → ℕ → ℕ
get_entry page i = page.entries (get_page1_index i)

pub record IcvMap : Type 0 where
  pub pages : ℕ → Option Page1

unfoldable pub map_clear : IcvMap → IcvMap
map_clear m = record { pages = λ p. none }

-- What `set` puts in place of the page that it found.
unfoldable pub set_in_page : Option Page1 → ℕ → ℕ → Option Page1
set_in_page none i val = if val == 0 then none else some (set_entry new_page i val)
set_in_page (some page) i val =
    let changed = set_entry page i val in if changed.count == 0 then none else some changed

unfoldable pub map_set : IcvMap → ℕ → ℕ → IcvMap
map_set m i val =
    let page2_i = get_page2_index i in
    record { pages = update m.pages page2_i (set_in_page (m.pages page2_i) i val) }

unfoldable pub get_in_page : Option Page1 → ℕ → ℕ
get_in_page none i = 0
get_in_page (some page) i = get_entry page i

unfoldable pub map_get : IcvMap → ℕ → ℕ
map_get m i = get_in_page (m.pages (get_page2_index i)) i
