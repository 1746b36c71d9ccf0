-- ===== src/Lim/Memory.antt =====
-- The bytes that memcpy reads after memcpy has written them: malloc/lim_ptr_encoding.h.
use c3_simulator.Common.{
  ℕ, zero, suc, ◌+◌, ◌-◌, ◌*◌, ◌/◌, ◌%◌, ◌^◌, ◌≤◌, ◌<◌, ◌≡◌, ap, ap₂, sym, ◌∙◌, arith, true, ltb,
  leb, ◌&&◌, if◌then◌else◌, assert◌then◌,
}
use native.Mathlib.Nat.{pow-suc, div-div-eq-div-mul, mod-eq-sub-mul-div, mul-div-le, mod-eq_of_lt}
use c3_simulator.Lim.Metadata.{store, load}

store-in :
    (memory : ℕ → ℕ) (addr n value k : ℕ)
    → k < n
    → store memory addr n value (addr + k) ≡ value / 2 ^ (8 * k) % 2 ^ 8
unfolding store
store-in memory addr n value k h =
    let inside : (leb addr (addr + k) && ltb (addr + k) (addr + n)) ≡ true = ground arith in
    ap (λ b. if b then value / 2 ^ (8 * (addr + k - addr)) % 2 ^ 8 else memory (addr + k)) inside
    ∙ ap (λ t. value / 2 ^ (8 * t) % 2 ^ 8) {x = addr + k - addr} {y = k} (omega arith)

mod_split : (x m : ℕ) → x % 2 ^ 8 + 2 ^ 8 * (x / 2 ^ 8 % m) ≡ x % (2 ^ 8 * m)
mod_split x m = omega (
  arith,
  mod-eq-sub-mul-div x (2 ^ 8 * m),
  mod-eq-sub-mul-div (x / 2 ^ 8) m,
  mul-div-le (x / 2 ^ 8) m,
  ap (λ t. 2 ^ 8 * m * t) (sym (div-div-eq-div-mul x (2 ^ 8) m)),
  pull m (x / 2 ^ 8 / m),
)
  where
    pull : (a b : ℕ) → 2 ^ 8 * a * b ≡ 2 ^ 8 * (a * b)
    pull a b = omega arith

pow_byte : (j : ℕ) → 2 ^ (8 * suc j) ≡ 2 ^ 8 * 2 ^ (8 * j)
pow_byte j =
    ap (λ (t : ℕ). 2 ^ t) {x = 8 * suc j}
      {y = suc (suc (suc (suc (suc (suc (suc (suc (8 * j))))))))} (omega arith)
    ∙ omega (
      arith,
      pow-suc 2 (8 * j),
      pow-suc 2 (suc (8 * j)),
      pow-suc 2 (suc (suc (8 * j))),
      pow-suc 2 (suc (suc (suc (8 * j)))),
      pow-suc 2 (suc (suc (suc (suc (8 * j))))),
      pow-suc 2 (suc (suc (suc (suc (suc (8 * j)))))),
      pow-suc 2 (suc (suc (suc (suc (suc (suc (8 * j))))))),
      pow-suc 2 (suc (suc (suc (suc (suc (suc (suc (8 * j)))))))),
    )

next_byte : (value k : ℕ) → value / 2 ^ (8 * suc k) ≡ value / 2 ^ (8 * k) / 2 ^ 8
next_byte value k =
    ap (λ t. value / t) {x = 2 ^ (8 * suc k)} {y = 2 ^ (8 * k) * 2 ^ 8} (omega (arith, pow_byte k))
    ∙ sym (div-div-eq-div-mul value (2 ^ (8 * k)) (2 ^ 8))

load-store_from :
    (memory : ℕ → ℕ) (addr n value k j : ℕ)
    → k + j ≤ n
    → load (store memory addr n value) (addr + k) j ≡ value / 2 ^ (8 * k) % 2 ^ (8 * j)
unfolding load
load-store_from memory addr n value k zero h = omega arith
load-store_from memory addr n value k (suc j) h =
    let rest = load (store memory addr n value) in
    ap₂ (λ a b. a + 2 ^ 8 * b) (store-in memory addr n value k (omega arith))
      (ap (λ t. rest t j) {x = addr + k + 1} {y = addr + suc k} (omega arith)
        ∙ load-store_from memory addr n value (suc k) j (omega arith)
        ∙ ap (λ t. t % 2 ^ (8 * j)) (next_byte value k))
    ∙ mod_split (value / 2 ^ (8 * k)) (2 ^ (8 * j))
    ∙ ap (λ t. value / 2 ^ (8 * k) % t) (sym (pow_byte j))

pub load-store :
    (memory : ℕ → ℕ) (addr n value : ℕ)
    → value < 2 ^ (8 * n)
    → load (store memory addr n value) addr n ≡ value
load-store memory addr n value h =
    ap (λ t. load (store memory addr n value) t n) {x = addr} {y = addr + 0} (omega arith)
    ∙ load-store_from memory addr n value 0 n (omega arith)
    ∙ ap (λ t. t % 2 ^ (8 * n)) {x = value / 2 ^ (8 * 0)} {y = value} (omega arith)
    ∙ mod-eq_of_lt h
