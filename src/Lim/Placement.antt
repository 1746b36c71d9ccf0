-- ===== src/Lim/Placement.antt =====
-- Where an aligned allocation lies around the middle of its slot: malloc/lim_ptr_encoding.h.
use c3_simulator.Common.{
  ℕ_discrete, dec_lt, ℕ, zero, suc, ◌+◌, ◌-◌, ◌*◌, ◌/◌, ◌%◌, ◌^◌, ◌≤◌, ◌<◌, ◌≡◌, ◌≢◌, ap, sym, ◌∙◌,
  subst, ◌⊎◌, inl, inr, arith, bit_or,
}
use native.Mathlib.Nat.{
  pow-suc, pow-le-pow_right, one-le-pow, lt-div-mul-add, div-mul-le_self, div-div-eq-div-mul,
}
use c3_simulator.Common.Bits.{SameSlot, bit_or_fields, shr_mono}
use c3_simulator.Lim.Pointer.{get_middle_address}
use c3_simulator.Lim.Bounds.{chunk_size, chunk_size-pos, le-chunk_size, IsLeast}

half_step : (x e : ℕ) → x / 2 ^ suc e ≡ x / 2 ^ e / 2
half_step x e = ap (λ t. x / t) (pow-suc 2 e) ∙ sym (div-div-eq-div-mul x (2 ^ e) 2)

double : (k e : ℕ) → k * 2 ^ suc e ≡ 2 * k * 2 ^ e
double k e = ap (λ t. k * t) (pow-suc 2 e) ∙ omega arith

-- An allocation that a slot holds and neither half of it does crosses the middle of the slot.
module _ (ptr last e : ℕ) (ordered : ptr ≤ last) (slot : SameSlot (suc e) ptr last)
    (apart : ¬ (SameSlot e ptr last)) where
  left_half : ptr / 2 ^ e ≡ 2 * (ptr / 2 ^ suc e)
  left_half =
      let differ : ptr / 2 ^ e ≢ last / 2 ^ e = apart in
      let le : ptr / 2 ^ e ≤ last / 2 ^ e =
        shr_mono ptr last (2 ^ e) ordered (one-le-pow e 2 (omega arith)) in
      omega (arith, slot, half_step ptr e, half_step last e, differ, le)

  right_half : last / 2 ^ e ≡ 2 * (ptr / 2 ^ suc e) + 1
  right_half =
      let differ : ptr / 2 ^ e ≢ last / 2 ^ e = apart in
      let le : ptr / 2 ^ e ≤ last / 2 ^ e =
        shr_mono ptr last (2 ^ e) ordered (one-le-pow e 2 (omega arith)) in
      omega (arith, slot, half_step ptr e, half_step last e, differ, le)

-- The middle of the slot of 2^(e + 1) bytes that holds `addr`.
pub middle : ℕ → ℕ → ℕ
middle addr e = addr / 2 ^ suc e * 2 ^ suc e + 2 ^ e

pub get_middle_address_lem : (addr e : ℕ) → get_middle_address addr (suc e) ≡ middle addr e
unfolding get_middle_address middle
get_middle_address_lem addr e =
    ap (bit_or _) {x = 2 ^ (suc e - 1)} {y = 2 ^ e} (ap (λ (t : ℕ). 2 ^ t) (omega arith))
    ∙ bit_or_fields (suc e) (addr / 2 ^ suc e) (2 ^ e)
        (omega (arith, pow-suc 2 e, one-le-pow e 2 (omega arith)))

-- An address is in its slot.
pub in_slot : (addr e : ℕ) → (middle addr e ≤ addr + 2 ^ e) × (addr < middle addr e + 2 ^ e)
unfolding middle
in_slot addr e = (
  omega (arith, div-mul-le_self addr (2 ^ suc e), pow-suc 2 e),
  omega (
    arith,
    lt-div-mul-add {a = addr} {b = 2 ^ suc e} (one-le-pow (suc e) 2 (omega arith)),
    pow-suc 2 e,
  ),
)

pub middle-SameSlot : (a b e : ℕ) → SameSlot (suc e) a b → middle a e ≡ middle b e
unfolding middle
middle-SameSlot a b e h = ap (λ t. t * 2 ^ suc e + 2 ^ e) h

one_more : (k m : ℕ) → (k + 1) * m ≡ k * m + m
one_more k m = omega arith

module _ (ptr last e : ℕ) (ordered : ptr ≤ last) (slot : SameSlot (suc e) ptr last)
    (apart : ¬ (SameSlot e ptr last)) where
  pub before_middle : ptr < middle ptr e
  unfolding middle
  before_middle = omega (
    arith,
    lt-div-mul-add {a = ptr} {b = 2 ^ e} (one-le-pow e 2 (omega arith)),
    ap (λ t. t * 2 ^ e) (left_half ptr last e ordered slot apart),
    double (ptr / 2 ^ suc e) e,
  )

  pub after_middle : middle ptr e ≤ last
  unfolding middle
  after_middle = omega (
    arith,
    div-mul-le_self last (2 ^ e),
    ap (λ t. t * 2 ^ e) (right_half ptr last e ordered slot apart),
    double (ptr / 2 ^ suc e) e,
    one_more (2 * (ptr / 2 ^ suc e)) (2 ^ e),
  )

-- Where the metadata of a 16-byte aligned allocation stands in its slot of 2^(e + 1) bytes.
pub record Placed (ptr n e : ℕ) : Type 0 where
  pub half : 16 ≤ 2 ^ e
  pub half_aligned : 2 ^ e % 16 ≡ 0
  pub middle_aligned : middle ptr e % 16 ≡ 0
  pub lower : ptr < middle ptr e
  pub start : middle ptr e ≤ ptr + 2 ^ e
  pub upper : ptr + n ≤ middle ptr e + 2 ^ e
  pub near : middle ptr e < ptr + chunk_size n
  pub reach : (middle ptr e < ptr + n) ⊎ (n ≤ 16)

aligned_pow : (e : ℕ) → 4 ≤ e → (z : ℕ) × (2 ^ e ≡ 16 * z)
aligned_pow zero h = absurd (omega arith)
aligned_pow (suc e) h = elim (ℕ_discrete e 3) [
  | yes three ↦ (1, ap (λ t. 2 ^ suc t) three)
  | no more ↦
      let rest = aligned_pow e (omega (arith, more)) in
      (2 * rest.0, omega (arith, pow-suc 2 e, rest.1))
]

aligned_multiple : (k m z : ℕ) → m ≡ 16 * z → 2 * k * m ≡ 16 * (2 * k * z)
aligned_multiple k m z h = ap (λ t. 2 * k * t) h ∙ omega arith

middle-aligned : (ptr e : ℕ) → 4 ≤ e → (2 ^ e % 16 ≡ 0) × (middle ptr e % 16 ≡ 0)
unfolding middle
middle-aligned ptr e h =
    let z = aligned_pow e h in
    let k = ptr / 2 ^ suc e in
    (omega (arith, z.1), omega (arith, z.1, double k e, aligned_multiple k (2 ^ e) z.0 z.1))

-- In a slot of the least size, alignment makes the allocation cross the middle.
crosses_least :
    (ptr n : ℕ)
    → ptr % 16 ≡ 0
    → SameSlot 5 ptr (ptr + chunk_size n - 1)
    → (ptr < middle ptr 4) × (middle ptr 4 < ptr + chunk_size n)
unfolding middle
crosses_least ptr n aligned slot =
    (omega (arith, slot, chunk_size-pos n), omega (arith, slot, chunk_size-pos n))

crosses :
    (ptr n e : ℕ)
    → ptr % 16 ≡ 0
    → IsLeast ptr (ptr + chunk_size n - 1) (suc e)
    → (ptr < middle ptr e) × (middle ptr e < ptr + chunk_size n)
crosses ptr n e aligned h = elim (ℕ_discrete e 4) [
  | yes four ↦
      subst (λ k. (ptr < middle ptr k) × (middle ptr k < ptr + chunk_size n)) (sym four)
        (crosses_least ptr n aligned
          (subst (λ k. SameSlot (suc k) ptr (ptr + chunk_size n - 1)) four h.holds))
  | no more ↦
      let ordered : ptr ≤ ptr + chunk_size n - 1 = omega (arith, chunk_size-pos n) in
      let apart : ¬ (SameSlot e ptr (ptr + chunk_size n - 1)) =
        λ s. absurd (omega (arith, h.lower, h.least e (omega (arith, h.lower, more)) s)) in
      (
        before_middle ptr (ptr + chunk_size n - 1) e ordered h.holds apart,
        omega (
          arith,
          after_middle ptr (ptr + chunk_size n - 1) e ordered h.holds apart,
          chunk_size-pos n,
        ),
      )
]

reach_lem :
    (ptr n m : ℕ)
    → ptr % 16 ≡ 0
    → m % 16 ≡ 0
    → ptr < m
    → m < ptr + chunk_size n
    → (m < ptr + n) ⊎ (n ≤ 16)
reach_lem ptr n m aligned aligned' lt reached = elim (dec_lt m (ptr + n)) [
  | yes beyond ↦ inl beyond
  | no short ↦ inr (ground arith)
]

pub Placed_lem :
    (ptr n e : ℕ) → ptr % 16 ≡ 0 → IsLeast ptr (ptr + chunk_size n - 1) (suc e) → Placed ptr n e
Placed_lem ptr n e aligned h =
    let all_aligned = middle-aligned ptr e (omega (arith, h.lower)) in
    let cross = crosses ptr n e aligned h in
    let last_in = in_slot (ptr + chunk_size n - 1) e in
    record {
      half =
          omega (
            arith,
            pow-le-pow_right {n = 2} (omega arith) {i = 4} {j = e} (omega (arith, h.lower)),
          );
      half_aligned = all_aligned.0;
      middle_aligned = all_aligned.1;
      lower = cross.0;
      start = (in_slot ptr e).0;
      upper = omega (
        arith,
        last_in.1,
        middle-SameSlot ptr (ptr + chunk_size n - 1) e h.holds,
        chunk_size-pos n,
        le-chunk_size n,
      );
      near = cross.1;
      reach = reach_lem ptr n (middle ptr e) aligned all_aligned.1 cross.0 cross.1;
    }
