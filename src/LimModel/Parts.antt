-- ===== src/LimModel/Parts.antt =====
-- Lists of bytes and their parts, as modules/lim_model/model.cpp puts an access together.
use c3_simulator.Common.{
  ℕ, zero, suc, ◌+◌, ◌-◌, ◌≤◌, ◌<◌, ◌≡◌, refl, ap, ap₂, sym, ◌∙◌, arith, List, [], ◌∷◌, ◌++◌,
  length, get_or,
}
use c3_simulator.Data.Countermode.{take, drop}
use c3_simulator.LimModel.Bytes.{
  bytes_at, overlay, get_or-append_left, get_or-append_right, overlay_in, length-append, take-drop,
}

pub take-bytes_at : (f : ℕ → ℕ) (p n k : ℕ) → k ≤ n → take k (bytes_at f p n) ≡ bytes_at f p k
unfolding take bytes_at
take-bytes_at f p n zero h = refl
take-bytes_at f p zero (suc k) h = absurd (omega arith)
take-bytes_at f p (suc n) (suc k) h = ap (λ t. f p ∷ t) (take-bytes_at f (p + 1) n k (omega arith))

pub drop-bytes_at :
    (f : ℕ → ℕ) (p n k : ℕ) → k ≤ n → drop k (bytes_at f p n) ≡ bytes_at f (p + k) (n - k)
unfolding drop bytes_at
drop-bytes_at f p n zero h = ap₂ (λ a b. bytes_at f a b) (omega arith) (omega arith)
drop-bytes_at f p zero (suc k) h = absurd (omega arith)
drop-bytes_at f p (suc n) (suc k) h =
    drop-bytes_at f (p + 1) n k (omega arith)
    ∙ ap₂ (λ a b. bytes_at f a b) (omega arith) (omega arith)

drop_nil : (a : ℕ) → drop a [] ≡ []
unfolding drop
drop_nil zero = refl
drop_nil (suc a) = refl

drop-drop : (a b : ℕ) (xs : List ℕ) → drop b (drop a xs) ≡ drop (a + b) xs
unfolding drop
drop-drop zero b xs = ap (λ t. drop t xs) {x = b} {y = 0 + b} (omega arith)
drop-drop (suc a) b [] = drop_nil b ∙ sym (drop_nil (suc a + b))
drop-drop (suc a) b (x ∷ xs) =
    drop-drop a b xs ∙ ap (λ t. drop t (x ∷ xs)) {x = suc (a + b)} {y = suc a + b} (omega arith)

-- A list in three parts.
pub three_parts :
    (a b : ℕ) (xs : List ℕ) → take a xs ++ (take b (drop a xs) ++ drop (a + b) xs) ≡ xs
three_parts a b xs =
    ap (λ t. take a xs ++ (take b (drop a xs) ++ t)) (sym (drop-drop a b xs))
    ∙ ap (λ t. take a xs ++ t) (take-drop b (drop a xs))
    ∙ take-drop a xs

-- A write of three lists, one after the other.
module _ (g : ℕ → ℕ) (p : ℕ) (xs ys zs : List ℕ) where
  total : length (xs ++ (ys ++ zs)) ≡ length xs + (length ys + length zs)
  total = omega (arith, length-append xs (ys ++ zs), length-append ys zs)

  pub overlay_first :
      (i : ℕ) → i < length xs → overlay g p (xs ++ (ys ++ zs)) (p + i) ≡ get_or xs i 0
  overlay_first i h =
      overlay_in g p (xs ++ (ys ++ zs)) i (omega (arith, total, h))
      ∙ get_or-append_left xs (ys ++ zs) i h

  pub overlay_second :
      (i : ℕ) → i < length ys → overlay g p (xs ++ (ys ++ zs)) (p + (length xs + i)) ≡ get_or ys i 0
  overlay_second i h =
      overlay_in g p (xs ++ (ys ++ zs)) (length xs + i) (omega (arith, total, h))
      ∙ get_or-append_right xs (ys ++ zs) i
      ∙ get_or-append_left ys zs i h

  pub overlay_third :
      (i : ℕ)
      → i < length zs
      → overlay g p (xs ++ (ys ++ zs)) (p + (length xs + (length ys + i))) ≡ get_or zs i 0
  overlay_third i h =
      overlay_in g p (xs ++ (ys ++ zs)) (length xs + (length ys + i)) (omega (arith, total, h))
      ∙ get_or-append_right xs (ys ++ zs) (length ys + i)
      ∙ get_or-append_right ys zs i
