-- ===== src/Lim/Fields.antt =====
-- Writing bounds and a tag into the metadata of each size, and reading them back:
-- malloc/lim_ptr_encoding.h.
use c3_simulator.Common.{
  ℕ, suc, ◌*◌, ◌%◌, ◌^◌, ◌≤◌, ◌<◌, ◌≡◌, ap, ap₂, ◌∙◌, ◌⊎◌, inl, inr, arith, false, leb,
  if◌then◌else◌, Option, some, add64, sub64, assert◌then◌,
}
use native.Mathlib.Nat.{pow-suc}
use c3_simulator.Lim.Pointer.{
  get_slot_size_in_bytes, get_metadata_offset_from_middle, get_metadata_size,
}
use c3_simulator.Lim.Metadata.{
  decode_bound, BoundedData, expected_meta_size, meta_1b, meta_2b, meta_16b, store, load,
  meta_value, DecodedMetadata, lim_decode_metadata,
}
use c3_simulator.Lim.Memory.{load-store}

-- How large a slot is, read off from the metadata size that belongs to it.
pub expected_cases :
    (h : ℕ)
    → (expected_meta_size (2 * h) ≡ 1 × (h ≤ 32))
      ⊎ ((expected_meta_size (2 * h) ≡ 2 × (h ≤ 128)) ⊎ (expected_meta_size (2 * h) ≡ 16))
unfolding expected_meta_size
expected_cases h = ground arith

pub slot_size_lem : (e : ℕ) → get_slot_size_in_bytes (suc e) ≡ 2 * 2 ^ e
unfolding get_slot_size_in_bytes
slot_size_lem e = omega (arith, pow-suc 2 e)

pub offset_lem : (e : ℕ) → get_metadata_offset_from_middle (suc e) ≤ 8
unfolding get_metadata_offset_from_middle get_slot_size_in_bytes
offset_lem e = ground arith

pub get_metadata_size_lem : (e : ℕ) → get_metadata_size (suc e) ≡ expected_meta_size (2 * 2 ^ e)
unfolding get_metadata_size expected_meta_size
get_metadata_size_lem e =
    ap (λ t. if leb t 64 then 1 else if leb t 256 then 2 else 16) (slot_size_lem e)

meta_1b-lt : (lb ub t : ℕ) → meta_1b lb ub t < 2 ^ 8
unfolding meta_1b
meta_1b-lt lb ub t = omega arith

meta_2b-lt : (lb ub t : ℕ) → meta_2b lb ub t < 2 ^ 16
unfolding meta_2b
meta_2b-lt lb ub t = omega arith

meta_16b-lt : (lb ub t : ℕ) → meta_16b lb ub t < 2 ^ 128
unfolding meta_16b
meta_16b-lt lb ub t = omega arith

-- What the fields of the metadata decode to.
unfoldable pub from_fields : ℕ → ℕ → ℕ → ℕ → ℕ → DecodedMetadata
from_fields m left right lower upper = record {
  tag_left = left;
  tag_right = right;
  lower_la = sub64 m (decode_bound lower);
  upper_la = sub64 (add64 m (decode_bound upper)) 1;
}

from_fields_eq :
    (m left right lower upper t lb ub : ℕ)
    → left ≡ t % 16
    → right ≡ t % 16
    → lower ≡ lb
    → upper ≡ ub
    → some (from_fields m left right lower upper) ≡ some (from_fields m (t % 16) (t % 16) lb ub)
from_fields_eq m left right lower upper t lb ub e1 e2 e3 e4 =
    ap₂ (λ a b. some (from_fields m a b lower upper)) e1 e2
    ∙ ap₂ (λ a b. some (from_fields m (t % 16) (t % 16) a b)) e3 e4

unfoldable pub decoded : ℕ → BoundedData → ℕ → DecodedMetadata
decoded m b t = from_fields m (t % 16) (t % 16) b.enc_lb b.enc_ub

module _ (m t : ℕ) (b : BoundedData) where
  decode-meta_1b :
      b.enc_lb < 2 ^ 2
      → b.enc_ub < 2 ^ 2
      → lim_decode_metadata false (meta_value 1 b t) 1 m ≡ some (decoded m b t)
  unfolding lim_decode_metadata meta_value meta_1b decoded from_fields
  decode-meta_1b h h' =
      from_fields_eq m _ _ _ _ t b.enc_lb b.enc_ub (omega arith) (omega arith) (omega arith)
        (omega arith)

  decode-meta_2b :
      b.enc_lb < 2 ^ 4
      → b.enc_ub < 2 ^ 4
      → lim_decode_metadata false (meta_value 2 b t) 2 m ≡ some (decoded m b t)
  unfolding lim_decode_metadata meta_value meta_2b decoded from_fields
  decode-meta_2b h h' =
      from_fields_eq m _ _ _ _ t b.enc_lb b.enc_ub (omega arith) (omega arith) (omega arith)
        (omega arith)

  decode-meta_16b :
      b.enc_lb < 2 ^ 60
      → b.enc_ub < 2 ^ 60
      → lim_decode_metadata false (meta_value 16 b t) 16 m ≡ some (decoded m b t)
  unfolding lim_decode_metadata meta_value meta_16b decoded from_fields
  decode-meta_16b h h' =
      from_fields_eq m _ _ _ _ t b.enc_lb b.enc_ub (omega arith) (omega arith) (omega arith)
        (omega arith)

-- The bounds fit the fields of the metadata of their size.
abbrev pub Fits : ℕ → BoundedData → Type 0
Fits ms b =
    ((ms ≡ 1) × (b.enc_lb < 2 ^ 2) × (b.enc_ub < 2 ^ 2))
    ⊎ (((ms ≡ 2) × (b.enc_lb < 2 ^ 4) × (b.enc_ub < 2 ^ 4))
        ⊎ ((ms ≡ 16) × (b.enc_lb < 2 ^ 60) × (b.enc_ub < 2 ^ 60)))

module _ (memory : ℕ → ℕ) (addr m t : ℕ) (b : BoundedData) where
  unfoldable pub read_at : ℕ → Option DecodedMetadata
  read_at k = lim_decode_metadata false (load (store memory addr k (meta_value k b t)) addr k) k m

  pub read_back : (ms : ℕ) → Fits ms b → read_at ms ≡ some (decoded m b t)
  unfolding read_at meta_value
  read_back ms (inl (one, lo, hi)) =
      ap read_at one
      ∙ ap (λ v. lim_decode_metadata false v 1 m)
          (load-store memory addr 1 _ (meta_1b-lt b.enc_lb b.enc_ub t))
      ∙ decode-meta_1b m t b lo hi
  read_back ms (inr (inl (two, lo, hi))) =
      ap read_at two
      ∙ ap (λ v. lim_decode_metadata false v 2 m)
          (load-store memory addr 2 _ (meta_2b-lt b.enc_lb b.enc_ub t))
      ∙ decode-meta_2b m t b lo hi
  read_back ms (inr (inr (sixteen, lo, hi))) =
      ap read_at sixteen
      ∙ ap (λ v. lim_decode_metadata false v 16 m)
          (load-store memory addr 16 _ (meta_16b-lt b.enc_lb b.enc_ub t))
      ∙ decode-meta_16b m t b lo hi
