-- ===== src/Integrity/Access.antt =====
-- The check of a whole memory access: modules/common/ccsimics/integrity.h.
use c3_simulator.Common.{
  ℕ, ◌^◌, ◌<◌, ◌≡◌, refl, ap, ◌∙◌, true, false, not, ◌==◌, ◌||◌, if◌then◌else◌, Option, none, some,
  arith, ne→==, if_true, if_false, bind_some,
}
use c3_simulator.Ca.Format.{is_encoded_cc_ptr, enc_size}
use c3_simulator.IcvMap.Page.{IcvMap}
use c3_simulator.Integrity.Machine.{Rw, Simulator, Options, Machine}
use c3_simulator.Integrity.Check.{index_of, get_icv_index, set_or_check_icv}
use c3_simulator.Integrity.Granule.{Checking, mismatch, checked, faulting, check_icv_lem}

-- Translations are 64-bit addresses.
unfoldable pub IsPhysical : Simulator → Type 0
IsPhysical sim = (la pa : ℕ) → sim.logical_to_physical la ≡ some pa → pa < 2 ^ 64

unfoldable pub index : Simulator → ℕ → ℕ
index sim la = index_of (sim.logical_to_physical la) la

-- An address of user space is no CA.
pub not_encoded : (x : ℕ) → x < 2 ^ 47 → is_encoded_cc_ptr x ≡ false
unfolding is_encoded_cc_ptr
not_encoded x h =
    ap (λ e. if e == 0 || e == 63 then false else true) {x = enc_size x} {y = 0} (omega arith)

index_of-lt :
    (t : Option ℕ) (la : ℕ)
    → ((pa : ℕ) → t ≡ some pa → pa < 2 ^ 64)
    → la < 2 ^ 47
    → index_of t la < 2 ^ 61
unfolding index_of
index_of-lt none la h small = omega arith
index_of-lt (some pa) la h small = omega (arith, h pa refl)

module _ (sim : Simulator) where
  pub get_icv_index_lem : (la : ℕ) → la < 2 ^ 47 → get_icv_index sim la ≡ some (index sim la)
  unfolding get_icv_index index
  get_icv_index_lem la h = if_true _ (ap not (not_encoded la h))

  pub index_valid :
      (la : ℕ) → IsPhysical sim → la < 2 ^ 47 → (index sim la == 0xFFFFFFFFFFFFFFFF) ≡ false
  unfolding index IsPhysical
  index_valid la phys h =
      let small = index_of-lt (sim.logical_to_physical la) la (phys la) h in
      ne→== _ _ (λ e. absurd (omega (arith, small, e)))

  pub set_or_check_icv_lem :
      (o : Options) (op : Rw) (la ca : ℕ) (m : IcvMap) (s : Machine)
      → Checking o s m
      → IsPhysical sim
      → la < 2 ^ 47
      → faulting o op ≡ true
      → set_or_check_icv sim o la ca op s
        ≡ some (false, checked o op (mismatch m (index sim la) ca) m (index sim la) s)
  unfolding set_or_check_icv
  set_or_check_icv_lem o op la ca m s h phys small on =
      if_false _ (ap not h.enabled)
      ∙ bind_some _ (get_icv_index_lem la small)
      ∙ if_false _ (index_valid la phys small)
      ∙ if_true _ h.locked
      ∙ check_icv_lem sim o op (index sim la) ca m s h on
