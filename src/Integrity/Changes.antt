-- ===== src/Integrity/Changes.antt =====
-- The instructions on ICVs keep the map of ICVs sound: modules/common/ccsimics/integrity.h.
use c3_simulator.Common.{
  ℕ, zero, suc, ◌+◌, Bool, not, ◌==◌, ltb, if◌then◌else◌, some, assert◌then◌, Option, none, false,
  Holds, Holds-bind, Holds-some, Holds-any, Holds-assert, if_either,
}
use c3_simulator.Ca.Format.{is_encoded_cc_ptr}
use c3_simulator.Ca.Encoding.{decode_pointer}
use c3_simulator.Integrity.Icv.{
  icv_addr, invalid_icv, icv_uninitialize, icv_preinit_enable, is_icv_preinit_enabled,
}
use c3_simulator.Integrity.Machine.{
  write, on_invalidate_icv, on_initialize_icv, non_ca_preinit, non_ca, icv_fail, break_simulation,
  Simulator, Options, Machine, record_call, record_call_if, raise, raise_if, get_icv, store_icv,
  decode_la, icv_fault_on_write_mismatch,
}
use c3_simulator.Integrity.Check.{get_icv_index, set_icv}
use c3_simulator.Integrity.Instructions.{
  no_index, write_at, write_mem_8B, set_unless_faulted, index_of_ca, invalidate_icv, initialize_icv,
  pre_init_icv, slot_away, la_to_icv_i, dst_to_icv, copy_icv, copy_icv_loop, slots_of, decode_if_ca,
  copy_icvs,
}
use c3_simulator.Integrity.Sound.{
  FlagsOk, IsSound, IsSound₂, get_icv-FlagsOk, store_icv-IsSound, icv_addr-FlagsOk, zero-FlagsOk,
  invalid-FlagsOk, uninitialize-FlagsOk, set_icv-IsSound,
}

decode_la-IsSound : (s : Machine) (ptr : ℕ) → IsSound s → Holds IsSound₂ (decode_la s ptr)
unfolding decode_la
decode_la-IsSound s ptr h =
    if_either (Holds IsSound₂) s.cc_enabled _ (some (ptr, s))
      (Holds-bind (λ _. Unit) IsSound₂ (decode_pointer s.pointer_encoder ptr) _
        (Holds-any (decode_pointer s.pointer_encoder ptr))
        (λ r _.
          Holds-some IsSound₂ (r.0, record s { pointer_encoder = r.1 })
            (record { map_ok = h.map_ok })))
      (Holds-some IsSound₂ (ptr, s) (record { map_ok = h.map_ok }))

decode_if_ca-IsSound : (s : Machine) (ptr : ℕ) → IsSound s → Holds IsSound₂ (decode_if_ca ptr s)
unfolding decode_if_ca
decode_if_ca-IsSound s ptr h =
    if_either (Holds IsSound₂) (is_encoded_cc_ptr ptr) (decode_la s ptr) (some (ptr, s))
      (decode_la-IsSound s ptr h) (Holds-some IsSound₂ (ptr, s) (record { map_ok = h.map_ok }))

-- The machine after an index is computed.
abbrev AfterIndex : ℕ × ℕ × Machine → Type 0
AfterIndex r = IsSound r.2

module _ (sim : Simulator) where
  index_of_ca-IsSound :
      (ptr : ℕ) (s : Machine) → IsSound s → Holds AfterIndex (index_of_ca sim ptr s)
  unfolding index_of_ca
  index_of_ca-IsSound ptr s h =
      Holds-bind IsSound₂ AfterIndex (decode_la s ptr) _ (decode_la-IsSound s ptr h) (λ r hr.
        Holds-bind (λ _. Unit) AfterIndex (get_icv_index sim r.0) _
          (Holds-any (get_icv_index sim r.0))
          (λ i _.
            Holds-assert AfterIndex (not (i == no_index)) (some (r.0, i, r.1))
              (Holds-some AfterIndex (r.0, i, r.1) (record { map_ok = hr.map_ok }))))

  pub invalidate_icv-IsSound :
      (o : Options) (ptr : ℕ) (s : Machine) → IsSound s → Holds IsSound (invalidate_icv sim o ptr s)
  unfolding invalidate_icv
  invalidate_icv-IsSound o ptr s h =
      if_either (Holds IsSound) (is_encoded_cc_ptr ptr) _ _
        (Holds-bind AfterIndex IsSound (index_of_ca sim ptr s) _ (index_of_ca-IsSound ptr s h)
          (λ r hr.
            Holds-bind FlagsOk IsSound (get_icv r.2 r.1) _ (get_icv-FlagsOk r.2 r.1 hr) (λ stored _.
              if_either (Holds IsSound) (icv_addr ptr == stored) (store_icv r.2 r.1 invalid_icv) _
                (store_icv-IsSound r.2 r.1 invalid_icv invalid-FlagsOk hr)
                (Holds-some IsSound (raise_if (icv_fault_on_write_mismatch o r.2) icv_fail r.2)
                  (record { map_ok = hr.map_ok })))))
        (Holds-some IsSound
          (raise on_invalidate_icv (record_call_if o.debug_on (break_simulation non_ca) s))
          (record { map_ok = h.map_ok }))

  write_at-IsSound : (t : Option ℕ) (v : ℕ) (s : Machine) → IsSound s → IsSound (write_at t v s)
  unfolding write_at
  write_at-IsSound none v s h = record { map_ok = h.map_ok }
  write_at-IsSound (some pa) v s h = record { map_ok = h.map_ok }

  set_unless_faulted-IsSound :
      (i ca : ℕ) (s : Machine) → IsSound s → Holds IsSound (set_unless_faulted i ca s)
  unfolding set_unless_faulted
  set_unless_faulted-IsSound i ca s h =
      if_either (Holds IsSound) s.faulted (some s) (set_icv i ca write s) (Holds-some IsSound s h)
        (set_icv-IsSound i ca write s h)

  pub initialize_icv-IsSound :
      (o : Options) (ca val : ℕ) (s : Machine)
      → IsSound s
      → Holds IsSound (initialize_icv sim o ca val s)
  unfolding initialize_icv write_mem_8B
  initialize_icv-IsSound o ca val s h =
      if_either (Holds IsSound) (is_encoded_cc_ptr ca) _ _
        (Holds-bind AfterIndex IsSound (index_of_ca sim ca s) _ (index_of_ca-IsSound ca s h)
          (λ r hr. set_unless_faulted-IsSound r.1 ca _ (
            write_at-IsSound (sim.logical_to_physical r.0) _ (record r.2 { faulted = false })
              (record { map_ok = hr.map_ok }))))
        (Holds-some IsSound
          (raise on_initialize_icv (record_call_if o.debug_on (break_simulation non_ca) s))
          (record { map_ok = h.map_ok }))

  pub pre_init_icv-IsSound :
      (ptr : ℕ) (s : Machine) → IsSound s → Holds IsSound (pre_init_icv sim ptr s)
  unfolding pre_init_icv
  pre_init_icv-IsSound ptr s h =
      if_either (Holds IsSound) (is_encoded_cc_ptr ptr) _ _
        (Holds-bind AfterIndex IsSound (index_of_ca sim ptr s) _ (index_of_ca-IsSound ptr s h)
          (λ r hr.
            Holds-bind FlagsOk IsSound (get_icv r.2 r.1) _ (get_icv-FlagsOk r.2 r.1 hr) (λ stored _.
              if_either (Holds IsSound) (is_icv_preinit_enabled stored) (some r.2) _
                (Holds-some IsSound r.2 hr)
                (store_icv-IsSound r.2 r.1 (icv_uninitialize (icv_preinit_enable stored))
                  (uninitialize-FlagsOk stored) hr))))
        (Holds-some IsSound (record_call s (break_simulation non_ca_preinit))
          (record { map_ok = h.map_ok }))

  dst_to_icv-FlagsOk : (dst i v : ℕ) (back : Bool) → FlagsOk (dst_to_icv dst i v back)
  unfolding dst_to_icv
  dst_to_icv-FlagsOk dst i v back =
      if_either FlagsOk (not (is_encoded_cc_ptr dst)) 0 _ zero-FlagsOk (
        if_either FlagsOk (v == invalid_icv) invalid_icv _ invalid-FlagsOk
          (icv_addr-FlagsOk (slot_away back dst i)))

  copy_icv-IsSound :
      (dst la_dst la_src : ℕ) (from : Bool) (j : ℕ) (back : Bool) (i : ℕ) (s : Machine)
      → IsSound s
      → Holds IsSound (copy_icv sim dst la_dst la_src from j back i s)
  unfolding copy_icv
  copy_icv-IsSound dst la_dst la_src from j back i s h =
      Holds-bind (λ _. Unit) IsSound (la_to_icv_i sim la_src j from) _ (Holds-any _)
        (λ src_i _.
          Holds-bind FlagsOk IsSound (get_icv s src_i) _ (get_icv-FlagsOk s src_i h) (λ val _.
            Holds-bind (λ _. Unit) IsSound (la_to_icv_i sim la_dst i back) _ (Holds-any _)
              (λ dst_i _.
                store_icv-IsSound s dst_i (dst_to_icv dst i val back)
                  (dst_to_icv-FlagsOk dst i val back) h)))

  copy_icv_loop-IsSound :
      (dst la_dst la_src : ℕ) (back : Bool) (left i : ℕ) (s : Machine)
      → IsSound s
      → Holds IsSound (copy_icv_loop sim dst la_dst la_src back left i s)
  unfolding copy_icv_loop
  copy_icv_loop-IsSound dst la_dst la_src back zero i s h = Holds-some IsSound s h
  copy_icv_loop-IsSound dst la_dst la_src back (suc left) i s h =
      Holds-bind IsSound IsSound (copy_icv sim dst la_dst la_src back i back i s) _
        (copy_icv-IsSound dst la_dst la_src back i back i s h)
        (λ s' h'. copy_icv_loop-IsSound dst la_dst la_src back left (i + 1) s' h')

  pub copy_icvs-IsSound :
      (dst src n : ℕ) (back : Bool) (s : Machine)
      → IsSound s
      → Holds IsSound (copy_icvs sim dst src n back s)
  unfolding copy_icvs
  copy_icvs-IsSound dst src n back s h =
      Holds-bind IsSound₂ IsSound (decode_if_ca dst s) _ (decode_if_ca-IsSound s dst h) (λ d hd.
        Holds-bind IsSound₂ IsSound (decode_if_ca src d.1) _
          (decode_if_ca-IsSound d.1 src (record { map_ok = hd.map_ok }))
          (λ r hr.
            let src_n = slots_of back r.0 n in
            let dst_n = slots_of back d.0 n in
            let turns = if ltb src_n dst_n then src_n else dst_n in
            Holds-bind IsSound IsSound (copy_icv_loop sim dst d.0 r.0 back turns 0 r.1) _
              (copy_icv_loop-IsSound dst d.0 r.0 back turns 0 r.1 (record { map_ok = hr.map_ok }))
              (λ s3 h3.
                if_either (Holds IsSound) (ltb src_n dst_n)
                  (copy_icv sim dst d.0 r.0 (not back) 1 back turns s3) (some s3)
                  (copy_icv-IsSound dst d.0 r.0 (not back) 1 back turns s3 h3)
                  (Holds-some IsSound s3 h3))))
