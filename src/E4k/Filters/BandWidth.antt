-- ===== src/E4k/Filters/BandWidth.antt =====
-- e4k_if_filter_bw_set() and e4k_if_filter_bw_get() of rtl-sdr/src/tuner_e4k.c.
use ebc_sdr_native.Prelude.{
  ℕ, ◌*◌, ◌/◌, ◌%◌, ◌^◌, ◌<◌, ◌≡◌, inl, inr, refl, sym, ap, ◌∙◌, arith, bit_and, true, all_below,
  all_below-holds, ==→eq, ◌==◌, get_or, length,
}
use ebc_sdr_native.Prelude.Int.{pos, parts_of_eq}
use ebc_sdr_native.I2c.{I2c}
use ebc_sdr_native.E4k.Closest.{IsNearest, closest_arr_idx-IsNearest}
use ebc_sdr_native.E4k.Regs.{E4kState, RegField, width2mask, field_mask, field_of}
use ebc_sdr_native.E4k.Regs.Masked.{
  IsE4k, store_value, Outcome, field_write-Outcome, field_read_value,
}
use ebc_sdr_native.E4k.Filters.{
  IfFilter, if_filter_bw, if_filter_field, find_if_bw, entry, if_filter_bw_set, if_filter_bw_get,
}

-- the field read back from the byte that its write leaves
abbrev read_back : RegField → ℕ → ℕ → ℕ
read_back f old val =
    bit_and (store_value old (field_mask f) (val % 256 * 2 ^ f.shift % 256) / 2 ^ f.shift)
      (get_or width2mask f.width 0)

read_back-holds :
    (f : RegField) (n : ℕ)
    → all_below 256 (λ old. all_below n (λ val. read_back f old val == val)) ≡ true
    → (old val : ℕ) → old < 256
    → val < n
    → read_back f old val ≡ val
read_back-holds f n table old val h g = ==→eq _ _ (
    all_below-holds n (λ val. read_back f old val == val) val
      (all_below-holds 256 (λ old. all_below n (λ val. read_back f old val == val)) old table h) g)

read_back_val :
    (filter : IfFilter) (old val : ℕ)
    → old < 256
    → val < length (if_filter_bw filter)
    → read_back (if_filter_field filter) old val ≡ val
read_back_val IfFilter.mix old val h g =
    read_back-holds (if_filter_field IfFilter.mix) 16 refl old val h g
read_back_val IfFilter.chan old val h g =
    read_back-holds (if_filter_field IfFilter.chan) 32 refl old val h g
read_back_val IfFilter.rc old val h g =
    read_back-holds (if_filter_field IfFilter.rc) 16 refl old val h g

find_if_bw-IsNearest :
    (filter : IfFilter) (bw : ℕ)
    → bw < 0xffffffff
    → IsNearest bw (if_filter_bw filter) (find_if_bw filter bw)
unfolding find_if_bw
find_if_bw-IsNearest IfFilter.mix bw h = closest_arr_idx-IsNearest bw _ _ h (omega arith)
find_if_bw-IsNearest IfFilter.chan bw h = closest_arr_idx-IsNearest bw _ _ h (omega arith)
find_if_bw-IsNearest IfFilter.rc bw h = closest_arr_idx-IsNearest bw _ _ h (omega arith)

module _ {i : I2c} (c : IsE4k i) where
  -- On a chip on which every selection and read of a register succeeds, while writes may fail: after
  -- the bandwidth of a filter, below 2^32 - 1, is set with success, e4k_if_filter_bw_get() returns
  -- the bandwidth of the first of the table's entries that are nearest to the one asked for, whatever
  -- the register held.
  pub if_filter_bw_get-if_filter_bw_set :
      (filter : IfFilter) (bw : ℕ) (s : E4kState i)
      → bw < 0xffffffff
      → (if_filter_bw_set filter bw s).0 ≡ pos 0
      → (k : ℕ) × (IsNearest bw (if_filter_bw filter) k
          × ((if_filter_bw_get filter (if_filter_bw_set filter bw s).1).0
              ≡ pos (get_or (if_filter_bw filter) k 0)))
  unfolding if_filter_bw_set if_filter_bw_get Outcome
  if_filter_bw_get-if_filter_bw_set filter bw s h e =
      let f = if_filter_field filter in
      let k = find_if_bw filter bw in
      let s' = (if_filter_bw_set filter bw s).1 in
      let near = find_if_bw-IsNearest filter bw h in
      elim (field_write-Outcome c f (k % 256) s) [
        | inl (_, w) ↦ (
          k,
          (
            near,
            ap (entry filter) (field_read_value c f s')
                ∙ ap (λ v. entry filter (field_of f (pos v))) w.value
                ∙ ap (λ n. pos (get_or (if_filter_bw filter) n 0))
                    (read_back_val filter (c.reg s.bus f.reg) k (c.byte s.bus f.reg) near.in_array),
          ),
        )
        | inr d ↦ absurd (ground (arith, parts_of_eq _ _ (sym e ∙ d)))
      ]
