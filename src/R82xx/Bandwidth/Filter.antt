-- ===== src/R82xx/Bandwidth/Filter.antt =====
-- The filters that r82xx_set_bandwidth() of rtl-sdr/src/tuner_r82xx.c chooses for a narrow bandwidth.
use ebc_sdr_native.Prelude.{
  ℕ, zero, suc, ◌+◌, ◌-◌, ◌/◌, ◌%◌, ◌^◌, ◌≤◌, ◌<◌, ◌≡◌, refl, ◌∙◌, ap, bit_or, Bool, true, false,
  List, [], ◌∷◌, arith, Bool-cases, ◌⊎◌, inl, inr, ltb, ltb→lt, ltb→ge, if◌then◌else◌, length,
  get_or, leb, ◌*◌, ◌==◌, ◌&&◌, ge→ltb, lt→ltb,
}
use ebc_sdr_native.Prelude.Bits.{bit_or_step}
use ebc_sdr_native.Prelude.Int.{pos, ◌-ℤ◌, ltb_ℤ}
use native.Mathlib.Numerals.{add-one}
use ebc_sdr_native.R82xx.Tables.{if_low_pass_bw_table}
use ebc_sdr_native.R82xx.Bandwidth.{
  Filters, filt_hp_bw1, filt_hp_bw2, low_pass_loop, low_pass_index, low_pass, high_pass1,
  high_pass2, filters,
}

-- the loop stops at the first entry below `b`
record Stops (b : ℕ) (xs : List ℕ) (n : ℕ) : Type 0 where
  in_table : n ≤ length xs
  above : (j : ℕ) → j < n → b ≤ get_or xs j 0
  below : n < length xs → get_or xs n 0 < b

low_pass_loop-Stops : (b : ℕ) (xs : List ℕ) → Stops b xs (low_pass_loop (pos b) xs)
unfolding low_pass_loop
low_pass_loop-Stops b [] = record {
  in_table = omega arith;
  above = λ j h. absurd (omega arith);
  below = λ h. absurd (omega arith);
}
low_pass_loop-Stops b (x ∷ xs) = elim (Bool-cases (ltb_ℤ (pos x) (pos b))) [
  | inl e ↦ rw e (record {
    in_table = omega arith;
    above = λ j h. absurd (omega arith);
    below = λ h. omega (arith, ltb→lt _ _ e);
  })
  | inr e ↦ rw (e, add-one) (next e (low_pass_loop-Stops b xs))
]
  where
    next :
        ltb_ℤ (pos x) (pos b) ≡ false
        → Stops b xs (low_pass_loop (pos b) xs)
        → Stops b (x ∷ xs) (suc (low_pass_loop (pos b) xs))
    next e s = record {
      in_table = omega (arith, s.in_table);
      above = elim [
        | zero ↦ λ h. omega (arith, ltb→ge _ _ e)
        | suc j ↦ λ h. s.above j (omega arith)
      ];
      below = λ h. s.below (omega arith);
    }

abbrev pub low_pass_bw : ℕ → ℕ
low_pass_bw i = get_or if_low_pass_bw_table i 0

-- For what is at most the widest low-pass filter the index is that of the narrowest filter which is
-- wide enough.
record Narrowest (b i : ℕ) : Type 0 where
  in_table : i ≤ 9
  wide : b ≤ low_pass_bw i
  narrow : (i ≡ 9) ⊎ (low_pass_bw (i + 1) < b)

previous-Narrowest :
    (b n : ℕ)
    → b ≤ 1700000
    → Stops b if_low_pass_bw_table n
    → Narrowest b ((n + 2 ^ 32 - 1) % 2 ^ 32)
previous-Narrowest b zero h s = absurd (omega (arith, s.below (omega arith)))
previous-Narrowest b (suc n) h s =
    let e : (suc n + 2 ^ 32 - 1) % 2 ^ 32 ≡ n = omega (arith, s.in_table) in
    rw e (record {
      in_table = omega (arith, s.in_table);
      wide = s.above n (omega arith);
      narrow = elim (Bool-cases (ltb n 9)) [
        | inl l ↦ inr (rw add-one (s.below (omega (arith, ltb→lt _ _ l))))
        | inr g ↦ inl (omega (arith, ltb→ge _ _ g, s.in_table))
      ];
    })

low_pass_index-Narrowest : (b : ℕ) → b ≤ 1700000 → Narrowest b (low_pass_index (pos b))
unfolding low_pass_index
low_pass_index-Narrowest b h = previous-Narrowest b _ h (low_pass_loop-Stops b if_low_pass_bw_table)

-- the part of the bandwidth that the high-pass filters add
pub high_pass_bw : ℕ → ℕ
high_pass_bw b =
    if ltb 2080000 b
    then 730000
    else if ltb 2050000 b
    then 380000
    else if ltb 1700000 b
    then 350000
    else 0

-- register 0x0b: bits 5 and 6 switch the two high-pass parts off, and the low four bits are 15 less the
-- index of the low-pass filter
abbrev pub high_pass_in : ℕ → ℕ
high_pass_in reg =
    (if reg / 32 % 2 == 0 then filt_hp_bw2 else 0) + (if reg / 64 % 2 == 0 then filt_hp_bw1 else 0)

abbrev pub index_in : ℕ → ℕ
index_in reg = 15 - reg % 16

abbrev pub passband : ℕ → ℕ
passband reg = high_pass_in reg + low_pass_bw (index_in reg)

-- What the value of register 0x0b switches on passes `b`, with the narrowest low-pass filter that does;
-- the intermediate frequency is the middle of that passband below its upper edge; register 0x0a is
-- cleared.
pub record Covers (b : ℕ) (f : Filters) : Type 0 where
  pub coarse : f.reg_0a ≡ 0
  pub high : f.reg_0b / 128 ≡ 1
  pub in_table : index_in f.reg_0b ≤ 9
  pub parts : high_pass_in f.reg_0b ≡ high_pass_bw b
  pub covers : b ≤ passband f.reg_0b
  pub narrowest :
      (index_in f.reg_0b ≡ 9) ⊎ (high_pass_in f.reg_0b + low_pass_bw (index_in f.reg_0b + 1) < b)
  pub centred : f.if_freq + passband f.reg_0b / 2 ≡ 2300000 + high_pass_in f.reg_0b

-- the high-pass bits, before the low-pass ones are set
data HighPass : ℕ → ℕ → Type 0 where
  neither : HighPass 0xe0 0
  first : HighPass 0xa0 350000
  second : HighPass 0xc0 380000
  both : HighPass 0x80 730000

record Reads (reg h i : ℕ) : Type 0 where
  top : bit_or reg (15 - i) / 128 ≡ 1
  parts : high_pass_in (bit_or reg (15 - i)) ≡ h
  index : index_in (bit_or reg (15 - i)) ≡ i

with_low : (m n : ℕ) → bit_or m 0 ≡ m → n < 16 → bit_or (m * 16) n ≡ m * 16 + n
with_low m n z h =
    let e : n / 2 / 2 / 2 / 2 ≡ 0 = omega arith in
    let f : m * 16 / 2 / 2 / 2 / 2 ≡ m = omega arith in
    let last : bit_or (m * 16 / 2 / 2 / 2 / 2) (n / 2 / 2 / 2 / 2) ≡ m = rw (e, f) z in
    omega (
      arith,
      last,
      bit_or_step (m * 16) n,
      bit_or_step (m * 16 / 2) (n / 2),
      bit_or_step (m * 16 / 2 / 2) (n / 2 / 2),
      bit_or_step (m * 16 / 2 / 2 / 2) (n / 2 / 2 / 2),
    )

bits-Reads : {reg h : ℕ} → HighPass reg h → (i : ℕ) → i ≤ 9 → Reads reg h i
bits-Reads neither i k =
    let e : bit_or 0xe0 (15 - i) ≡ 0xe0 + (15 - i) = with_low 14 (15 - i) refl (omega arith) in
    record { top = rw e (omega arith); parts = rw e (ground arith); index = rw e (omega arith) }
bits-Reads first i k =
    let e : bit_or 0xa0 (15 - i) ≡ 0xa0 + (15 - i) = with_low 10 (15 - i) refl (omega arith) in
    record { top = rw e (omega arith); parts = rw e (ground arith); index = rw e (omega arith) }
bits-Reads second i k =
    let e : bit_or 0xc0 (15 - i) ≡ 0xc0 + (15 - i) = with_low 12 (15 - i) refl (omega arith) in
    record { top = rw e (omega arith); parts = rw e (ground arith); index = rw e (omega arith) }
bits-Reads both i k =
    let e : bit_or 0x80 (15 - i) ≡ 0x80 + (15 - i) = with_low 8 (15 - i) refl (omega arith) in
    record { top = rw e (omega arith); parts = rw e (ground arith); index = rw e (omega arith) }

at_most : ℕ → List ℕ → Bool
at_most m [] = true
at_most m (x ∷ xs) = leb x m && at_most m xs

get_or-at_most : (m : ℕ) (xs : List ℕ) (i : ℕ) → at_most m xs ≡ true → get_or xs i 0 ≤ m
unfolding at_most
get_or-at_most m [] i h = omega arith
get_or-at_most m (x ∷ xs) zero h = ground arith
get_or-at_most m (x ∷ xs) (suc i) h = get_or-at_most m xs i (ground arith)

low_pass_bw-small : (i : ℕ) → low_pass_bw i ≤ 1700000
unfolding at_most
low_pass_bw-small i = get_or-at_most 1700000 if_low_pass_bw_table i refl

sub_pos : (a b : ℕ) → b ≤ a → pos a -ℤ pos b ≡ pos (a - b)
unfolding ◌-ℤ◌
sub_pos a b h = ground arith

low_pass-Covers :
    (b rest reg h : ℕ)
    → HighPass reg h
    → h ≡ high_pass_bw b
    → h + rest ≡ b
    → rest ≤ 1700000
    → Covers b (low_pass (pos rest) (2300000 + h) h reg)
unfolding low_pass
low_pass-Covers b rest reg h bits e split le =
    let n = low_pass_index-Narrowest rest le in
    let i = low_pass_index (pos rest) in
    let small = low_pass_bw-small i in
    let r = bits-Reads bits i n.in_table in
    record {
      coarse = refl;
      high = r.top;
      in_table = rw r.index n.in_table;
      parts = r.parts ∙ e;
      covers = rw (r.parts, r.index) (omega (arith, n.wide));
      narrowest =
          rw (r.parts, r.index)
            (elim n.narrow [ inl last ↦ inl last | inr l ↦ inr (omega (arith, l)) ]);
      centred = rw (r.parts, r.index) (omega arith);
    }

pos_lt : (a b : ℕ) → a < b → ltb_ℤ (pos a) (pos b) ≡ true
pos_lt a b h = lt→ltb _ _ (omega arith)

pos_ge : (a b : ℕ) → b ≤ a → ltb_ℤ (pos a) (pos b) ≡ false
pos_ge a b h = ge→ltb _ _ (omega arith)

if_true : {A : Type 0} (c : Bool) (x y : A) → c ≡ true → (if c then x else y) ≡ x
if_true c x y e = rw e refl

if_false : {A : Type 0} (c : Bool) (x y : A) → c ≡ false → (if c then x else y) ≡ y
if_false c x y e = rw e refl

high_pass1-wide :
    (bw f r reg : ℕ)
    → 1700000 < bw
    → high_pass1 (pos bw) f r reg ≡ low_pass (pos (bw - 350000)) (f + 350000) (r + 350000) reg
unfolding high_pass1
high_pass1-wide bw f r reg h =
    if_true _ _ _ (pos_lt 1700000 bw h)
    ∙ ap (λ n. low_pass n (f + 350000) (r + 350000) reg) (sub_pos bw 350000 (omega arith))

high_pass1-narrow :
    (bw f r reg : ℕ)
    → bw ≤ 1700000
    → high_pass1 (pos bw) f r reg ≡ low_pass (pos bw) f r (bit_or reg 0x40)
unfolding high_pass1
high_pass1-narrow bw f r reg h = if_false _ _ _ (pos_ge 1700000 bw h)

high_pass2-wide :
    (bw f r reg : ℕ)
    → 2050000 < bw
    → high_pass2 (pos bw) f r reg ≡ high_pass1 (pos (bw - 380000)) (f + 380000) (r + 380000) reg
unfolding high_pass2
high_pass2-wide bw f r reg h =
    if_true _ _ _ (pos_lt 2050000 bw h)
    ∙ ap (λ n. high_pass1 n (f + 380000) (r + 380000) reg) (sub_pos bw 380000 (omega arith))

high_pass2-narrow :
    (bw f r reg : ℕ)
    → bw ≤ 2050000
    → high_pass2 (pos bw) f r reg ≡ high_pass1 (pos bw) f r (bit_or reg 0x20)
unfolding high_pass2
high_pass2-narrow bw f r reg h = if_false _ _ _ (pos_ge 2050000 bw h)

-- both high-pass tests, for a bandwidth that the low-pass filters take part in
high_pass2-Covers : (b : ℕ) → b ≤ 2430000 → Covers b (high_pass2 (pos b) 2300000 0 0x80)
unfolding high_pass_bw
high_pass2-Covers b h = elim (Bool-cases (ltb 2050000 b)) [
  | inl e1 ↦
      let l1 = ltb→lt _ _ e1 in
      rw (high_pass2-wide b 2300000 0 0x80 l1) (elim (Bool-cases (ltb 2080000 b)) [
        | inl e2 ↦
            let l2 = ltb→lt _ _ e2 in
            rw (high_pass1-wide (b - 380000) 2680000 380000 0x80 (omega arith)) (
              low_pass-Covers b (b - 380000 - 350000) _ 730000 both (rw e2 refl) (omega arith)
                (omega arith))
        | inr e2 ↦
            let l2 = ltb→ge _ _ e2 in
            rw (high_pass1-narrow (b - 380000) 2680000 380000 0x80 (omega arith)) (
              low_pass-Covers b (b - 380000) _ 380000 second (rw (e2, e1) refl) (omega arith)
                (omega arith))
      ])
  | inr e1 ↦
      let l1 = ltb→ge _ _ e1 in
      rw (high_pass2-narrow b 2300000 0 0x80 l1) (elim (Bool-cases (ltb 1700000 b)) [
        | inl e2 ↦
            let l2 = ltb→lt _ _ e2 in
            rw (high_pass1-wide b 2300000 0 (bit_or 0x80 0x20) l2) (
              low_pass-Covers b (b - 350000) _ 350000 first
                (rw (ge→ltb 2080000 b (omega arith), e1, e2) refl) (omega arith) (omega arith))
        | inr e2 ↦
            let l2 = ltb→ge _ _ e2 in
            rw (high_pass1-narrow b 2300000 0 (bit_or 0x80 0x20) l2) (
              low_pass-Covers b b _ 0 neither (rw (ge→ltb 2080000 b (omega arith), e1, e2) refl)
                (omega arith) l2)
      ])
]

high_pass2-filters : (b : ℕ) → b ≤ 2430000 → filters (pos b) ≡ high_pass2 (pos b) 2300000 0 0x80
unfolding filters
high_pass2-filters b h =
    if_false _ _ _ (pos_ge 7000000 b (omega arith))
    ∙ if_false _ _ _ (pos_ge 6000000 b (omega arith))
    ∙ if_false _ _ _ (pos_ge 2430000 b h)

-- Up to 2.43 MHz the bits that r82xx_set_bandwidth() computes for register 0x0b switch on high-pass
-- parts and a low-pass filter whose bandwidths together are at least what is asked for, with the
-- narrowest low-pass filter that does, never from outside its table; and the intermediate frequency
-- is centred on that passband.
pub filters-Covers : (b : ℕ) → b ≤ 2430000 → Covers b (filters (pos b))
filters-Covers b h = rw (high_pass2-filters b h) (high_pass2-Covers b h)
