-- ===== src/Device/Search/Selected.antt =====
-- Which device rtlsdr_open() of rtl-sdr/src/librtlsdr.c selects.
use ebc_sdr_native.Prelude.{
  ℕ, zero, suc, ◌+◌, ◌<◌, ◌≡◌, refl, sym, ap, ◌∙◌, arith, true, false, Bool-cases, inl, inr, Option,
  none, some, List, [], ◌∷◌, ◌==◌, eq→==, ne→==,
}
use ebc_sdr_native.Device.Search.{Ids, is_known, count_one, minus_one, select_loop, select_device}

-- the position of the device that has `left` known ones before it, from position `i` on
unfoldable pub nth_known : ℕ → List Ids → ℕ → Option ℕ
unfolding is_known
nth_known i [] left = none
nth_known i (ids ∷ rest) left = elim (is_known ids) [
  | false ↦ nth_known (suc i) rest left
  | true ↦ elim left [ zero ↦ some i | suc less ↦ nth_known (suc i) rest less ]
]

pub known_here :
    (i : ℕ) (ids : Ids) (rest : List Ids)
    → is_known ids ≡ true
    → nth_known i (ids ∷ rest) 0 ≡ some i
unfolding nth_known
known_here i ids rest e = rw (e, nth_known) refl

pub known_later :
    (i : ℕ) (ids : Ids) (rest : List Ids) (left : ℕ)
    → is_known ids ≡ true
    → nth_known i (ids ∷ rest) (suc left) ≡ nth_known (suc i) rest left
unfolding nth_known
known_later i ids rest left e = rw (e, nth_known) refl

pub unknown_here :
    (i : ℕ) (ids : Ids) (rest : List Ids) (left : ℕ)
    → is_known ids ≡ false
    → nth_known i (ids ∷ rest) left ≡ nth_known (suc i) rest left
unfolding nth_known
unknown_here i ids rest left e = rw (e, nth_known) refl

-- one round of the loop
select_here :
    (index i : ℕ) (ids : Ids) (rest : List Ids) (count : ℕ)
    → index ≡ minus_one (count_one ids count)
    → select_loop index i (ids ∷ rest) count ≡ some i
unfolding select_loop
select_here index i ids rest count e =
    let test = eq→== index (minus_one (count_one ids count)) e in rw (test, select_loop) refl

select_later :
    (index i : ℕ) (ids : Ids) (rest : List Ids) (count : ℕ)
    → (index == minus_one (count_one ids count)) ≡ false
    → select_loop index i (ids ∷ rest) count ≡ select_loop index (suc i) rest (count_one ids count)
unfolding select_loop
select_later index i ids rest count e = rw (e, select_loop) refl

pub count_known :
    (ids : Ids) (count : ℕ)
    → is_known ids ≡ true
    → count < 4294967295
    → count_one ids count ≡ count + 1
count_known ids count e h = rw e (omega arith)

pub count_unknown : (ids : Ids) (count : ℕ) → is_known ids ≡ false → count_one ids count ≡ count
count_unknown ids count e = rw e refl

none_left : (index i left count : ℕ) → select_loop index i [] count ≡ nth_known i [] left
unfolding select_loop nth_known
none_left index i left count = refl

select_loop-nth_known :
    (left index i : ℕ) (devices : List Ids) (count : ℕ)
    → index ≡ count + left
    → index < 4294967295
    → select_loop index i devices count ≡ nth_known i devices left
select_loop-nth_known left index i [] count e h = none_left index i left count
select_loop-nth_known zero index i (ids ∷ rest) count e h = elim (Bool-cases (is_known ids)) [
  | inr u ↦
      let same = count_unknown ids count u in
      let other =
        ne→== index (minus_one (count_one ids count)) (λ q. omega (arith, q, ap minus_one same)) in
      select_later index i ids rest count other
      ∙ ap (select_loop index (suc i) rest) same
      ∙ select_loop-nth_known zero index (suc i) rest count e h
      ∙ sym (unknown_here i ids rest zero u)
  | inl u ↦
      let more = count_known ids count u (omega arith) in
      select_here index i ids rest count (omega (arith, ap minus_one more))
      ∙ sym (known_here i ids rest u)
]
select_loop-nth_known (suc left) index i (ids ∷ rest) count e h = elim (Bool-cases (is_known ids)) [
  | inr u ↦
      let same = count_unknown ids count u in
      let other =
        ne→== index (minus_one (count_one ids count)) (λ q. omega (arith, q, ap minus_one same)) in
      select_later index i ids rest count other
      ∙ ap (select_loop index (suc i) rest) same
      ∙ select_loop-nth_known (suc left) index (suc i) rest count e h
      ∙ sym (unknown_here i ids rest (suc left) u)
  | inl u ↦
      let more = count_known ids count u (omega arith) in
      let other =
        ne→== index (minus_one (count_one ids count)) (λ q. omega (arith, q, ap minus_one more)) in
      select_later index i ids rest count other
      ∙ ap (select_loop index (suc i) rest) more
      ∙ select_loop-nth_known left index (suc i) rest (count + 1) (omega arith) h
      ∙ sym (known_later i ids rest left u)
]

-- For every index below 2^32 - 1 the loop of rtlsdr_open() takes the device of the list that has just
-- `index` known devices before it and is known itself, or none if there is none.
pub select_device-nth_known :
    (index : ℕ) (devices : List Ids)
    → index < 4294967295
    → select_device index devices ≡ nth_known 0 devices index
unfolding select_device
select_device-nth_known index devices h =
    select_loop-nth_known index index 0 devices 0 (omega arith) h
