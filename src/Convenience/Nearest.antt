-- ===== src/Convenience/Nearest.antt =====
-- What nearest_gain() of rtl-sdr/src/convenience/convenience.c finds.
use ebc_sdr_native.Prelude.{
  ℕ, zero, suc, ◌≤◌, ◌<◌, ◌≡◌, ◌⊎◌, inl, inr, refl, arith, Bool-cases, List, [], ◌∷◌, ltb, ltb→lt,
  ltb→ge, length, get_or,
}
use ebc_sdr_native.Prelude.Int.{ℤ, pos}
use ebc_sdr_native.Device.{TunerKind}
use ebc_sdr_native.Convenience.{distance, nearest_loop, nearest_of, get_tuner_gains}

-- one of the gains, and no other is nearer
pub record IsNearestGain (target : ℤ) (gains : List ℤ) (g : ℤ) : Type 0 where
  pub listed : (j : ℕ) × ((j < length gains) × (g ≡ get_or gains j (pos 0)))
  pub nearest :
      (j : ℕ) → j < length gains → distance target g ≤ distance target (get_or gains j (pos 0))

-- what the loop comes to, from `start` on
record Reached (target start : ℤ) (gains : List ℤ) (g : ℤ) : Type 0 where
  from : (g ≡ start) ⊎ ((j : ℕ) × ((j < length gains) × (g ≡ get_or gains j (pos 0))))
  not_farther : distance target g ≤ distance target start
  least : (j : ℕ) → j < length gains → distance target g ≤ distance target (get_or gains j (pos 0))

take_it :
    (target start x g : ℤ) (rest : List ℤ)
    → distance target x < distance target start
    → Reached target x rest g
    → Reached target start (x ∷ rest) g
take_it target start x g rest h r = record {
  from = elim r.from [
    | inl e ↦ inr (0, (omega arith, e))
    | inr (j, (b, e)) ↦ inr (suc j, (omega arith, e))
  ];
  not_farther = omega (arith, r.not_farther);
  least = elim [ zero ↦ λ b. r.not_farther | suc j ↦ λ b. r.least j (omega arith) ];
}

pass_by :
    (target start x g : ℤ) (rest : List ℤ)
    → distance target start ≤ distance target x
    → Reached target start rest g
    → Reached target start (x ∷ rest) g
pass_by target start x g rest h r = record {
  from = elim r.from [ inl e ↦ inl e | inr (j, (b, e)) ↦ inr (suc j, (omega arith, e)) ];
  not_farther = r.not_farther;
  least = elim [ zero ↦ λ b. omega (arith, r.not_farther) | suc j ↦ λ b. r.least j (omega arith) ];
}

nearest_loop-Reached :
    (target start : ℤ) (gains : List ℤ)
    → Reached target start gains (nearest_loop target start gains)
unfolding nearest_loop
nearest_loop-Reached target start [] = record {
  from = inl refl;
  not_farther = omega arith;
  least = λ j b. absurd (omega arith);
}
nearest_loop-Reached target start (x ∷ rest) =
    elim (Bool-cases (ltb (distance target x) (distance target start))) [
      | inl e ↦
          rw (e, nearest_loop)
            (take_it target start x _ rest (ltb→lt _ _ e) (nearest_loop-Reached target x rest))
      | inr e ↦
          rw (e, nearest_loop)
            (pass_by target start x _ rest (ltb→ge _ _ e) (nearest_loop-Reached target start rest))
    ]

nearest_of-IsNearestGain :
    (target x : ℤ) (gains : List ℤ)
    → IsNearestGain target (x ∷ gains) (nearest_of target (x ∷ gains))
unfolding nearest_of
nearest_of-IsNearestGain target x gains =
    let r = nearest_loop-Reached target x (x ∷ gains) in
    record { listed = elim r.from [ inl e ↦ (0, (omega arith, e)) | inr l ↦ l ]; nearest = r.least }

-- For every tuner and every target the gain that is found is one that rtlsdr_get_tuner_gains() lists
-- for the tuner, and none that it lists is nearer to the target.
pub nearest_of-get_tuner_gains :
    (target : ℤ) (kind : TunerKind)
    → IsNearestGain target (get_tuner_gains kind) (nearest_of target (get_tuner_gains kind))
unfolding get_tuner_gains
nearest_of-get_tuner_gains target TunerKind.unknown = nearest_of-IsNearestGain target _ _
nearest_of-get_tuner_gains target TunerKind.e4000 = nearest_of-IsNearestGain target _ _
nearest_of-get_tuner_gains target TunerKind.fc0012 = nearest_of-IsNearestGain target _ _
nearest_of-get_tuner_gains target TunerKind.fc0013 = nearest_of-IsNearestGain target _ _
nearest_of-get_tuner_gains target TunerKind.fc2580 = nearest_of-IsNearestGain target _ _
nearest_of-get_tuner_gains target TunerKind.r820t = nearest_of-IsNearestGain target _ _
nearest_of-get_tuner_gains target TunerKind.r828d = nearest_of-IsNearestGain target _ _
