-- ===== src/Observability/Metrics/Samples.antt =====
-- The samples of a vector.
use verus_gateway.Base.{
  ℕ, ◌+◌, ◌≡◌, refl, Bool, true, some, List, [], ◌∷◌, arith, nat_eq, list_eq, if◌then◌else◌, length,
  every, Bool-cases, inl, inr,
}
use verus_gateway.Base.Bytes.{Str}
use verus_gateway.Base.Utf8.{valid_string}
use verus_gateway.Base.Int.{ℤ, pos, ltb_ℤ}
use verus_gateway.Observability.Metrics.{
  CounterVec, HistogramVec, same_values, sample, add_one, accepts, inc_vec, observe_vec,
  observe_positive,
}

pub same_values_sound : (vs ws : List Str) → same_values vs ws ≡ true → vs ≡ ws
unfolding same_values
same_values_sound [] [] h = refl
same_values_sound [] (w ∷ ws) h = cc
same_values_sound (v ∷ vs) [] h = cc
same_values_sound (v ∷ vs) (w ∷ ws) h = ground (arith, same_values_sound vs ws)

pub same_values_refl : (vs : List Str) → same_values vs vs ≡ true
unfolding same_values
same_values_refl [] = refl
same_values_refl (v ∷ vs) = ground (arith, same_values_refl vs)

abbrev pub one_if : Bool → ℕ
one_if b = if b then 1 else 0

-- `Inc` raises the sample of its label values by one and leaves the others.
pub sample-add_one :
    (asked values : List Str) (samples : List (List Str × ℕ))
    → sample asked (add_one values samples)
      ≡ sample asked samples + one_if (same_values asked values)
unfolding sample add_one
sample-add_one asked values [] = ground arith
sample-add_one asked values ((ws, n) ∷ samples) = ground (
  arith,
  same_values_sound values ws,
  same_values_sound asked values,
  same_values_sound asked ws,
  same_values_refl ws,
  same_values_refl values,
  sample-add_one asked values samples,
)

module _ (values : List Str) (valid : every valid_string values ≡ true) where
  accepts-valid : (labels : List Str) → length values ≡ length labels → accepts values labels ≡ true
  unfolding accepts
  accepts-valid labels h = ground arith

  pub inc_vec-some :
      (v : CounterVec)
      → length values ≡ length v.labels
      → inc_vec values v ≡ some (record v { samples = add_one values v.samples })
  unfolding inc_vec
  inc_vec-some v h = rw (accepts-valid v.labels h) refl

  pub observe_vec-some :
      (x : ℤ) (v : HistogramVec)
      → length values ≡ length v.labels
      → observe_vec values x v ≡ some (record v { observed = (values, x) ∷ v.observed })
  unfolding observe_vec
  observe_vec-some x v h = rw (accepts-valid v.labels h) refl

  pub observe_positive-some :
      (x : ℤ) (v : HistogramVec)
      → length values ≡ length v.labels
      → (v' : HistogramVec) × (observe_positive values x v ≡ some v') × (v'.labels ≡ v.labels)
  unfolding observe_positive
  observe_positive-some x v h = elim (Bool-cases (ltb_ℤ (pos 0) x)) [
    | inl more ↦
        (record v { observed = (values, x) ∷ v.observed }, rw more (observe_vec-some x v h), refl)
    | inr none_left ↦ (v, rw none_left refl, refl)
  ]
