-- ===== src/Telemetry/Series.antt =====
-- The series of a counter through an increment.
use polyglot_commerce.Prelude.{
  ℕ, ◌+◌, ◌≡◌, ap, eq_iff, Bool, true, List, [], ◌∷◌, arith, if◌then◌else◌, length, any, sum_by,
  Bool-cases, inl, inr,
}
use polyglot_commerce.Telemetry.{Labels, same_labels, increment}

-- The value of a counter at some labels.
abbrev pub value_at : Labels → List (Labels × ℕ) → ℕ
value_at k [] = 0
value_at k ((l, n) ∷ series) = let rest = value_at k series in if same_labels k l then n else rest

-- All series of the counter together.
abbrev pub total : List (Labels × ℕ) → ℕ
total = sum_by (λ (e : Labels × ℕ). e.1)

abbrev pub has_series : Labels → List (Labels × ℕ) → Bool
has_series k = any (λ (e : Labels × ℕ). same_labels k e.0)

pub total-increment :
    (k : Labels) (series : List (Labels × ℕ)) → total (increment k series) ≡ total series + 1
unfolding increment
total-increment k [] = omega arith
total-increment k ((l, n) ∷ series) = ground (arith, total-increment k series)

same_labels-eq : (k l : Labels) → same_labels k l ≡ true → k ≡ l
unfolding same_labels
same_labels-eq k l h =
    ground (arith, h, eq_iff k.method l.method, eq_iff k.path l.path, eq_iff k.status l.status)

pub value_at-increment :
    (j k : Labels) (series : List (Labels × ℕ))
    → value_at j (increment k series) ≡ value_at j series + (if same_labels j k then 1 else 0)
unfolding increment
value_at-increment j k [] = ground arith
value_at-increment j k ((l, n) ∷ series) = elim (Bool-cases (same_labels k l)) [
  | inl hit ↦
      let e : same_labels j k ≡ same_labels j l = ap (same_labels j) (same_labels-eq k l hit) in
      ground (arith, hit, e)
  | inr miss ↦ elim (Bool-cases (same_labels j k)) [
    | inl same ↦
        let e : same_labels j l ≡ same_labels k l =
          ap (λ (i : Labels). same_labels i l) (same_labels-eq j k same) in
        ground (arith, miss, e, value_at-increment j k series)
    | inr other ↦ ground (arith, miss, other, value_at-increment j k series)
  ]
]

-- A label that no series has makes one more of them.
pub length-increment :
    (k : Labels) (series : List (Labels × ℕ))
    → length (increment k series) ≡ length series + (if has_series k series then 0 else 1)
unfolding increment
length-increment k [] = omega arith
length-increment k ((l, n) ∷ series) = ground (arith, length-increment k series)
