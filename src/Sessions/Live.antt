-- ===== src/Sessions/Live.antt =====
-- The table of refresh tokens: the live tokens of a family, and what the statements on the table do
-- to their number.
use polyglot_commerce.Prelude.{
  ℕ, ◌+◌, ◌≤◌, ◌≡◌, refl, Bool, true, false, not, ◌&&◌, some, List, [], ◌∷◌, ◌++◌, arith, ◌==◌,
  find, any, sum_by, sum_by-append, update_where,
}
use polyglot_commerce.Store.{Uuid, RefreshRow}
use polyglot_commerce.Accounts.{is_token, in_family, used_up, withdrawn}

-- Neither used nor revoked, and of the family.
abbrev pub is_live : Uuid → RefreshRow → Bool
is_live family t = t.family == family && not t.used && not t.revoked

abbrev one_if : Bool → ℕ
one_if true = 1
one_if false = 0

-- The live tokens of a family, counted.
abbrev pub live : Uuid → List RefreshRow → ℕ
live family = sum_by (λ t. one_if (is_live family t))

module _ (family : Uuid) where
  pub live-snoc :
      (ts : List RefreshRow) (t : RefreshRow)
      → live family (ts ++ t ∷ []) ≤ live family ts + one_if (t.family == family)
  live-snoc ts t = ground (arith, sum_by-append (λ t. one_if (is_live family t)) ts (t ∷ []))

  pub live-new : (ts : List RefreshRow) → any (in_family family) ts ≡ false → live family ts ≡ 0
  live-new [] h = refl
  live-new (t ∷ ts) h = ground (arith, live-new ts)

  pub live-used_up :
      (jti : Uuid) (ts : List RefreshRow)
      → live family (update_where (is_token jti) used_up ts) ≤ live family ts
  live-used_up jti [] = omega arith
  live-used_up jti (t ∷ ts) = ground (arith, live-used_up jti ts)

  pub live-withdrawn :
      (f : Uuid) (ts : List RefreshRow)
      → live family (update_where (in_family f) withdrawn ts) ≤ live family ts
  live-withdrawn f [] = omega arith
  live-withdrawn f (t ∷ ts) = ground (arith, live-withdrawn f ts)

  -- A live token that is marked as used is live no more.
  pub live-used_up-found :
      (jti : Uuid) (ts : List RefreshRow) {row : RefreshRow}
      → find (is_token jti) ts ≡ some row
      → is_live family row ≡ true
      → live family (update_where (is_token jti) used_up ts) + 1 ≤ live family ts
  live-used_up-found jti [] h l = ground arith
  live-used_up-found jti (t ∷ ts) {row} h l =
      ground (arith, live-used_up jti ts, live-used_up-found jti ts {row = row})
