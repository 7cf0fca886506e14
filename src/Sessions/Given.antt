-- ===== src/Sessions/Given.antt =====
-- Each token that was answered is stored with the family that it carries, through what the statements
-- on the table of refresh tokens do.
use polyglot_commerce.Prelude.{
  ◌≡◌, refl, ◌∙◌, Bool, true, false, ◌&&◌, Option, none, some, List, [], ◌∷◌, ◌++◌, arith, ◌==◌,
  find, any, update_where, Bool-cases, inl, inr,
}
use polyglot_commerce.Store.{Uuid, RefreshRow}
use polyglot_commerce.Accounts.{is_token, in_family, used_up, withdrawn}
use polyglot_commerce.Sessions.Service.{is_pair}

-- A row was found, and it is of the family.
abbrev pub family_is : Uuid → Option RefreshRow → Bool
family_is family none = false
family_is family (some t) = t.family == family

-- Each pair is that of a stored row.
abbrev pub AreStored : List (Uuid × Uuid) → List RefreshRow → Type 0
AreStored given ts =
    (jti family : Uuid)
    → any (is_pair jti family) given ≡ true
    → family_is family (find (is_token jti) ts) ≡ true

module _ (family jti : Uuid) where
  family_is-append :
      (ts us : List RefreshRow)
      → family_is family (find (is_token jti) ts) ≡ true
      → family_is family (find (is_token jti) (ts ++ us)) ≡ true
  family_is-append [] us h = ground arith
  family_is-append (t ∷ ts) us h = ground (arith, family_is-append ts us)

  family_is-used_up :
      (k : Uuid) (ts : List RefreshRow)
      → family_is family (find (is_token jti) (update_where (is_token k) used_up ts))
        ≡ family_is family (find (is_token jti) ts)
  family_is-used_up k [] = refl
  family_is-used_up k (t ∷ ts) = ground (arith, family_is-used_up k ts)

  family_is-withdrawn :
      (f : Uuid) (ts : List RefreshRow)
      → family_is family (find (is_token jti) (update_where (in_family f) withdrawn ts))
        ≡ family_is family (find (is_token jti) ts)
  family_is-withdrawn f [] = refl
  family_is-withdrawn f (t ∷ ts) = ground (arith, family_is-withdrawn f ts)

  family_is-last :
      (ts : List RefreshRow) (t : RefreshRow)
      → any (is_token t.jti) ts ≡ false
      → (t.jti == jti && t.family == family) ≡ true
      → family_is family (find (is_token jti) (ts ++ t ∷ [])) ≡ true
  family_is-last [] t h e = ground arith
  family_is-last (u ∷ ts) t h e = ground (arith, family_is-last ts t)

module _ (given : List (Uuid × Uuid)) (ts : List RefreshRow) (all : AreStored given ts) where
  pub AreStored-snoc :
      (t : RefreshRow)
      → any (is_token t.jti) ts ≡ false
      → AreStored ((t.jti, t.family) ∷ given) (ts ++ t ∷ [])
  AreStored-snoc t fresh jti family h = elim (Bool-cases (t.jti == jti && t.family == family)) [
    | inl this ↦ family_is-last family jti ts t fresh this
    | inr other ↦ family_is-append family jti ts (t ∷ []) (all jti family (rw other at h))
  ]

  pub AreStored-used_up : (k : Uuid) → AreStored given (update_where (is_token k) used_up ts)
  AreStored-used_up k jti family h = family_is-used_up family jti k ts ∙ all jti family h

  pub AreStored-withdrawn : (f : Uuid) → AreStored given (update_where (in_family f) withdrawn ts)
  AreStored-withdrawn f jti family h = family_is-withdrawn family jti f ts ∙ all jti family h
