-- ===== src/Sessions/Dead.antt =====
-- A family that is revoked stays so, whatever requests follow.
use mathlib.Core.Path.{subst}
use polyglot_commerce.Prelude.{
  ◌≡◌, refl, ◌∙◌, sym, ap, ℤ, String, Bool, true, false, not, ◌&&◌, Option, none, some, List, [],
  ◌∷◌, ◌++◌, arith, ◌==◌, find, any, update_where, any-append, any-update_where, Bool-cases, inl,
  inr,
}
use polyglot_commerce.Errors.{unauthorized}
use polyglot_commerce.Store.{Uuid, RefreshRow, Db, err}
use polyglot_commerce.Accounts.{is_token, in_family, used_up, withdrawn, get_refresh}
use polyglot_commerce.Sessions.{Server, Draw, refresh, rotate_row}
use polyglot_commerce.Sessions.Issue.{issued_row}
use polyglot_commerce.Sessions.Refreshed.{Names, revoked_all, refresh-Names, rotate_found}
use polyglot_commerce.Sessions.Given.{family_is, AreStored, AreStored-withdrawn}
use polyglot_commerce.Sessions.Service.{Service, IsGiven, AllGiven, Reach, here, next}
use polyglot_commerce.Sessions.Effect.{
  Effect, IsOfGiven, unchanged, minted, rotated, revoked, Step-Effect,
}
use polyglot_commerce.Sessions.Stored.{same_family, Reach-AreStored}

-- Of the family, and not revoked.
abbrev pub is_open : Uuid → RefreshRow → Bool
is_open family t = t.family == family && not t.revoked

-- The family has tokens, and all are revoked.
abbrev pub IsDead : Uuid → List RefreshRow → Type 0
IsDead family ts = (any (in_family family) ts ≡ true) × (any (is_open family) ts ≡ false)

module _ (family : Uuid) where
  IsDead-snoc :
      (ts : List RefreshRow) (t : RefreshRow)
      → (t.family == family) ≡ false
      → IsDead family ts
      → IsDead family (ts ++ t ∷ [])
  IsDead-snoc ts t other d =
      ground
        (arith, any-append (in_family family) ts (t ∷ []), any-append (is_open family) ts (t ∷ []))

  IsDead-used_up :
      (jti : Uuid) (ts : List RefreshRow)
      → IsDead family ts
      → IsDead family (update_where (is_token jti) used_up ts)
  IsDead-used_up jti ts d = (
    any-update_where (in_family family) (is_token jti) used_up ts (λ t. refl) ∙ d.0,
    any-update_where (is_open family) (is_token jti) used_up ts (λ t. refl) ∙ d.1,
  )

  closed-withdrawn :
      (f : Uuid) (ts : List RefreshRow)
      → any (is_open family) ts ≡ false
      → any (is_open family) (update_where (in_family f) withdrawn ts) ≡ false
  closed-withdrawn f [] h = refl
  closed-withdrawn f (t ∷ ts) h = ground (arith, closed-withdrawn f ts)

  pub IsDead-withdrawn :
      (f : Uuid) (ts : List RefreshRow)
      → IsDead family ts
      → IsDead family (update_where (in_family f) withdrawn ts)
  IsDead-withdrawn f ts d = (
    any-update_where (in_family family) (in_family f) withdrawn ts (λ t. refl) ∙ d.0,
    closed-withdrawn f ts d.1,
  )

  -- Revoking a family leaves none of its tokens open.
  pub closed-revoked :
      (ts : List RefreshRow)
      → any (is_open family) (update_where (in_family family) withdrawn ts) ≡ false
  closed-revoked [] = refl
  closed-revoked (t ∷ ts) = ground (arith, closed-revoked ts)

  -- A family without a token is another one.
  IsDead-ne :
      (f : Uuid) (ts : List RefreshRow)
      → any (in_family f) ts ≡ false
      → any (in_family family) ts ≡ true
      → (f == family) ≡ false
  IsDead-ne f [] new d = ground arith
  IsDead-ne f (t ∷ ts) new d = ground (arith, IsDead-ne f ts)

  -- A row of a dead family is revoked.
  found-revoked :
      (jti : Uuid) (ts : List RefreshRow) {row : RefreshRow}
      → any (is_open family) ts ≡ false
      → find (is_token jti) ts ≡ some row
      → (row.family == family) ≡ true
      → row.revoked ≡ true
  found-revoked jti [] d found same = ground arith
  found-revoked jti (t ∷ ts) {row} d found same = ground (arith, found-revoked jti ts {row = row})

module _ {Salt Parsed : Type 0} (st : Server Salt Parsed) (family : Uuid) where
  IsDead-eq :
      (ts : List RefreshRow) {us : List RefreshRow} → us ≡ ts → IsDead family ts → IsDead family us
  IsDead-eq ts e d = subst (IsDead family) (sym e) d

  -- A rotation takes a token that is open, so not one of a dead family.
  Effect-IsDead :
      {s t : Service} (eff : Effect st s t)
      → IsOfGiven st eff
      → AreStored s.given s.db.refresh_tokens
      → IsDead family s.db.refresh_tokens
      → IsDead family t.db.refresh_tokens
  Effect-IsDead {s} (unchanged same given) ok v d =
      IsDead-eq s.db.refresh_tokens (ap (λ (u : Db). u.refresh_tokens) same) d
  Effect-IsDead {s} (minted draw user f new m given) ok v d =
      IsDead-eq (s.db.refresh_tokens ++ issued_row st draw user f ∷ []) m.tokens (
        IsDead-snoc family s.db.refresh_tokens (issued_row st draw user f)
          (IsDead-ne family f s.db.refresh_tokens new d.0) d)
  Effect-IsDead {s} (rotated draw jti f answer done given) is_given v d =
      let rows = update_where (is_token jti) used_up s.db.refresh_tokens in
      IsDead-eq (rows ++ issued_row st draw done.row.user_id f ∷ [])
        (ap (λ (u : Db). u.refresh_tokens) done.issued.after)
        (IsDead-snoc family rows (issued_row st draw done.row.user_id f)
          (not_dead (same_family st s {draw = draw} done v is_given))
          (IsDead-used_up family jti s.db.refresh_tokens d))
    where
      not_dead : (done.row.family == f) ≡ true → (f == family) ≡ false
      not_dead same = elim (Bool-cases (f == family)) [
        | inl dead ↦ absurd (
            ground (
              arith,
              same,
              dead,
              done.live,
              found-revoked family jti s.db.refresh_tokens {row = done.row} d.1 done.found,
            ))
        | inr other ↦ other
      ]
  Effect-IsDead {s} (revoked f gone given) ok v d =
      IsDead-eq (update_where (in_family f) withdrawn s.db.refresh_tokens)
        (ap (λ (u : Db). u.refresh_tokens) gone) (IsDead-withdrawn family f s.db.refresh_tokens d)

  Reach-IsDead :
      {s t : Service} (r : Reach st s t)
      → AllGiven st r
      → AreStored s.given s.db.refresh_tokens
      → IsDead family s.db.refresh_tokens
      → IsDead family t.db.refresh_tokens
  Reach-IsDead here all v d = d
  Reach-IsDead (next r step) (before, now) v d =
      let (eff, ofs) = Step-Effect st step in
      Effect-IsDead eff (ofs now) (Reach-AreStored st r v) (Reach-IsDead r before v d)

  refused :
      (draw : Draw) (jti : Uuid) (found : Option RefreshRow) (s : Db)
      → family_is family found ≡ true
      → ((row : RefreshRow) → found ≡ some row → row.revoked ≡ true)
      → rotate_found st draw jti family found s ≡ (err unauthorized, s)
  unfolding rotate_row
  refused draw jti none s known all = ground arith
  refused draw jti (some row) s known all = rw (all row refl) refl

  -- Once a family that has tokens is revoked, by a logout or after a token was used twice, and with
  -- whatever tokens of it live until then, whatever requests to register, log in, refresh and log
  -- out follow, each handled whole before the next: a refresh with any token of the family that was
  -- answered before and is accepted is refused and changes nothing. This is so if every token that
  -- was answered before the revocation is stored with the family it carries, if each family that is
  -- drawn after it is new, and if every refresh token that is accepted after it had been answered,
  -- so that none was forged.
  pub refresh-Reach :
      (s : Service) {t : Service} (draw : Draw) (now : ℤ) {token : String} {jti : Uuid}
      (r : Reach st (record s { db = revoked_all st family s.db }) t)
      → AllGiven st r
      → AreStored s.given s.db.refresh_tokens
      → any (in_family family) s.db.refresh_tokens ≡ true
      → Names st now token jti family
      → IsGiven jti family t
      → refresh st draw now token t.db ≡ (err unauthorized, t.db)
  unfolding get_refresh
  refresh-Reach s {t} draw now {token} {jti} r all v known n given =
      let start = AreStored-withdrawn s.given s.db.refresh_tokens v family in
      let dead = Reach-IsDead r all start (
        any-update_where (in_family family) (in_family family) withdrawn s.db.refresh_tokens
              (λ x. refl)
            ∙ known,
        closed-revoked family s.db.refresh_tokens,
      ) in
      let stored = Reach-AreStored st r start jti family given in
      refresh-Names st draw now t.db n
      ∙ refused draw jti (find (is_token jti) t.db.refresh_tokens) t.db stored (λ row found.
        found-revoked family jti t.db.refresh_tokens {row = row} dead.1 found
          (ap (family_is family) (sym found) ∙ stored))
