-- ===== src/Sessions/Stored.antt =====
-- The tokens that were answered stay stored with the families that they carry, however many of them
-- are live.
use mathlib.Core.Path.{subst}
use polyglot_commerce.Prelude.{◌≡◌, ◌∙◌, sym, ap, true, List, ◌==◌, update_where}
use polyglot_commerce.Store.{Uuid, RefreshRow, Db}
use polyglot_commerce.Accounts.{is_token, used_up}
use polyglot_commerce.Sessions.{Server, Draw, TokenResponse}
use polyglot_commerce.Sessions.Issue.{issued_row}
use polyglot_commerce.Sessions.Refreshed.{Rotated}
use polyglot_commerce.Sessions.Given.{
  family_is, AreStored, AreStored-snoc, AreStored-used_up, AreStored-withdrawn,
}
use polyglot_commerce.Sessions.Service.{Service, IsGiven, Reach, here, next}
use polyglot_commerce.Sessions.Effect.{Effect, unchanged, minted, rotated, revoked, Step-Effect}

AreStored-eq :
    {given given' : List (Uuid × Uuid)} {ts ts' : List RefreshRow}
    → given' ≡ given
    → ts' ≡ ts
    → AreStored given ts
    → AreStored given' ts'
AreStored-eq {given} {given'} {ts} {ts'} g e v =
    subst (λ (h : List (Uuid × Uuid)). AreStored h ts') (sym g)
      (subst (λ (us : List RefreshRow). AreStored given us) (sym e) v)

module _ {Salt Parsed : Type 0} (st : Server Salt Parsed) where
  -- The row that a refresh takes is of the family that the token carries.
  pub same_family :
      (s : Service) {draw : Draw} {jti family : Uuid} {answer : TokenResponse} {s' : Db}
      (done : Rotated st draw jti family s.db answer s')
      → AreStored s.given s.db.refresh_tokens
      → IsGiven jti family s
      → (done.row.family == family) ≡ true
  same_family s {jti = jti} {family = family} done stored given =
      ap (family_is family) (sym done.found) ∙ stored jti family given

  Effect-AreStored :
      {s t : Service}
      → Effect st s t
      → AreStored s.given s.db.refresh_tokens
      → AreStored t.given t.db.refresh_tokens
  Effect-AreStored {s} {t} (unchanged same given) v =
      AreStored-eq given (ap (λ (d : Db). d.refresh_tokens) same) v
  Effect-AreStored {s} {t} (minted draw user family new m given) v =
      AreStored-eq given m.tokens
        (AreStored-snoc s.given s.db.refresh_tokens v (issued_row st draw user family) m.fresh)
  Effect-AreStored {s} {t} (rotated draw jti family answer done given) v =
      let rows = update_where (is_token jti) used_up s.db.refresh_tokens in
      AreStored-eq given (ap (λ (d : Db). d.refresh_tokens) done.issued.after) (
        AreStored-snoc s.given rows (AreStored-used_up s.given s.db.refresh_tokens v jti)
          (issued_row st draw done.row.user_id family) done.issued.fresh)
  Effect-AreStored {s} {t} (revoked family gone given) v =
      AreStored-eq given (ap (λ (d : Db). d.refresh_tokens) gone)
        (AreStored-withdrawn s.given s.db.refresh_tokens v family)

  pub Reach-AreStored :
      {s t : Service}
      → Reach st s t
      → AreStored s.given s.db.refresh_tokens
      → AreStored t.given t.db.refresh_tokens
  Reach-AreStored here v = v
  Reach-AreStored (next r step) v = Effect-AreStored (Step-Effect st step).0 (Reach-AreStored r v)
