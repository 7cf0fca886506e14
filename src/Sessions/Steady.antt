-- ===== src/Sessions/Steady.antt =====
-- What stays true however the requests follow one another: one live token in a family at most.
use mathlib.Core.Path.{subst}
use polyglot_commerce.Prelude.{
  ◌≤◌, ◌≡◌, sym, ap, false, List, [], ◌∷◌, ◌++◌, arith, ◌==◌, any, update_where, Bool-cases, inl,
  inr,
}
use polyglot_commerce.Store.{Uuid, RefreshRow, Db}
use polyglot_commerce.Accounts.{is_token, in_family, used_up, withdrawn}
use polyglot_commerce.Sessions.{Server, Draw, TokenResponse}
use polyglot_commerce.Sessions.Issue.{issued_row}
use polyglot_commerce.Sessions.Refreshed.{Rotated, revoked_all}
use polyglot_commerce.Sessions.Live.{
  live, live-snoc, live-new, live-used_up, live-used_up-found, live-withdrawn,
}
use polyglot_commerce.Sessions.Given.{
  AreStored, AreStored-snoc, AreStored-used_up, AreStored-withdrawn,
}
use polyglot_commerce.Sessions.Stored.{same_family}
use polyglot_commerce.Sessions.Service.{Service, is_pair, IsGiven, AllGiven, Reach, here, next}
use polyglot_commerce.Sessions.Effect.{
  Effect, IsOfGiven, unchanged, minted, rotated, revoked, Step-Effect,
}

record IsSound (given : List (Uuid × Uuid)) (ts : List RefreshRow) : Type 0 where
  one_live : (family : Uuid) → live family ts ≤ 1
  stored : AreStored given ts

IsSound-withdrawn :
    (given : List (Uuid × Uuid)) (ts : List RefreshRow) (family : Uuid)
    → IsSound given ts
    → IsSound given (update_where (in_family family) withdrawn ts)
IsSound-withdrawn given ts family v = record {
  one_live = λ f. omega (arith, live-withdrawn f family ts, v.one_live f);
  stored = AreStored-withdrawn given ts v.stored family;
}

-- A new token of a family that has no live one.
IsSound-snoc :
    (given : List (Uuid × Uuid)) (ts : List RefreshRow) (t : RefreshRow)
    → IsSound given ts
    → any (is_token t.jti) ts ≡ false
    → live t.family ts ≡ 0
    → IsSound ((t.jti, t.family) ∷ given) (ts ++ t ∷ [])
IsSound-snoc given ts t v fresh none_live = record {
  one_live = λ f. elim (Bool-cases (t.family == f)) [
    | inl same ↦
        let e : t.family ≡ f = ground (arith, same) in
        ground (arith, live-snoc f ts t, subst (λ (k : Uuid). live k ts ≡ 0) e none_live)
    | inr other ↦ ground (arith, live-snoc f ts t, v.one_live f)
  ];
  stored = AreStored-snoc given ts v.stored t fresh;
}

IsSound-used_up :
    (given : List (Uuid × Uuid)) (ts : List RefreshRow) (jti : Uuid)
    → IsSound given ts
    → IsSound given (update_where (is_token jti) used_up ts)
IsSound-used_up given ts jti v = record {
  one_live = λ f. omega (arith, live-used_up f jti ts, v.one_live f);
  stored = AreStored-used_up given ts v.stored jti;
}

IsSound-eq :
    (given : List (Uuid × Uuid)) (s : Db) {s' : Db}
    → s' ≡ s
    → IsSound given s.refresh_tokens
    → IsSound given s'.refresh_tokens
IsSound-eq given s e v = subst (λ (t : Db). IsSound given t.refresh_tokens) (sym e) v

abbrev IsSteady : Service → Type 0
IsSteady s = IsSound s.given s.db.refresh_tokens

IsSteady-empty : (s : Service) → s.db.refresh_tokens ≡ [] → s.given ≡ [] → IsSteady s
IsSteady-empty s no_tokens none_given = record {
  one_live = λ f. ground (arith, ap (live f) no_tokens);
  stored = λ jti family h. absurd (ground (arith, ap (any (is_pair jti family)) none_given, h));
}

module _ {Salt Parsed : Type 0} (st : Server Salt Parsed) where
  module _ {draw : Draw} {jti family : Uuid} {s : Service} {answer : TokenResponse} {s' : Db}
      (done : Rotated st draw jti family s.db answer s') (v : IsSteady s) where
    IsSound-Rotated :
        IsGiven jti family s → IsSound ((draw.refresh_jti, family) ∷ s.given) s'.refresh_tokens
    IsSound-Rotated given =
        let rows = update_where (is_token jti) used_up s.db.refresh_tokens in
        let fewer = live-used_up-found family jti s.db.refresh_tokens {row = done.row} done.found (
          ground
            (arith, same_family st s {draw = draw} done v.stored given, done.unused, done.live)) in
        IsSound-eq ((draw.refresh_jti, family) ∷ s.given)
          (record s.db { refresh_tokens = rows ++ issued_row st draw done.row.user_id family ∷ [] })
          done.issued.after
          (IsSound-snoc s.given rows (issued_row st draw done.row.user_id family)
            (IsSound-used_up s.given s.db.refresh_tokens jti v) done.issued.fresh
            (omega (arith, fewer, v.one_live family)))

  given_as :
      (t : Service) (given : List (Uuid × Uuid))
      → t.given ≡ given
      → IsSound given t.db.refresh_tokens
      → IsSteady t
  given_as t given e v = subst (λ (g : List (Uuid × Uuid)). IsSound g t.db.refresh_tokens) (sym e) v

  Effect-IsSteady :
      {s t : Service} (eff : Effect st s t) → IsOfGiven st eff → IsSteady s → IsSteady t
  Effect-IsSteady {s} {t} (unchanged same given) ok v =
      given_as t s.given given (IsSound-eq s.given s.db same v)
  Effect-IsSteady {s} {t} (minted draw user family new m given) ok v =
      given_as t ((draw.refresh_jti, family) ∷ s.given) given (
        subst (λ (ts : List RefreshRow). IsSound ((draw.refresh_jti, family) ∷ s.given) ts)
          (sym m.tokens)
          (IsSound-snoc s.given s.db.refresh_tokens (issued_row st draw user family) v m.fresh
            (live-new family s.db.refresh_tokens new)))
  Effect-IsSteady {s} {t} (rotated draw jti family answer done given) is_given v =
      given_as t ((draw.refresh_jti, family) ∷ s.given) given
        (IsSound-Rotated {draw = draw} {s = s} done v is_given)
  Effect-IsSteady {s} {t} (revoked family gone given) ok v = given_as t s.given given (
      IsSound-eq s.given (revoked_all st family s.db) gone
        (IsSound-withdrawn s.given s.db.refresh_tokens family v))

  Reach-IsSteady : {s t : Service} (r : Reach st s t) → AllGiven st r → IsSteady s → IsSteady t
  Reach-IsSteady here all v = v
  Reach-IsSteady (next r step) (before, now) v =
      let (eff, ofs) = Step-Effect st step in
      Effect-IsSteady eff (ofs now) (Reach-IsSteady r before v)

  -- From a database without refresh tokens, requests to register, log in, refresh and log out, in
  -- any number and order but each handled whole before the next, leave each family with at most one
  -- token that is neither used nor revoked, if each family that a registration or a login draws is
  -- new, and if every refresh token that was accepted had been answered, with its id and its
  -- family, by an earlier request, so that none was forged.
  pub one_live-Reach :
      {s t : Service} (r : Reach st s t)
      → AllGiven st r
      → s.db.refresh_tokens ≡ []
      → s.given ≡ []
      → (family : Uuid) → live family t.db.refresh_tokens ≤ 1
  one_live-Reach {s} r all no_tokens none_given =
      (Reach-IsSteady r all (IsSteady-empty s no_tokens none_given)).one_live
