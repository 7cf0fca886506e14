-- ===== src/Sessions/Registry.antt =====
-- The keys and references of the accounts: ids and addresses of users are unique, and so are the ids
-- of refresh tokens, which belong to users that are there.
use mathlib.Core.Path.{subst}
use mathlib.Core.List.{append-nil}
use polyglot_commerce.Prelude.{
  ◌≡◌, refl, ◌∙◌, sym, ap, Bool, true, false, Option, none, some, List, [], ◌∷◌, ◌++◌, arith, ◌==◌,
  any, update_where, All, All-update_where, All-append, All-map, UniqueBy, UniqueBy-snoc,
  UniqueBy-update_where, any-append,
}
use polyglot_commerce.Store.{Uuid, UserRow, RefreshRow, Db}
use polyglot_commerce.Accounts.{EmailText, is_token, is_user, in_family, used_up, withdrawn}
use polyglot_commerce.Sessions.{Server, Draw}
use polyglot_commerce.Sessions.Issue.{issued_row}
use polyglot_commerce.Sessions.Minted.{Minted, IsNewcomer, listed}
use polyglot_commerce.Sessions.Service.{Service}
use polyglot_commerce.Sessions.Effect.{Effect, unchanged, minted, rotated, revoked}

abbrev pub same_user : UserRow → UserRow → Bool
same_user u v = u.id == v.id

abbrev pub same_token : RefreshRow → RefreshRow → Bool
same_token t u = t.jti == u.jti

abbrev pub IsOwned : List UserRow → RefreshRow → Type 0
IsOwned us t = any (is_user t.user_id) us ≡ true

pub record AreAccounts (emails : EmailText) (us : List UserRow) (ts : List RefreshRow)
    : Type 0 where
  pub user_ids : UniqueBy same_user us
  pub addresses : UniqueBy (λ (u v : UserRow). emails.same u.email v.email) us
  pub token_ids : UniqueBy same_token ts
  pub owners : All (IsOwned us) ts

module _ (emails : EmailText) (us : List UserRow) (ts : List RefreshRow) where
  AreAccounts-snoc :
      (t : RefreshRow)
      → any (is_token t.jti) ts ≡ false
      → IsOwned us t
      → AreAccounts emails us ts
      → AreAccounts emails us (ts ++ t ∷ [])
  AreAccounts-snoc t fresh owned h = record {
    user_ids = h.user_ids;
    addresses = h.addresses;
    token_ids = UniqueBy-snoc same_token ts t fresh h.token_ids;
    owners = All-append (IsOwned us) ts (t ∷ []) h.owners (owned, tt);
  }

  AreAccounts-used_up :
      (jti : Uuid)
      → AreAccounts emails us ts
      → AreAccounts emails us (update_where (is_token jti) used_up ts)
  AreAccounts-used_up jti h = record {
    user_ids = h.user_ids;
    addresses = h.addresses;
    token_ids =
        UniqueBy-update_where same_token (is_token jti) used_up ts (λ x y. refl) (λ x y. refl)
          h.token_ids;
    owners = All-update_where (IsOwned us) (is_token jti) used_up ts (λ t o. o) h.owners;
  }

  AreAccounts-withdrawn :
      (family : Uuid)
      → AreAccounts emails us ts
      → AreAccounts emails us (update_where (in_family family) withdrawn ts)
  AreAccounts-withdrawn family h = record {
    user_ids = h.user_ids;
    addresses = h.addresses;
    token_ids =
        UniqueBy-update_where same_token (in_family family) withdrawn ts (λ x y. refl) (λ x y. refl)
          h.token_ids;
    owners = All-update_where (IsOwned us) (in_family family) withdrawn ts (λ t o. o) h.owners;
  }

  AreAccounts-user :
      (u : UserRow)
      → any (is_user u.id) us ≡ false
      → any (λ (v : UserRow). emails.same v.email u.email) us ≡ false
      → AreAccounts emails us ts
      → AreAccounts emails (us ++ u ∷ []) ts
  AreAccounts-user u new_id new_address h = record {
    user_ids = UniqueBy-snoc same_user us u new_id h.user_ids;
    addresses =
        UniqueBy-snoc (λ (v w : UserRow). emails.same v.email w.email) us u new_address h.addresses;
    token_ids = h.token_ids;
    owners =
        All-map ts (λ t o. ground (arith, o, any-append (is_user t.user_id) us (u ∷ []))) h.owners;
  }

module _ {Salt Parsed : Type 0} (st : Server Salt Parsed) where
  AreAccounts-newcomer :
      (s : Db) (newcomer : Option UserRow)
      → IsNewcomer st s newcomer
      → AreAccounts st.emails s.users s.refresh_tokens
      → AreAccounts st.emails (s.users ++ listed newcomer) s.refresh_tokens
  AreAccounts-newcomer s none new h =
      subst (λ (us : List UserRow). AreAccounts st.emails us s.refresh_tokens)
        (sym (append-nil s.users)) h
  AreAccounts-newcomer s (some u) new h =
      AreAccounts-user st.emails s.users s.refresh_tokens u new.0 new.1 h

  abbrev pub IsRegistry : Db → Type 0
  IsRegistry s = AreAccounts st.emails s.users s.refresh_tokens

  IsRegistry-Minted :
      (draw : Draw) (user family : Uuid) (s s' : Db)
      → Minted st draw user family s s'
      → IsRegistry s
      → IsRegistry s'
  IsRegistry-Minted draw user family s s' m h =
      let us = s.users ++ listed m.newcomer in
      let known : any (is_user user) us ≡ true = ap (any (is_user user)) (sym m.users) ∙ m.known in
      let here =
        AreAccounts-snoc st.emails us s.refresh_tokens (issued_row st draw user family) m.fresh
          known (AreAccounts-newcomer s m.newcomer m.is_newcomer h) in
      subst (λ (us : List UserRow). AreAccounts st.emails us s'.refresh_tokens) (sym m.users)
        (subst (AreAccounts st.emails us) (sym m.tokens) here)

  -- Each request on sessions keeps the keys and references of the accounts.
  pub Effect-IsRegistry : {s t : Service} → Effect st s t → IsRegistry s.db → IsRegistry t.db
  Effect-IsRegistry (unchanged same given) h = subst IsRegistry (sym same) h
  Effect-IsRegistry {s} {t} (minted draw user family new m given) h =
      IsRegistry-Minted draw user family s.db t.db m h
  Effect-IsRegistry {s} (rotated draw jti family answer done given) h =
      subst IsRegistry (sym done.issued.after) (
        AreAccounts-snoc st.emails s.db.users
          (update_where (is_token jti) used_up s.db.refresh_tokens)
          (issued_row st draw done.row.user_id family) done.issued.fresh done.issued.known
          (AreAccounts-used_up st.emails s.db.users s.db.refresh_tokens jti h))
  Effect-IsRegistry {s} (revoked family gone given) h =
      subst IsRegistry (sym gone)
        (AreAccounts-withdrawn st.emails s.db.users s.db.refresh_tokens family h)
