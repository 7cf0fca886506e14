-- ===== src/Sessions/Minted.antt =====
-- What a whole request does to the table of refresh tokens: a success of `register` or `login` adds
-- one new token of the drawn family, and a failure changes no table.
use polyglot_commerce.Prelude.{
  ℕ, ◌≡◌, String, true, false, Option, none, some, List, [], ◌∷◌, ◌++◌, arith, any, Option-cases,
  inl, inr,
}
use mathlib.Core.Path.{subst}
use mathlib.Core.List.{append-nil}
use polyglot_commerce.Errors.{AppError}
use polyglot_commerce.Store.{
  Uuid, Time, UserRow, Db, ok, err, lift, transaction, >>=-ok, transaction-ok,
}
use polyglot_commerce.Access.{hash_password}
use polyglot_commerce.Accounts.{is_token, is_user, create_user, assign_role, find_by_email}
use polyglot_commerce.Sessions.{
  Server, Draw, TokenResponse, RegisterRequest, LoginRequest, RegisterResponse, issue_session,
  enrol, register, login, validate_register,
}
use polyglot_commerce.Sessions.Issue.{issued_row, issue_session-Issued, issue_session-err}

abbrev pub listed : Option UserRow → List UserRow
listed none = []
listed (some u) = u ∷ []

-- The database as requests on sessions can leave it: the other tables stay.
abbrev pub sessions_of : Db → Db → Db
sessions_of s s' = record s {
  users = s'.users;
  user_roles = s'.user_roles;
  refresh_tokens = s'.refresh_tokens;
}

module _ {Salt Parsed : Type 0} (st : Server Salt Parsed) where
  -- A user who is added has an id and an address that no other has.
  abbrev pub IsNewcomer : Db → Option UserRow → Type 0
  IsNewcomer s none = Unit
  IsNewcomer s (some u) =
      (any (is_user u.id) s.users ≡ false)
      × (any (λ (v : UserRow). st.emails.same v.email u.email) s.users ≡ false)

  pub record Minted (draw : Draw) (user family : Uuid) (s s' : Db) : Type 0 where
    pub fresh : any (is_token draw.refresh_jti) s.refresh_tokens ≡ false
    pub tokens : s'.refresh_tokens ≡ s.refresh_tokens ++ issued_row st draw user family ∷ []
    pub newcomer : Option UserRow
    pub is_newcomer : IsNewcomer s newcomer
    pub users : s'.users ≡ s.users ++ listed newcomer
    pub known : any (is_user user) s'.users ≡ true
    pub rest : s' ≡ sessions_of s s'

  create_user_lem :
      (id : Uuid) (now : Time) (email hash name : String) (s : Db) {u : UserRow} {s' : Db}
      → create_user st.emails id now email hash name s ≡ (ok u, s')
      → IsNewcomer s (some u) × (s' ≡ record s { users = s.users ++ u ∷ [] })
  unfolding create_user
  create_user_lem id now email hash name s e = ground (arith, e)

  assign_role_rest :
      (user_id : Uuid) (role : String) (s : Db) {s' : Db}
      → assign_role user_id role s ≡ (ok tt, s')
      → s' ≡ record s { user_roles = s'.user_roles }
  unfolding assign_role
  assign_role_rest user_id role s e = ground (arith, e)

  enrol-Minted :
      (draw : Draw) (id : Uuid) (now : Time) (family : Uuid) (hash : String) (req : RegisterRequest)
      (s : Db) {made : UserRow × TokenResponse} {s' : Db}
      → enrol st draw id now family hash req s ≡ (ok made, s')
      → Minted draw made.0.id family s s'
  unfolding enrol
  enrol-Minted draw id now family hash req s e =
      let (user, s₁, created, e₁) =
        >>=-ok (create_user st.emails id now req.email hash req.full_name) _ s e in
      let (unit, s₂, assigned, e₂) = >>=-ok (assign_role user.id "customer") _ s₁ e₁ in
      let (tokens, s₃, issued, e₃) = >>=-ok (issue_session st draw user.id family) _ s₂ e₂ in
      let written = issue_session-Issued st draw user.id family s₂ issued in
      let (new, one) = create_user_lem id now req.email hash req.full_name s created in
      let two = assign_role_rest user.id "customer" s₁ assigned in
      record {
        fresh = ground (arith, written.fresh, one, two);
        tokens = ground (arith, written.after, one, two, e₃);
        newcomer = some user;
        is_newcomer = new;
        users = ground (arith, written.after, one, two, e₃);
        known = ground (arith, written.after, written.known, e₃);
        rest = ground (arith, written.after, one, two, e₃);
      }

  pub register-Minted :
      (draw : Draw) (salt : Salt) (id : Uuid) (now : Time) (family : Uuid) (req : RegisterRequest)
      (s : Db) {answer : ℕ × RegisterResponse} {s' : Db}
      → register st draw salt id now family req s ≡ (ok answer, s')
      → (user : Uuid) × Minted draw user family s s'
  unfolding register
  register-Minted draw salt id now family req s {s' = s'} e =
      let (unit, s₁, valid, e₁) = >>=-ok (lift (validate_register st req)) _ s e in
      let (hash, s₂, hashed, e₂) =
        >>=-ok (lift (hash_password st.argon2 salt req.password)) _ s₁ e₁ in
      let (made, s₃, signed, e₃) =
        >>=-ok (transaction (enrol st draw id now family hash req)) _ s₂ e₂ in
      let minted =
        enrol-Minted draw id now family hash req s₂
          (transaction-ok (enrol st draw id now family hash req) s₂ signed) in
      let first : s₂ ≡ s = ground (arith, valid, hashed) in
      let last : s₃ ≡ s' = ground (arith, e₃) in
      (
        made.0.id,
        subst (λ (t : Db). Minted draw made.0.id family t s') first
            (subst (λ (t : Db). Minted draw made.0.id family s₂ t) last minted),
      )

  pub register-err :
      (draw : Draw) (salt : Salt) (id : Uuid) (now : Time) (family : Uuid) (req : RegisterRequest)
      (s : Db) {x : AppError} {s' : Db}
      → register st draw salt id now family req s ≡ (err x, s')
      → s' ≡ s
  unfolding register
  register-err draw salt id now family req s e = ground (arith, e)

  pub login-Minted :
      (draw : Draw) (family : Uuid) (req : LoginRequest) (s : Db) {answer : TokenResponse} {s' : Db}
      → login st draw family req s ≡ (ok answer, s')
      → (user : Uuid) × Minted draw user family s s'
  unfolding login
  login-Minted draw family req s {answer} {s'} e =
      elim (Option-cases (find_by_email st.emails req.email s)) [
        | inl unknown ↦ absurd (ground (arith, e))
        | inr (user, found) ↦
            let issued : issue_session st draw user.id family s ≡ (ok answer, s') =
              ground (arith, e) in
            let written = issue_session-Issued st draw user.id family s issued in
            (
              user.id,
              record {
                fresh = written.fresh;
                tokens = ground (arith, written.after);
                newcomer = none;
                is_newcomer = tt;
                users = ground (arith, written.after, append-nil s.users);
                known = ground (arith, written.after, written.known);
                rest = ground (arith, written.after);
              },
            )
      ]

  pub login-err :
      (draw : Draw) (family : Uuid) (req : LoginRequest) (s : Db) {x : AppError} {s' : Db}
      → login st draw family req s ≡ (err x, s')
      → s' ≡ s
  unfolding login
  login-err draw family req s {x} {s'} e =
      elim (Option-cases (find_by_email st.emails req.email s)) [
        | inl unknown ↦ ground (arith, e)
        | inr (user, found) ↦
            ground (arith, e, issue_session-err st draw user.id family s {x = x} {s' = s'})
      ]
