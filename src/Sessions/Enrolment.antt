-- ===== src/Sessions/Enrolment.antt =====
-- A user who registers can log in.
use polyglot_commerce.Prelude.{
  ℕ, ◌≡◌, refl, ◌∙◌, ap, String, Bool, true, false, some, List, [], ◌∷◌, ◌++◌, arith, find, any,
  find-append-absent, Bool-cases, inl, inr,
}
use polyglot_commerce.Store.{
  Uuid, Time, UserRow, Db, Result, ok, lift, transaction, >>=-ok, transaction-ok,
}
use polyglot_commerce.Access.{hash_password}
use polyglot_commerce.Access.Tokens.{verify-hash_password}
use polyglot_commerce.Accounts.{new_user, create_user, assign_role, find_by_email}
use polyglot_commerce.Sessions.{
  Server, Draw, TokenResponse, RegisterRequest, RegisterResponse, issue_session, enrol, register,
  login, validate_register, validate_login,
}
use polyglot_commerce.Sessions.Issue.{issue_session-Issued}

any_weaker :
    {A : Type 0} (p q : A → Bool) (xs : List A)
    → ((x : A) → p x ≡ true → q x ≡ true)
    → any q xs ≡ false
    → any p xs ≡ false
any_weaker p q [] h e = refl
any_weaker p q (x ∷ xs) h e = elim (Bool-cases (p x)) [
  | inl hit ↦ ground (arith, h x hit)
  | inr nope ↦ ground (arith, nope, any_weaker p q xs h)
]

assign_role-users :
    (user_id : Uuid) (role : String) (s : Db) {s' : Db}
    → assign_role user_id role s ≡ (ok tt, s')
    → s'.users ≡ s.users
unfolding assign_role
assign_role-users user_id role s e = ground (arith, e)

module _ {Salt Parsed : Type 0} (st : Server Salt Parsed) where
  -- What a successful registration writes of the user.
  pub record Enrolled (id : Uuid) (now : Time) (hash : String) (req : RegisterRequest) (s s' : Db)
      : Type 0 where
    pub new_address : any (λ (u : UserRow). st.emails.same u.email req.email) s.users ≡ false
    pub users : s'.users ≡ s.users ++ new_user id now req.email hash req.full_name ∷ []

  enrol-Enrolled :
      (draw : Draw) (id : Uuid) (now : Time) (family : Uuid) (hash : String) (req : RegisterRequest)
      (s : Db) {made : UserRow × TokenResponse} {s' : Db}
      → enrol st draw id now family hash req s ≡ (ok made, s')
      → Enrolled id now hash req s s'
  unfolding enrol create_user
  enrol-Enrolled draw id now family hash req s e =
      let (user, s₁, created, e₁) =
        >>=-ok (create_user st.emails id now req.email hash req.full_name) _ s e in
      let (unit, s₂, assigned, e₂) = >>=-ok (assign_role user.id "customer") _ s₁ e₁ in
      let (tokens, s₃, issued, e₃) = >>=-ok (issue_session st draw user.id family) _ s₂ e₂ in
      let written = issue_session-Issued st draw user.id family s₂ issued in
      let same = assign_role-users user.id "customer" s₁ assigned in
      record {
        new_address = ground (arith, created);
        users = ground (arith, created, same, written.after, e₃);
      }

  valid_password :
      (req : RegisterRequest)
      → validate_register st req ≡ ok tt
      → validate_login st (record { email = req.email; password = req.password }) ≡ ok tt
  unfolding validate_register validate_login
  valid_password req e = ground (arith, e)

  found-Enrolled :
      (id : Uuid) (now : Time) (hash : String) (req : RegisterRequest) {s s' : Db}
      → Enrolled id now hash req s s'
      → find_by_email st.emails req.email s' ≡ some (new_user id now req.email hash req.full_name)
  unfolding find_by_email
  found-Enrolled id now hash req {s} done =
      ap (find (λ (u : UserRow). st.emails.matches u.email req.email)) done.users
      ∙ find-append-absent _ s.users _ (
          any_weaker _ _ s.users (λ u. st.emails.same_of_matches u.email req.email)
            done.new_address)
      ∙ rw (st.emails.matches_refl req.email) refl

  -- Whoever has registered can log in with the same address and password: the login gets as far as
  -- issuing a session of that user.
  pub login-register :
      (draw again : Draw) (salt : Salt) (id : Uuid) (now : Time) (family other : Uuid)
      (req : RegisterRequest) (s : Db) {answer : ℕ × RegisterResponse} {s' : Db}
      → register st draw salt id now family req s ≡ (ok answer, s')
      → login st again other (record { email = req.email; password = req.password }) s'
        ≡ issue_session st again id other s'
  unfolding register login find_by_email
  login-register draw again salt id now family other req s e =
      let (unit, s₁, valid, e₁) = >>=-ok (lift (validate_register st req)) _ s e in
      let (hash, s₂, hashed, e₂) =
        >>=-ok (lift (hash_password st.argon2 salt req.password)) _ s₁ e₁ in
      let (made, s₃, signed, e₃) =
        >>=-ok (transaction (enrol st draw id now family hash req)) _ s₂ e₂ in
      let enrolled =
        enrol-Enrolled draw id now family hash req s₂
          (transaction-ok (enrol st draw id now family hash req) s₂ signed) in
      let found = found-Enrolled id now hash req {s = s₂} {s' = s₃} enrolled in
      ground (
        arith,
        ap (λ (r : Result (Unit {0}) × Db). r.0) valid,
        valid_password req,
        found,
        e₃,
        verify-hash_password st.argon2 salt req.password {phc = hash}
            (ap (λ (r : Result String × Db). r.0) hashed),
      )
