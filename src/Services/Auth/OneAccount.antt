-- ===== src/Services/Auth/OneAccount.antt =====
-- At most one account per address (backend/internal/services/auth_service.go).
use live_polling.Prelude.{
  ◌≡◌, refl, sym, ap, subst, ◌∙◌, ◌⊎◌, inl, inr, Bool, true, false, List, [], ◌∷◌, ◌++◌, arith, Str,
  str_eq, str_eq_iff, Member, str_eq_sym, any-append, any-Member,
}
use live_polling.Apperr.{Attempt, done, failed, Result, ok, err, Result-cases}
use live_polling.Models.{User}
use live_polling.Validation.{Validator}
use live_polling.Services.Accounts.{registered}
use live_polling.Services.Auth.{
  AuthService, World, RegisterInput, new_session, created, hashed, register_checked, register,
}

-- No two accounts have the same address.
abbrev pub OneAccount : List User → Type 0
OneAccount [] = Unit
OneAccount (u ∷ us) = (registered u.email us ≡ false) × OneAccount us

add-OneAccount :
    (u : User) (us : List User)
    → registered u.email us ≡ false
    → OneAccount us
    → OneAccount (us ++ u ∷ [])
add-OneAccount u [] fresh one = (refl, tt)
add-OneAccount u (v ∷ us) fresh (first, rest) = (
  ground (
    arith,
    any-append (λ (x : User). str_eq x.email v.email) us (u ∷ []),
    str_eq_sym u.email v.email,
  ),
  add-OneAccount u us (ground arith) rest,
)

registered-Member :
    (u v : User) (us : List User) → Member u us → u.email ≡ v.email → registered v.email us ≡ true
registered-Member u v us there same =
    any-Member (λ x. str_eq x.email v.email) u us there ((str_eq_iff u.email v.email).1 same)

pub taken : {b : Bool} → b ≡ true → b ≡ false → ⊥
taken h k = cc

pub account_unique :
    (u v : User) (us : List User)
    → OneAccount us
    → Member u us
    → Member v us
    → u.email ≡ v.email
    → u ≡ v
account_unique u v [] one there _ same = absurd there
account_unique u v (x ∷ us) one (inl p) (inl q) same = p ∙ sym q
account_unique u v (x ∷ us) (first, rest) (inl p) (inr q) same =
    absurd (taken (registered-Member v x us q (sym same ∙ ap (λ (y : User). y.email) p)) first)
account_unique u v (x ∷ us) (first, rest) (inr p) (inl q) same =
    absurd (taken (registered-Member u x us p (same ∙ ap (λ (y : User). y.email) q)) first)
account_unique u v (x ∷ us) (first, rest) (inr p) (inr q) same = account_unique u v us rest p q same

module _ (s : AuthService) where
  -- What a call does to the accounts: nothing, or it adds one at an address that had none.
  abbrev Grown : List User → List User → Type 0
  Grown us us' = (us' ≡ us) ⊎ ((u : User) × (registered u.email us ≡ false) × (us' ≡ us ++ u ∷ []))

  created-users :
      (r : Result User) (w : World s)
      → s.users.users (created s r w).1.users ≡ s.users.users w.users
  unfolding created new_session
  created-users (ok u) w = refl
  created-users (err e) w = refl

  create-Grown :
      (u : User) (w : World s)
      → Grown (s.users.users w.users) (s.users.users (s.users.create u w.users).1)
  create-Grown u w = elim (Result-cases (s.users.create u w.users).0) [
    | inl (u', r) ↦
        let (fresh, (i, is), grown) = s.users.create_ok u u' w.users r in
        inr (u', rw (is) fresh, grown)
    | inr (x, r) ↦ elim (s.users.create_err u w.users x r) [
      | inl (_, _, same) ↦ inl same
      | inr (_, inl same) ↦ inl same
      | inr (_, inr (i, fresh, grown)) ↦ inr (_, fresh, grown)
    ]
  ]

  hashed-Grown :
      (name email : Str) (hash : Attempt Str) (w : World s)
      → Grown (s.users.users w.users) (s.users.users (hashed s name email hash w).1.users)
  unfolding hashed
  hashed-Grown name email (failed c) w = inl refl
  hashed-Grown name email (done h) w =
      subst (Grown (s.users.users w.users)) (sym (created-users _ _)) (create-Grown _ w)

  register_checked-Grown :
      (b : Bool) (name email password : Str) (v : Validator) (w : World s)
      → Grown
          (s.users.users w.users)
          (s.users.users (register_checked s b name email password v w).1.users)
  unfolding register_checked
  register_checked-Grown false name email password v w = inl refl
  register_checked-Grown true name email password v w = hashed-Grown name email _ _

  -- Where no two accounts have the same address, that is so after any registration: one that succeeds,
  -- one that is refused, and one whose answer from the database is lost.
  pub register-OneAccount :
      (input : RegisterInput) (w : World s)
      → OneAccount (s.users.users w.users)
      → OneAccount (s.users.users (register s input w).1.users)
  unfolding register
  register-OneAccount input w one = elim (register_checked-Grown _ _ _ _ _ w) [
    | inl same ↦ subst OneAccount (sym same) one
    | inr (u, fresh, grown) ↦ subst OneAccount (sym grown) (add-OneAccount u _ fresh one)
  ]
