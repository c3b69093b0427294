-- ===== src/Middleware/Voter/Cookie.antt =====
-- Which cookies name a voter, and that an issued one does (backend/internal/middleware/voter.go).
use live_polling.Prelude.{
  ◌≡◌, refl, ap, subst, ◌∙◌, ◌↔◌, inl, inr, false, Option, none, some, [], ◌∷◌, ◌++◌, arith, any,
  Str, str_eq_iff, str_eq_refl, is_empty, length, ◌==◌, ==_iff, Bool-cases, if◌then◌else◌,
}
use live_polling.Apperr.{Attempt, done, failed, done-injective}
use live_polling.Http.{Request, Context, next}
use live_polling.Middleware.{CookieSettings, set_cookie}
use live_polling.Middleware.Voter.{
  Signing, cut, IssuedVoter, sign, issued, issue, verified, read, voter_cookie_name,
  voter_cookie_max_age, introduced, recognised, voter_identity,
}

some-injective : {A : Type 0} {a b : A} → some a ≡ some b → a ≡ b
some-injective h = cc

-- A text without a dot, up to the first one.
abbrev pub IsPlain : Str → Type 0
IsPlain s = any (λ c. c == b'.') s ≡ false

cut-dot : (a b : Str) → IsPlain a → cut (a ++ b'.' ∷ b) ≡ some (a, b)
unfolding cut
cut-dot [] b plain = refl
cut-dot (c ∷ a) b plain = ground (arith, cut-dot a b)

-- What the head of a text does to the cut of its tail.
abbrev Parts : Str → Str × Str → Type 0
Parts s (a, b) = (s ≡ a ++ b'.' ∷ b) × IsPlain a

cut-some : (s : Str) (p : Str × Str) → cut s ≡ some p → Parts s p
unfolding cut
cut-some [] p h = cc
cut-some (c ∷ s) p h = elim (Bool-cases (c == b'.')) [
  | inl dot ↦
      subst (Parts (c ∷ s)) (some-injective (rw dot at h))
        (ap (λ x. x ∷ s) ((==_iff c b'.').0 dot), refl)
  | inr other ↦ further (cut s) (cut-some s) other (rw other at h)
]
  where
    further :
        (o : Option (Str × Str))
        → ((q : Str × Str) → o ≡ some q → Parts s q)
        → (c == b'.') ≡ false
        → (elim o [ none ↦ none | some (a, b) ↦ some (c ∷ a, b) ]) ≡ some p
        → Parts (c ∷ s) p
    further none tail other h = cc
    further (some (a, b)) tail other h =
        let (is, plain) = tail (a, b) refl in
        subst (Parts (c ∷ s)) (some-injective h) (ap (λ t. c ∷ t) is, rw other plain)

module _ (g : Signing) (secret : Str) where
  sign_nonempty : (id : Str) → is_empty (sign g secret id) ≡ false
  sign_nonempty id = g.encode_empty _ ∙ filled (g.hmac secret id) (g.hmac_length secret id)
    where
      filled : (b : Str) → length b ≡ 32 → is_empty b ≡ false
      filled [] h = cc
      filled (x ∷ b) h = refl

  -- A text that was signed for a voter.
  abbrev pub Signed : Str → Str → Type 0
  Signed raw id = (is_empty id ≡ false) × IsPlain id × (raw ≡ id ++ b'.' ∷ sign g secret id)

  verified-some :
      (a signature id : Str)
      → verified g secret (some (a, signature)) ≡ some id
      → (a ≡ id) × (signature ≡ sign g secret a) × (is_empty a ≡ false)
  unfolding verified
  verified-some a signature id h = ground (arith, str_eq_iff signature (sign g secret a))

  verified-sign :
      (id : Str) → is_empty id ≡ false → verified g secret (some (id, sign g secret id)) ≡ some id
  unfolding verified
  verified-sign id filled = rw (filled, sign_nonempty id, str_eq_refl (sign g secret id)) refl

  verified_cut :
      (o : Option (Str × Str)) (raw id : Str)
      → ((p : Str × Str) → o ≡ some p → Parts raw p)
      → verified g secret o ≡ some id
      → Signed raw id
  unfolding verified
  verified_cut none raw id parts h = cc
  verified_cut (some (a, b)) raw id parts h =
      let (same, signed, filled) = verified-some a b id h in
      let (is, plain) = parts (a, b) refl in
      subst (Signed raw) same (filled, plain, is ∙ ap (λ t. a ++ b'.' ∷ t) signed)

  nonempty-dot : (a b : Str) → is_empty (a ++ b'.' ∷ b) ≡ false
  nonempty-dot [] b = refl
  nonempty-dot (c ∷ a) b = refl

  -- A cookie names a voter exactly when it is that identity, which is not empty and has no dot, and
  -- its signature with the server's secret, with a dot between the two.
  pub read_iff : (raw id : Str) → (read g secret (some raw) ≡ some id) ↔ Signed raw id
  unfolding read
  read_iff raw id = (
    (λ h. verified_cut (cut raw) raw id (cut-some raw) (opened h)),
    (λ (filled, plain, is).
        rw (is, nonempty-dot id (sign g secret id), cut-dot id (sign g secret id) plain)
          (verified-sign id filled)),
  )
    where
      opened : {o : Option Str} → (if is_empty raw then none else o) ≡ some id → o ≡ some id
      opened h = ground arith

  issued_some :
      (a : Attempt Str) (v : IssuedVoter)
      → issued g secret a ≡ done v
      → (b : Str) × (a ≡ done b)
        × (v.id ≡ g.encode b)
        × (v.cookie_value ≡ v.id ++ b'.' ∷ sign g secret v.id)
  unfolding issued
  issued_some (failed c) v h = cc
  issued_some (done b) v h =
      let is : record {
        id = g.encode b;
        cookie_value = g.encode b ++ b'.' ∷ sign g secret (g.encode b);
      }
          ≡ v =
        done-injective h in
      subst
        (λ (v : IssuedVoter).
          (b' : Str) × (done b ≡ done b')
          × (v.id ≡ g.encode b')
          × (v.cookie_value ≡ v.id ++ b'.' ∷ sign g secret v.id))
        is (b, refl, refl, refl)

  -- The cookie of an issued voter is read back as that voter.
  pub read-issue :
      (d : g.Db) (v : IssuedVoter)
      → (issue g secret d).0 ≡ done v
      → read g secret (some v.cookie_value) ≡ some v.id
  unfolding issue
  read-issue d v h =
      let (b, drawn, is, value) = issued_some _ v h in
      (read_iff v.cookie_value v.id).1 (
        ap is_empty is ∙ g.encode_empty b ∙ filled b (g.random_length d b drawn),
        ap (any (λ c. c == b'.')) is ∙ g.encode_plain b,
        value,
      )
    where
      filled : (b : Str) → length b ≡ 16 → is_empty b ≡ false
      filled [] h = cc
      filled (x ∷ b) h = refl

module _ {A : Type 0} (g : Signing) (secret : Str) (cookies : CookieSettings) where
  recognised-none :
      (o : Option Str) (c : Context) (d : g.Db) (v : IssuedVoter)
      → o ≡ none
      → (issue g secret d).0 ≡ done v
      → recognised {A = A} g secret cookies o c d
        ≡ next
            (record (set_cookie cookies voter_cookie_name v.cookie_value
              (some voter_cookie_max_age)
              c) { voter_id = some v.id })
            (issue g secret d).1
  unfolding recognised introduced
  recognised-none (some id) c d v h e = cc
  recognised-none none c d v h e = rw e refl

  -- A browser without a valid cookie that is given an identity keeps it: it is told to store the
  -- cookie, and any later request with that cookie has the same identity, sets no other and draws no
  -- random bytes.
  pub voter_identity_stable :
      (r : Request) (c : Context) (d : g.Db) (v : IssuedVoter)
      → read g secret (r.cookie voter_cookie_name) ≡ none
      → (issue g secret d).0 ≡ done v
      → (voter_identity {A = A} g secret cookies r c d
          ≡ next
              (record (set_cookie cookies voter_cookie_name v.cookie_value
                (some voter_cookie_max_age)
                c) { voter_id = some v.id })
              (issue g secret d).1)
        × ((r' : Request) (c' : Context) (d' : g.Db)
            → r'.cookie voter_cookie_name ≡ some v.cookie_value
            → voter_identity {A = A} g secret cookies r' c' d'
              ≡ next (record c' { voter_id = some v.id }) d')
  unfolding voter_identity recognised
  voter_identity_stable r c d v gone e =
      (recognised-none _ c d v gone e, (λ r' c' d' has. rw (has, read-issue g secret d v e) refl))
