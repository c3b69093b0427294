-- ===== src/Repositories/Users/Filling.antt =====
-- The user repository fills the interface `UserStore` of the services
-- (backend/internal/repositories/user_repository.go).
use live_polling.Prelude.{
  ◌≡◌, ◌≢◌, refl, sym, ap, ◌∙◌, ◌⊎◌, inl, inr, Bool, true, false, [], ◌∷◌, ◌++◌, Str, str_eq, ◌==◌,
  ==_iff, any, Member,
}
use live_polling.Apperr.{
  Cause, duplicate_key, no_documents, Code, Error, ok, err, ok-injective, err-injective, Attempt,
  done, failed,
}
use live_polling.Models.{ObjectId, User}
use live_polling.Mongo.{Collection}
use live_polling.Services.Accounts.{UserStore, registered, with_id}
use live_polling.Repositories.Users.{
  user_keyed, created, looked_up, create, find_by_email, find_by_id,
}

created_ok :
    (u u' : User) (a : Attempt ObjectId)
    → created u a ≡ ok u'
    → (i : ObjectId) × (a ≡ done i) × (u' ≡ with_id u i)
unfolding created
created_ok u u' (done i) h = (i, refl, sym (ok-injective h))
created_ok u u' (failed Cause.duplicate_key) h = cc
created_ok u u' (failed c) h = cc

created_err :
    (u : User) (e : Error) (a : Attempt ObjectId)
    → created u a ≡ err e
    → ((a ≡ failed duplicate_key) × (e.code ≡ Code.conflict))
      ⊎ ((c : Cause) × (a ≡ failed c) × (c ≢ duplicate_key) × (e.code ≡ Code.internal))
unfolding created
created_err u e (done i) h = cc
created_err u e (failed Cause.duplicate_key) h =
    inl (refl, ap (λ x. x.code) (sym (err-injective h)))
created_err u e (failed Cause.no_documents) h =
    inr (no_documents, refl, (λ q. cc), ap (λ x. x.code) (sym (err-injective h)))
created_err u e (failed (Cause.other n)) h =
    inr (Cause.other n, refl, (λ q. cc), ap (λ x. x.code) (sym (err-injective h)))

looked_up_ok : (a : Attempt User) (u : User) → looked_up a ≡ ok u → a ≡ done u
unfolding looked_up
looked_up_ok (done v) u h = ap done (ok-injective h)
looked_up_ok (failed Cause.no_documents) u h = cc
looked_up_ok (failed c) u h = cc

looked_up_err :
    (a : Attempt User) (e : Error)
    → looked_up a ≡ err e
    → ((a ≡ failed no_documents) × (e.code ≡ Code.not_found)) ⊎ (e.code ≡ Code.internal)
unfolding looked_up
looked_up_err (done v) e h = cc
looked_up_err (failed Cause.no_documents) e h = inl (refl, ap (λ x. x.code) (sym (err-injective h)))
looked_up_err (failed c) e h = inr (ap (λ x. x.code) (sym (err-injective h)))

module _ (col : Collection User user_keyed) where
  pub create_ok :
      (u u' : User) (d : col.Db)
      → (create col u d).0 ≡ ok u'
      → (registered u.email (col.docs d) ≡ false)
        × ((i : ObjectId) × (u' ≡ with_id u i))
        × (col.docs (create col u d).1 ≡ col.docs d ++ u' ∷ [])
  unfolding create
  create_ok u u' d h =
      let (i, e, is) = created_ok u u' (col.insert_one u d).0 h in
      let (fresh, grown) = col.insert_done u d i e in
      (fresh, (i, is), grown ∙ ap (λ x. col.docs d ++ x ∷ []) (sym is))

  pub create_err :
      (u : User) (d : col.Db) (e : Error)
      → (create col u d).0 ≡ err e
      → ((e.code ≡ Code.conflict)
          × (registered u.email (col.docs d) ≡ true)
          × (col.docs (create col u d).1 ≡ col.docs d))
        ⊎ ((e.code ≡ Code.internal)
            × ((col.docs (create col u d).1 ≡ col.docs d)
                ⊎ ((i : ObjectId) × (registered u.email (col.docs d) ≡ false)
                    × (col.docs (create col u d).1 ≡ col.docs d ++ with_id u i ∷ []))))
  unfolding create
  create_err u d e h = elim (created_err u e (col.insert_one u d).0 h) [
    | inl (dup, code) ↦ let (clash, same) = col.insert_duplicate u d dup in inl (code, clash, same)
    | inr (c, fail, ne, code) ↦ inr (code, col.insert_failed u d c fail ne)
  ]

  pub find_by_email_ok :
      (email : Str) (d : col.Db) (u : User)
      → (find_by_email col email d).0 ≡ ok u
      → (str_eq u.email email ≡ true) × Member u (col.docs d)
  unfolding find_by_email
  find_by_email_ok email d u h = col.find_done _ d u (looked_up_ok _ u h)

  -- An account that a lookup did not find is not there, or the lookup failed.
  missing :
      (p : User → Bool) (d : col.Db) (e : Error)
      → looked_up (col.find_one p d).0 ≡ err e
      → ((e.code ≡ Code.not_found) × (any p (col.docs d) ≡ false)) ⊎ (e.code ≡ Code.internal)
  missing p d e h = elim (looked_up_err _ e h) [
    | inl (gone, code) ↦ inl (code, col.find_missing p d gone)
    | inr code ↦ inr code
  ]

  pub find_by_email_err :
      (email : Str) (d : col.Db) (e : Error)
      → (find_by_email col email d).0 ≡ err e
      → ((e.code ≡ Code.not_found) × (registered email (col.docs d) ≡ false))
        ⊎ (e.code ≡ Code.internal)
  unfolding find_by_email
  find_by_email_err email d e h = missing _ d e h

  pub find_by_email_reads :
      (email : Str) (d : col.Db) → col.docs (find_by_email col email d).1 ≡ col.docs d
  unfolding find_by_email
  find_by_email_reads email d = col.find_reads _ d

  pub find_by_id_ok :
      (i : ObjectId) (d : col.Db) (u : User)
      → (find_by_id col i d).0 ≡ ok u
      → (u.id ≡ i) × Member u (col.docs d)
  unfolding find_by_id
  find_by_id_ok i d u h =
      let (is, there) = col.find_done _ d u (looked_up_ok _ u h) in ((==_iff _ _).0 is, there)

  pub find_by_id_err :
      (i : ObjectId) (d : col.Db) (e : Error)
      → (find_by_id col i d).0 ≡ err e
      → ((e.code ≡ Code.not_found) × (any (λ u. u.id == i) (col.docs d) ≡ false))
        ⊎ (e.code ≡ Code.internal)
  unfolding find_by_id
  find_by_id_err i d e h = missing _ d e h

  pub find_by_id_reads : (i : ObjectId) (d : col.Db) → col.docs (find_by_id col i d).1 ≡ col.docs d
  unfolding find_by_id
  find_by_id_reads i d = col.find_reads _ d

  -- The repository over any users collection that keeps the documented laws and has the unique index.
  abbrev pub user_store : UserStore
  user_store = record {
    Db = col.Db;
    users = col.docs;
    create = create col;
    find_by_email = find_by_email col;
    find_by_id = find_by_id col;
    create_ok = create_ok;
    create_err = create_err;
    find_by_email_ok = find_by_email_ok;
    find_by_email_err = find_by_email_err;
    find_by_email_reads = find_by_email_reads;
    find_by_id_ok = find_by_id_ok;
    find_by_id_err = find_by_id_err;
    find_by_id_reads = find_by_id_reads;
  }
