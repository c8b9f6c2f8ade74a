-- ===== src/Mfa/Single.antt =====
-- Every second-factor code works once (app/services/auth/mfa.py), also when requests race.
use fast_api_boiler_plate.Base.{
  ℕ, ◌+◌, ◌≤◌, ◌<◌, ◌≡◌, refl, Bool, true, false, some, List, [], ◌∷◌, Ident, Str, arith, leb, any,
  contains, remove, inl, inr, Bool-cases, Option-cases, some_inj, ap, ◌∙◌, sym,
}
use fast_api_boiler_plate.Store.{get_record, update_record}
use fast_api_boiler_plate.Store.Keys.{keyed, Distinct, update_record-once, get_record-update_record}
use fast_api_boiler_plate.Store.Laws.{update_record-unmatched}
use fast_api_boiler_plate.Mfa.{
  Factor, Codes, matching_step, normalize_recovery_code, of_user, at_step, at_version, key,
  accept_totp, consume_recovery_code,
}

-- Each item at most once.
abbrev pub IsUnique : List Ident → Type 0
IsUnique [] = Unit
IsUnique (x ∷ xs) = (contains x xs ≡ false) × IsUnique xs

contains-remove : (x : Ident) (xs : List Ident) → IsUnique xs → contains x (remove x xs) ≡ false
contains-remove x [] u = refl
contains-remove x (y ∷ ys) u = ground (arith, contains-remove x ys u.1)

module _ (codes : Codes) where
  -- What an accepted code matched.
  accepted-step :
      (step : ℕ) (f : Factor) (code : Str) (db : List Factor)
      → (accept_totp codes step f code db).0 ≡ true
      → (n : ℕ) × (matching_step codes f.secret code step ≡ some n)
        × (f.last_step < n)
        × (update_record
              (keyed key f.user_id (at_step f.last_step))
              (λ g. record g { last_step = n })
              db
            ≡ ((accept_totp codes step f code db).1, true))
  unfolding accept_totp
  accepted-step step f code db ok = elim (Option-cases (matching_step codes f.secret code step)) [
    | inl missing ↦ absurd (let bad : false ≡ true = rw (accept_totp, missing) at ok in cc)
    | inr (n, m) ↦ elim (Bool-cases (leb n f.last_step)) [
      | inl t ↦ absurd (let bad : false ≡ true = rw (accept_totp, m, t) at ok in cc)
      | inr t ↦
          let found : (update_record (keyed key f.user_id (at_step f.last_step))
                (λ g. record g { last_step = n }) db).1
              ≡ true =
            rw (accept_totp, m, t) at ok in
          (
            n,
            m,
            ground arith,
            rw (accept_totp, m, t)
                (ap
                  (λ (b : Bool). (
                    (update_record (keyed key f.user_id (at_step f.last_step))
                        (λ g. record g { last_step = n }) db).0,
                    b,
                  ))
                  found),
          )
    ]
  ]

  refused-unmatched :
      (step : ℕ) (f : Factor) (code : Str) (db : List Factor)
      → any (keyed key f.user_id (at_step f.last_step)) db ≡ false
      → accept_totp codes step f code db ≡ (false, db)
  unfolding accept_totp
  refused-unmatched step f code db gone =
      elim (Option-cases (matching_step codes f.secret code step)) [
        | inl missing ↦ rw (accept_totp, missing) refl
        | inr (n, m) ↦
            let same =
              update_record-unmatched (keyed key f.user_id (at_step f.last_step))
                (λ g. record g { last_step = n }) db gone in
            elim (Bool-cases (leb n f.last_step)) [
              | inl t ↦ rw (accept_totp, m, t) refl
              | inr t ↦ rw (accept_totp, m, t, same) refl
            ]
      ]

  refused-old :
      (step : ℕ) (f : Factor) (code : Str) (db : List Factor) {m : ℕ}
      → matching_step codes f.secret code step ≡ some m
      → m ≤ f.last_step
      → accept_totp codes step f code db ≡ (false, db)
  unfolding accept_totp
  refused-old step f code db {m} e le =
      let t : leb m f.last_step ≡ true = ground arith in rw (accept_totp, e, t) refl

  -- An authenticator code works once. When the code of time step `n` has been accepted for the
  -- stored factor, every request that had read that factor before is refused, whatever its code;
  -- and so is, for the factor as it is stored now, every code of a time step no later than `n`, the
  -- same code among them. Neither changes anything.
  pub accept_totp-once :
      (step racing again : ℕ) (f : Factor) (code other same_or_older : Str) (db : List Factor)
      {n m : ℕ}
      → Distinct key db
      → get_record (of_user f.user_id) db ≡ some f
      → (accept_totp codes step f code db).0 ≡ true
      → matching_step codes f.secret code step ≡ some n
      → matching_step codes f.secret same_or_older again ≡ some m
      → m ≤ n
      → let db' = (accept_totp codes step f code db).1 in
        (accept_totp codes racing f other db' ≡ (false, db'))
        × (get_record (of_user f.user_id) db' ≡ some (record f { last_step = n }))
        × (accept_totp codes again (record f { last_step = n }) same_or_older db' ≡ (false, db'))
  accept_totp-once step racing again f code other older db {n} {m} distinct there ok e e' le =
      let db' = (accept_totp codes step f code db).1 in
      let (k, matched, above, written) = accepted-step step f code db ok in
      let same : k ≡ n = some_inj (sym matched ∙ e) in
      let change : Factor → Factor = λ g. record g { last_step = k } in
      let now = ap (λ (p : List Factor × Bool). p.0) written in
      let spent =
        update_record-once key f.user_id (at_step f.last_step) (at_step f.last_step) change db
          (λ d. refl) (λ d t. ground arith) distinct
          (ap (λ (p : List Factor × Bool). p.1) written) in
      let (held, _) =
        get_record-update_record key f.user_id (at_step f.last_step) change db {d = f} (λ d. refl)
          there (ground arith) in
      let stored : get_record (of_user f.user_id) db' ≡ some (record f { last_step = n }) =
        ap (get_record (of_user f.user_id)) (sym now)
        ∙ held
        ∙ ap (λ (j : ℕ). some (record f { last_step = j })) same in
      (
        refused-unmatched racing f other db'
            (ap (any (keyed key f.user_id (at_step f.last_step))) (sym now) ∙ spent),
        stored,
        refused-old again (record f { last_step = n }) older db' {m = m} e' le,
      )

  -- What a consumed recovery code was.
  consumed :
      (f : Factor) (code : Str) (db : List Factor)
      → (consume_recovery_code codes f code db).0 ≡ true
      → let hashed = codes.hash_token (normalize_recovery_code code) in
        (contains hashed f.recovery_codes ≡ true)
        × (update_record
              (keyed key f.user_id (at_version f.codes_version))
              (λ g. record g {
                recovery_codes = remove hashed f.recovery_codes;
                codes_version = f.codes_version + 1;
              })
              db
            ≡ ((consume_recovery_code codes f code db).1, true))
  unfolding consume_recovery_code
  consumed f code db ok = ground arith

  consume-refused :
      (f : Factor) (code : Str) (db : List Factor)
      → any (keyed key f.user_id (at_version f.codes_version)) db ≡ false
      → consume_recovery_code codes f code db ≡ (false, db)
  unfolding consume_recovery_code
  consume-refused f code db gone =
      let hashed = codes.hash_token (normalize_recovery_code code) in
      let same =
        update_record-unmatched (keyed key f.user_id (at_version f.codes_version))
          (λ g. record g {
            recovery_codes = remove hashed f.recovery_codes;
            codes_version = f.codes_version + 1;
          })
          db gone in
      rw same (ground arith)

  consume-unknown :
      (f : Factor) (code : Str) (db : List Factor)
      → contains (codes.hash_token (normalize_recovery_code code)) f.recovery_codes ≡ false
      → consume_recovery_code codes f code db ≡ (false, db)
  unfolding consume_recovery_code
  consume-unknown f code db h = ground arith

  -- A recovery code works once, where the stored factors are of different users and the recovery
  -- codes of the stored factor are distinct. When it has been accepted for the stored factor, every
  -- request that had read that factor before is refused, whatever its code, and so is the same code
  -- for the factor as it is stored now. Neither changes anything.
  pub consume_recovery_code-once :
      (f : Factor) (code other : Str) (db : List Factor)
      → Distinct key db
      → get_record (of_user f.user_id) db ≡ some f
      → IsUnique f.recovery_codes
      → (consume_recovery_code codes f code db).0 ≡ true
      → let db' = (consume_recovery_code codes f code db).1 in
        let f' : Factor = record f {
          recovery_codes =
              remove (codes.hash_token (normalize_recovery_code code)) f.recovery_codes;
          codes_version = f.codes_version + 1;
        } in
        (consume_recovery_code codes f other db' ≡ (false, db'))
        × (get_record (of_user f.user_id) db' ≡ some f')
        × (consume_recovery_code codes f' code db' ≡ (false, db'))
  consume_recovery_code-once f code other db distinct there unique ok =
      let db' = (consume_recovery_code codes f code db).1 in
      let hashed = codes.hash_token (normalize_recovery_code code) in
      let change : Factor → Factor = λ g. record g {
        recovery_codes = remove hashed f.recovery_codes;
        codes_version = f.codes_version + 1;
      } in
      let (known, written) = consumed f code db ok in
      let now = ap (λ (p : List Factor × Bool). p.0) written in
      let spent =
        update_record-once key f.user_id (at_version f.codes_version) (at_version f.codes_version)
          change db (λ d. refl) (λ d t. ground arith) distinct
          (ap (λ (p : List Factor × Bool). p.1) written) in
      let (held, _) =
        get_record-update_record key f.user_id (at_version f.codes_version) change db {d = f}
          (λ d. refl) there (ground arith) in
      (
        consume-refused f other db'
            (ap (any (keyed key f.user_id (at_version f.codes_version))) (sym now) ∙ spent),
        ap (get_record (of_user f.user_id)) (sym now) ∙ held,
        consume-unknown (change f) code db' (contains-remove hashed f.recovery_codes unique),
      )
