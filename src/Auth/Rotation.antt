-- ===== src/Auth/Rotation.antt =====
-- Single use of refresh tokens (app/services/auth/service.py, `refresh_tokens`).
use fast_api_boiler_plate.Base.{
  ℕ, ◌+◌, ◌≤◌, ◌<◌, ◌≡◌, ◌≢◌, refl, false, ◌&&◌, Option, none, some, ◌∷◌, Ident, Time, arith, Str,
  str_eq, inl, inr, Bool-cases, Option-cases, subst, sym, ap, ◌∙◌, some_inj,
}
use fast_api_boiler_plate.Store.{get_record}
use fast_api_boiler_plate.Cache.Service.{Backend, Settings, Clock}
use fast_api_boiler_plate.Data.Laws.{Stored}
use fast_api_boiler_plate.Users.{User, Field}
use fast_api_boiler_plate.Sessions.{
  Session, has_id, is_session_active, get_session, update_session, revoke_session,
}
use fast_api_boiler_plate.Auth.Refresh.{
  Tokens, State, is_current_refresh_token, rotate, rotate_tokens, with_session, refresh_tokens,
}
use fast_api_boiler_plate.Auth.Stored.{
  memory, Coherent, read, changed, inactive-later, revoked-inactive, rotated-stale,
}

module _ (bu : Backend User) (cfg : Settings) (cap : ℕ) (default_key : Field → Str → Str)
    (tokens : Tokens) (grace : Time) (c : ℕ) (cs : Str) (user : Str) where
  -- The account and session of the token's claims.
  abbrev IsFor : Ident → Type 0
  IsFor token = tokens.verify_token token ≡ some (record { user_id = user; sid = some (c ∷ cs) })

  -- At every later time the stored session is out of use for the user.
  abbrev IsClosed : Time → Stored Session → Type 0
  IsClosed now s =
      (later : Time) (d : Session)
      → now ≤ later
      → get_record (has_id (c ∷ cs)) s.db ≡ some d
      → (is_session_active later (some d) && str_eq d.user_id user) ≡ false

  module _ (clock : ℕ → Clock) (now : Time) where
    abbrev pub refresh : Ident → Ident → State memory bu → Option Ident × State memory bu
    refresh token fresh s =
        refresh_tokens memory bu cfg cap default_key tokens grace clock now token fresh s

    -- What the request reads of the session.
    abbrev found : State memory bu → Option Session × Stored Session
    found s = get_session memory cfg cap (clock 0) (clock 1) (c ∷ cs) s.sessions

    refresh-unfold :
        (token fresh : Ident) (s : State memory bu)
        → IsFor token
        → refresh token fresh s
          ≡ with_session memory bu cfg cap default_key tokens grace clock now user
              (c ∷ cs)
              (tokens.hash_token token)
              fresh
              ((found s).0, record s { sessions = (found s).1 })
    unfolding refresh_tokens
    refresh-unfold token fresh s claims = rw claims refl

    refused-closed :
        (token fresh : Ident) (since : Time) (s : State memory bu)
        → IsFor token
        → Coherent cfg cap (c ∷ cs) s.sessions
        → IsClosed since s.sessions
        → since ≤ now
        → (refresh token fresh s).0 ≡ none
    refused-closed token fresh since s claims h out le =
        let (read_it, db, skip, coherent) =
          read cfg cap (c ∷ cs) (clock 0) (clock 1) s.sessions h in
        elim (Option-cases (get_record (has_id (c ∷ cs)) s.sessions.db)) [
          | inl missing ↦ rw (refresh-unfold token fresh s claims, read_it, missing) refl
          | inr (d, there) ↦
              rw (refresh-unfold token fresh s claims, read_it, there, out now d le there) refl
        ]

    after-rotation :
        (session : Session) (fresh : Ident) (s : State memory bu) {x : Ident}
        → (rotate_tokens memory bu cfg cap default_key tokens grace clock now user
            (c ∷ cs)
            fresh
            session
            s).0
          ≡ some x
        → (rotate_tokens memory bu cfg cap default_key tokens grace clock now user
            (c ∷ cs)
            fresh
            session
            s).1.sessions
          ≡ (update_session memory cfg cap
              (clock 2)
              now
              (c ∷ cs)
              (rotate now (tokens.hash_token fresh) session.refresh_token_hash)
              s.sessions).1
    unfolding rotate_tokens
    after-rotation session fresh s e = ground arith

    -- Revoking the stored session closes it.
    revoke-closes :
        (s : Stored Session) (d : Session)
        → get_record (has_id (c ∷ cs)) s.db ≡ some d
        → s.cache.skip_until ≤ (clock 2).asked
        → let s' = (revoke_session memory cfg cap (clock 2) now (c ∷ cs) s).1 in
          Coherent cfg cap (c ∷ cs) s' × IsClosed now s'
    unfolding revoke_session
    revoke-closes s d here up =
        let (st, coherent) =
          changed cfg cap (c ∷ cs) (clock 2) now (λ x. record x { revoked_at = some now }) s {d = d}
            up here refl in
        (
          coherent,
          λ later e le after.
              let same_one : e ≡ record d { revoked_at = some now; updated_at = some now } =
                some_inj (sym after ∙ st) in
              rw same_one (revoked-inactive now later d user),
        )

    -- A request whose token is not the stored session's closes the session.
    stale-closes :
        (token fresh : Ident) (s : State memory bu)
        → IsFor token
        → Coherent cfg cap (c ∷ cs) s.sessions
        → s.sessions.cache.skip_until ≤ (clock 2).asked
        → ((d : Session)
            → get_record (has_id (c ∷ cs)) s.sessions.db ≡ some d
            → is_current_refresh_token grace now d (tokens.hash_token token) ≡ false)
        → let (answer, s') = refresh token fresh s in
          (answer ≡ none) × Coherent cfg cap (c ∷ cs) s'.sessions × IsClosed now s'.sessions
    stale-closes token fresh s claims h up stale =
        let (read_it, db, skip, coherent) =
          read cfg cap (c ∷ cs) (clock 0) (clock 1) s.sessions h in
        elim (Option-cases (get_record (has_id (c ∷ cs)) s.sessions.db)) [
          | inl missing ↦
              rw (refresh-unfold token fresh s claims, read_it, missing)
                (refl, coherent, λ later d le there. absurd (cc))
          | inr (d, there) ↦
              elim (Bool-cases (is_session_active now (some d) && str_eq d.user_id user)) [
                | inl t ↦
                    rw (refresh-unfold token fresh s claims, read_it, there, t, stale d there)
                      (let (coherent', closed) =
                          revoke-closes (found s).1 d (ap (get_record (has_id (c ∷ cs))) db ∙ there)
                            (omega (arith, skip)) in
                        (refl, coherent', closed))
                | inr t ↦
                    rw (refresh-unfold token fresh s claims, read_it, there, t)
                      (
                        refl,
                        coherent,
                        λ later e le after.
                            let same_one : e ≡ d =
                              some_inj (sym after ∙ ap (get_record (has_id (c ∷ cs))) db ∙ there) in
                            rw same_one (inactive-later now later d user le t),
                      )
              ]
        ]

    -- After a rotation the stored session has the new token's hash.
    rotates :
        (token fresh : Ident) (s : State memory bu) {x : Ident}
        → IsFor token
        → Coherent cfg cap (c ∷ cs) s.sessions
        → s.sessions.cache.skip_until ≤ (clock 2).asked
        → (refresh token fresh s).0 ≡ some x
        → let s' = (refresh token fresh s).1 in
          (d : Session) × (get_record (has_id (c ∷ cs)) s'.sessions.db
            ≡ some (
                rotate now
                  (tokens.hash_token fresh)
                  d.refresh_token_hash
                  (record d { updated_at = some now })))
          × Coherent cfg cap (c ∷ cs) s'.sessions
    rotates token fresh s {x} claims h up done =
        let (read_it, db, skip, coherent) =
          read cfg cap (c ∷ cs) (clock 0) (clock 1) s.sessions h in
        elim (Option-cases (get_record (has_id (c ∷ cs)) s.sessions.db)) [
          | inl missing ↦
              let never : ◌≡◌ {A = Option Ident} none (some x) =
                rw (refresh-unfold token fresh s claims, read_it, missing) at done in
              absurd (cc)
          | inr (d, there) ↦
              elim (Bool-cases (is_session_active now (some d) && str_eq d.user_id user)) [
                | inr t ↦
                    let never : ◌≡◌ {A = Option Ident} none (some x) =
                      rw (refresh-unfold token fresh s claims, read_it, there, t) at done in
                    absurd (cc)
                | inl t ↦
                    elim (Bool-cases
                      (is_current_refresh_token grace now d (tokens.hash_token token))) [
                        | inr u ↦
                            let never : ◌≡◌ {A = Option Ident} none (some x) =
                              rw (refresh-unfold token fresh s claims, read_it, there, t, u) at
                                done in
                            absurd (cc)
                        | inl u ↦
                            won d there
                              (rw (refresh-unfold token fresh s claims, read_it, there, t, u) refl)
                      ]
              ]
        ]
      where
        won :
            (d : Session)
            → get_record (has_id (c ∷ cs)) s.sessions.db ≡ some d
            → refresh token fresh s
              ≡ rotate_tokens memory bu cfg cap default_key tokens grace clock now user
                  (c ∷ cs)
                  fresh
                  d
                  (record s { sessions = (found s).1 })
            → let s' = (refresh token fresh s).1 in
              (d : Session) × (get_record (has_id (c ∷ cs)) s'.sessions.db
                ≡ some (
                    rotate now
                      (tokens.hash_token fresh)
                      d.refresh_token_hash
                      (record d { updated_at = some now })))
              × Coherent cfg cap (c ∷ cs) s'.sessions
        won d there e =
            let (read_it, db, skip, coherent) =
              read cfg cap (c ∷ cs) (clock 0) (clock 1) s.sessions h in
            let s1 : State memory bu = record s { sessions = (found s).1 } in
            let written = after-rotation d fresh s1 {x = x} (rw e at done) in
            let (st, coherent') =
              changed cfg cap (c ∷ cs) (clock 2) now
                (rotate now (tokens.hash_token fresh) d.refresh_token_hash) (found s).1 {d = d}
                (omega (arith, skip)) (ap (get_record (has_id (c ∷ cs))) db ∙ there) refl in
            let all = ap (λ (p : Option Ident × State memory bu). p.1.sessions) e ∙ written in
            (
              d,
              ap (λ (z : Stored Session). get_record (has_id (c ∷ cs)) z.db) all ∙ st,
              subst (λ z. Coherent cfg cap (c ∷ cs) z) (sym all) coherent',
            )

  -- A refresh token is single-use. Say a refresh with `token` succeeds and gives `fresh`, with a
  -- coherent cached copy of the session and the cache answering. Presented again once the grace
  -- period has passed, `token` is refused, and from then on `fresh` is refused as well: the
  -- session is closed, whether the second refresh revoked it or it had expired.
  pub refresh_tokens-reuse :
      (clock clock' clock'' : ℕ → Clock) (now reused later : Time) (token fresh next last : Ident)
      (s : State memory bu)
      → IsFor token
      → IsFor fresh
      → tokens.hash_token fresh ≢ tokens.hash_token token
      → Coherent cfg cap (c ∷ cs) s.sessions
      → s.sessions.cache.skip_until ≤ (clock 2).asked
      → (refresh clock now token fresh s).0 ≡ some fresh
      → now + grace < reused
      → reused ≤ later
      → (refresh clock now token fresh s).1.sessions.cache.skip_until ≤ (clock' 2).asked
      → let s1 = (refresh clock now token fresh s).1 in
        let s2 = (refresh clock' reused token next s1).1 in
        ((refresh clock' reused token next s1).0 ≡ none)
        × ((refresh clock'' later fresh last s2).0 ≡ none)
  refresh_tokens-reuse clock clock' clock'' now reused later token fresh next last s old new differ
        h up done passed le up' =
      let s1 = (refresh clock now token fresh s).1 in
      let (d, held, coherent) = rotates clock now token fresh s {x = fresh} old h up done in
      let (refused, coherent', closed) =
        stale-closes clock' reused token next s1 old coherent up' (λ e there.
          let rotated : e
              ≡ rotate now (tokens.hash_token fresh) d.refresh_token_hash
                  (record d { updated_at = some now }) =
            some_inj (sym there ∙ held) in
          rw rotated (
            rotated-stale grace now reused (tokens.hash_token fresh) (tokens.hash_token token)
              d.refresh_token_hash (record d { updated_at = some now }) differ passed)) in
      (
        refused,
        refused-closed clock'' later fresh last reused (refresh clock' reused token next s1).1 new
            coherent' closed le,
      )
