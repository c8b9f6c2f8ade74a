-- ===== src/Mfa/Tests.antt =====
-- The second factor's theorems at concrete inputs.
use fast_api_boiler_plate.Base.{
  ℕ, ◌+◌, ◌≡◌, refl, false, some, List, [], ◌∷◌, arith, Str, str_eq, remove, if◌then◌else◌, ◌==◌,
  codes as text,
}
use fast_api_boiler_plate.Store.{get_record, update_record}
use fast_api_boiler_plate.Mfa.{
  Factor, Codes, of_user, matching_step, first_match, strip, without_spaces,
  normalize_recovery_code, accept_totp, consume_recovery_code,
}
use fast_api_boiler_plate.Mfa.Single.{accept_totp-once, consume_recovery_code-once}

-- The code of step 7 is 123456, that of any other 000000; a text of n characters has the hash n.
abbrev length_of : Str → ℕ
length_of [] = 0
length_of (c ∷ s) = length_of s + 1

abbrev pub scheme : Codes
scheme = record {
  code_at = λ secret step. if step == 7 then text "123456" else text "000000";
  hash_token = length_of;
}

abbrev factor : Factor
factor = record {
  user_id = 1;
  secret = 5;
  confirmed_at = some 3;
  last_step = 2;
  recovery_codes = 4 ∷ 5 ∷ [];
  codes_version = 1;
  created_at = 0;
}

abbrev pub factors : List Factor
factors = factor ∷ []

accept_totp-once_example :
    let db' = (accept_totp scheme 6 factor (text "123 456") factors).1 in
    (accept_totp scheme 8 factor (text "123456") db' ≡ (false, db'))
    × (get_record (of_user 1) db' ≡ some (record factor { last_step = 7 }))
    × (accept_totp scheme 7 (record factor { last_step = 7 }) (text "123456") db' ≡ (false, db'))
unfolding get_record update_record matching_step first_match without_spaces str_eq accept_totp
accept_totp-once_example =
    accept_totp-once scheme 6 8 7 factor (text "123 456") (text "123456") (text "123456") factors
      {n = 7} {m = 7} (refl, tt) refl refl refl refl (omega arith)

consume_recovery_code-once_example :
    let db' = (consume_recovery_code scheme factor (text "AB cd") factors).1 in
    let f' : Factor = record factor { recovery_codes = remove 4 (4 ∷ 5 ∷ []); codes_version = 2 } in
    (consume_recovery_code scheme factor (text "abcde") db' ≡ (false, db'))
    × (get_record (of_user 1) db' ≡ some f')
    × (consume_recovery_code scheme f' (text "AB cd") db' ≡ (false, db'))
unfolding get_record update_record normalize_recovery_code without_spaces consume_recovery_code
consume_recovery_code-once_example =
    consume_recovery_code-once scheme factor (text "AB cd") (text "abcde") factors (refl, tt) refl
      (refl, (refl, tt)) refl

-- A newline before and a tab after are stripped, as are spaces.
stripped : strip (10 ∷ 32 ∷ 49 ∷ 50 ∷ 9 ∷ []) ≡ 49 ∷ 50 ∷ []
unfolding strip
stripped = refl
