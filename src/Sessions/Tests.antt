-- ===== src/Sessions/Tests.antt =====
-- A signed-in user, with texts as their own hashes.
use arcus_invest_backend.Base.{◌≡◌, refl, true, false, Option, none, some, [], ◌∷◌, any, find}
use arcus_invest_backend.Base.Text.{Text, codes, text_eq}
use arcus_invest_backend.Sessions.Refresh.{
  User, RefreshToken, PasswordResetToken, Store, Fresh, raced, rejected, refused, rotated, user_is,
  of_user, claim, append_to_family, by_hash, succeed, spend, rotate_refresh_token,
}
use arcus_invest_backend.Sessions.Reset.{
  validate_password, next_version, set_password, redeem, usable_reset, active_user, reset,
  consume_password_reset,
}
use arcus_invest_backend.Sessions.Chains.{
  SessionStep, take_steps, one_successor, IsDead, replay_ends_family,
}
use arcus_invest_backend.Sessions.ResetLaws.{reset_ends_sessions}
use arcus_invest_backend.Base.{count}
use arcus_invest_backend.Base.Text.{trim_space, trim_left, is_space}
use arcus_invest_backend.Sessions.Reset.{outstanding, create_password_reset}
use arcus_invest_backend.Sessions.Links.{one_live_link}

abbrev plain : Text → Text
plain t = t

abbrev salted : Text → Option Text
salted t = some (codes "h")

abbrev member : User
member = record {
  id = 1;
  email = codes "m";
  is_active = true;
  password_hash = codes "p";
  token_version = 0;
}

abbrev first : RefreshToken
first = record {
  id = 10;
  user_id = 1;
  token_hash = codes "a";
  family_id = 5;
  expires_at = 100;
  used_at = none;
  revoked_at = none;
}

abbrev link : PasswordResetToken
link = record { id = 20; user_id = 1; token_hash = codes "r"; expires_at = 100; used_at = none }

abbrev signed_in : Store
signed_in = record { users = member ∷ []; tokens = first ∷ []; resets = link ∷ [] }

abbrev second : Fresh
second = record { id = 11; raw = some (codes "b") }

abbrev third : Fresh
third = record { id = 12; raw = some (codes "c") }

first_rotates : (spend plain 50 1 second first signed_in).0 ≡ rotated member (codes "b")
unfolding spend claim succeed append_to_family text_eq
first_rotates = refl

one_successor_example :
    (spend plain 50 2 third first (
      take_steps plain 50
        (SessionStep.revoke_user 2 9 ∷ [])
        (spend plain 50 1 second first signed_in).1)).0
    ≡ refused raced
one_successor_example =
    one_successor plain 50 1 second first signed_in {u = member} {raw = codes "b"} first_rotates
      (SessionStep.revoke_user 2 9 ∷ []) 2 third

abbrev spent_first : RefreshToken
spent_first = record first { used_at = some 1 }

abbrev stolen : Store
stolen = record signed_in { tokens = spent_first ∷ [] }

stolen_found : find (by_hash plain 50 (codes "a")) stolen.tokens ≡ some spent_first
unfolding text_eq
stolen_found = refl

replay_ends_family_example :
    ((rotate_refresh_token plain 50 2 third (codes "a") stolen).0 ≡ refused rejected)
    × IsDead plain 50 5 (rotate_refresh_token plain 50 2 third (codes "a") stolen).1
replay_ends_family_example =
    replay_ends_family plain 50 2 97 third [] stolen {t = spent_first} stolen_found refl refl refl

link_works :
    (consume_password_reset plain plain salted 3 (codes "r") (codes "longenough") signed_in).0
    ≡ reset member
unfolding consume_password_reset validate_password usable_reset active_user redeem text_eq
link_works = refl

reset_ends_sessions_example :
    (t : Store) × (hash : Text) × ((consume_password_reset plain plain salted 3
        (codes "r")
        (codes "longenough")
        signed_in).1
      ≡ t)
    × (salted (codes "longenough") ≡ some hash)
    × (find (user_is 1) t.users ≡ some (next_version (set_password hash member)))
    × (any (of_user 1) t.tokens ≡ false)
    × (usable_reset plain plain salted 4 (codes "r") t ≡ none)
reset_ends_sessions_example =
    reset_ends_sessions plain plain salted 3 (codes "r") (codes "longenough") signed_in {u = member}
      link_works 4

third_link :
    (create_password_reset plain plain salted 3 third (codes "m") signed_in).0
    ≡ some (codes "c", member)
unfolding create_password_reset text_eq trim_space trim_left is_space
third_link = refl

one_live_link_example :
    count
      (outstanding 1)
      (create_password_reset plain plain salted 3 third (codes "m") signed_in).1.resets
    ≡ 1
one_live_link_example =
    one_live_link plain plain salted 3 third (codes "m") signed_in {raw = codes "c"} {u = member}
      third_link
