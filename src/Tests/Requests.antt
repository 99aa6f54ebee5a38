-- ===== src/Tests/Requests.antt =====
-- The routes of cmd/api at concrete inputs.
use toomanyhours_api.Api.Profiles.Photos.{IsPhotoShown, get_profile_avatar-IsPhotoShown}
use toomanyhours_api.Models.{UserAvatar}
use toomanyhours_api.Tests.Games.{listed, playing-IsRow, played-IsRow}
use toomanyhours_api.Api.Routes.Isolation.{SameRows, serve_request-SameRows}
use toomanyhours_api.Dict.{erase, insert, lookup}
use toomanyhours_api.Ratelimit.{check, maybe_sweep, new, prune, prune_key, record_attempt, verdict}
use toomanyhours_api.Validate.{
  charset_ok, is_member, is_name_rune, normalize, reserved_usernames, username,
}
use toomanyhours_api.Repo.Avatars.{first_avatar, get_user_avatar}
use toomanyhours_api.World.Exec.{statement, time_now}
use toomanyhours_api.Repo.Users.{first_user, get_user_by_username}
use toomanyhours_api.Text.Trim.{cons_trimmed, trim_left, trim_right, trim_space}
use toomanyhours_api.Prelude.{
  ◌≡◌, ◌⊎◌, refl, false, none, some, ◌∷◌, ◌++◌, ok, arith, find, any, select, ℕ, [],
}
use toomanyhours_api.Text.{Text, codes, same, to_lower, byte_len, is_space, rune_len, to_lower_rune}
use toomanyhours_api.World.{Claims, World}
use toomanyhours_api.Api.{Response, signed_in}
use toomanyhours_api.Api.Auth.{refresh_claims}
use toomanyhours_api.Api.Access.{auth_required}
use toomanyhours_api.Api.Access.Bearer.{IsDenied, IsSigned, clock_read}
use toomanyhours_api.Api.Access.Kinds.{auth_required-refresh}
use toomanyhours_api.Api.Me.{me_handler}
use toomanyhours_api.Api.Profiles.{
  is_lookup, is_public, lookup_name, get_profile_avatar, show_photo,
}
use toomanyhours_api.Api.Usernames.{
  check_username, is_available, answer_check, check_checks, look_up_name, record_check,
  unless_refused, username_check_blocked,
}
use toomanyhours_api.Api.Usernames.Free.{IsFolded, IsFree, check_username-IsFree}
use toomanyhours_api.Api.Routes.{
  public_call, protected_call, registers, reads_me, serve_request, serve_protected, deletes_avatar,
}
use toomanyhours_api.Api.Routes.Guard.{serve_request-guarded}
use toomanyhours_api.Api.Routes.Sound.{IsSound, serve_request-IsSound}
use toomanyhours_api.Tests.Sessions.{outside, auth, alive}
use toomanyhours_api.Tests.Logins.{newcomer, same-IsCaseTable, gordon-IsAccount}

abbrev header : Text
header = codes "Bearer token"

serve_request-guarded_example :
    IsDenied alive (serve_request outside auth 1 none false (protected_call header reads_me) alive)
    ⊎ ((claims : Claims) × IsSigned outside auth header (outside.clock alive.effects) claims
        × (serve_request outside auth 1 none false (protected_call header reads_me) alive
            ≡ serve_protected outside auth 1 none
                (signed_in claims.user_id)
                reads_me
                (clock_read outside auth alive)))
serve_request-guarded_example = serve_request-guarded outside auth 1 none header reads_me alive

listed-IsSound : IsSound outside listed.db
listed-IsSound = record {
  accounts = (gordon-IsAccount, tt);
  rows = (playing-IsRow, (played-IsRow, tt));
  photos = tt;
}

serve_request-IsSound_example :
    IsSound outside
      (serve_request outside auth 1 none false
        (public_call (registers (some newcomer)))
        listed).1.db
serve_request-IsSound_example =
    serve_request-IsSound outside auth 1 none false (public_call (registers (some newcomer))) listed
      same-IsCaseTable listed-IsSound

serve_request-SameRows_example :
    SameRows 8 alive.db
      (serve_request outside auth 1 none false (protected_call header deletes_avatar) alive).1.db
    ⊎ ((claims : Claims) × IsSigned outside auth header (outside.clock alive.effects) claims
        × (claims.user_id ≡ 8))
serve_request-SameRows_example =
    serve_request-SameRows outside auth 1 none header deletes_avatar 8 alive

b-refresh :
    outside.parse auth.secret (outside.clock alive.effects) (codes "b")
    ≡ some (refresh_claims outside auth 7 (codes "b") 0 800)
unfolding refresh_claims
b-refresh = refl

auth_required-refresh_example :
    IsDenied alive
      (auth_required outside auth (codes "Bearer" ++ 0x20 ∷ codes "b") (me_handler outside) alive)
auth_required-refresh_example =
    auth_required-refresh outside auth (codes "b") (codes "b") 7 0 800 (me_handler outside) alive
      (λ e. ground arith) b-refresh

-- The account 7 has a photo, and so has another.
abbrev photo_row : ℕ → Text → UserAvatar
photo_row user_id hash = record { user_id = user_id; bytes = 1 ∷ []; hash = hash; updated_at = 0 }

abbrev pictured : World
pictured = record alive {
  db = record alive.db { avatars = photo_row 8 (codes "other") ∷ photo_row 7 (codes "own") ∷ [] };
}

photographed :
    (r : Response) × ((get_profile_avatar outside (codes "gordon_f") (codes "own") pictured).0
      ≡ ok r)
unfolding get_profile_avatar is_lookup lookup_name to_lower trim_space trim_right trim_left is_space
    cons_trimmed byte_len to_lower_rune get_user_by_username statement find same show_photo
    is_public any select first_avatar get_user_avatar first_user rune_len
photographed = (_, refl)

get_profile_avatar-IsPhotoShown_example :
    IsPhotoShown outside pictured.db (codes "gordon_f") (codes "own") photographed.0
get_profile_avatar-IsPhotoShown_example =
    get_profile_avatar-IsPhotoShown outside (codes "gordon_f") (codes "own") pictured photographed.0
      photographed.1

outside-IsFolded : IsFolded outside
outside-IsFolded name good = refl

free : (check_username outside (codes "ip") (codes "alyx") alive).0 ≡ ok is_available
unfolding check_username username_check_blocked check_checks check verdict prune_key lookup new
    unless_refused record_check time_now answer_check look_up_name username byte_len normalize
    to_lower trim_space erase insert any find maybe_sweep prune record_attempt first_user
    get_user_by_username cons_trimmed trim_left trim_right is_space rune_len same to_lower_rune
    charset_ok is_member is_name_rune reserved_usernames statement
free = refl

check_username-IsFree_example : IsFree outside alive.db (codes "alyx")
check_username-IsFree_example =
    check_username-IsFree outside (codes "ip") (codes "alyx") alive outside-IsFolded free
