-- ===== src/Server/Tests/Examples.antt =====
-- Runs of the server on the sample, and its theorems there.
use rekindle.Base.{ℕ, String, true, false, none, some, ◌≡◌, refl, get, arith}
use rekindle.Server.State.{HostedCommunity}
use rekindle.Server.Protocol.{CommunityRequest, error}
use rekindle.Server.Guards.{belongs}
use rekindle.Server.Dispatch.{handle, dispatch_request}
use rekindle.Server.Authority.{Transition}
use rekindle.Server.Authority.Admission.{dispatch_request-Transition}
use rekindle.Server.Invariant.{AllValid, AllHaveIds, IsValid}
use rekindle.Server.Invariant.Preservation.{dispatch_request-AllValid}
use rekindle.Server.Security.Removal.{Guarded, removal_guarded}
use rekindle.Server.Security.Outsiders.{outsider-IsRefused}
use rekindle.Server.Roles.{max_id}
use rekindle.Server.Tests.Town.{town, start, env_at}

town-bob : belongs town "bob" ≡ true
unfolding belongs
town-bob = refl

town-stranger : belongs town "zoe" ≡ false
unfolding belongs
town-stranger = refl

dispatch_request-Transition_example :
    Transition
      (env_at 1000)
      "bob"
      start
      (dispatch_request (env_at 1000) "bob" (CommunityRequest.kick "eve") (some 5) none start).0
dispatch_request-Transition_example =
    dispatch_request-Transition (env_at 1000) "bob" start (CommunityRequest.kick "eve") (some 5)
      none

pub town-IsValid : IsValid town
town-IsValid = record {
  members = (refl, (refl, (refl, tt)));
  roles = (refl, (refl, (refl, (refl, tt))));
  everyone = refl;
  baseline = refl;
}

pub start-AllHaveIds : AllHaveIds start
unfolding max_id
start-AllHaveIds = (omega arith, tt)

dispatch_request-AllValid_example :
    AllValid
      (dispatch_request
        (env_at 1000)
        "zoe"
        (CommunityRequest.join "zoe" "Zoe" none)
        (some 5)
        none
        start).0
dispatch_request-AllValid_example =
    dispatch_request-AllValid (env_at 1000) "zoe" start (town-IsValid, tt)
      (CommunityRequest.join "zoe" "Zoe" none) (some 5) none start-AllHaveIds

removal_guarded_example :
    (c' : HostedCommunity) × (get "c1"
        (handle (env_at 1000) "c1" "bob" (CommunityRequest.kick "eve") start).0.hosted
      ≡ some c')
    × Guarded (env_at 1000) "bob" town c'
removal_guarded_example =
    removal_guarded (env_at 1000) "c1" "bob" start town (CommunityRequest.kick "eve") refl

outsider-IsRefused_example :
    (code : ℕ) × (message : String) × (handle
        (env_at 1000)
        "c1"
        "zoe"
        CommunityRequest.rotate_mek
        start
      ≡ (start, error code message))
outsider-IsRefused_example =
    outsider-IsRefused (env_at 1000) "c1" "zoe" start town refl town-stranger
      CommunityRequest.rotate_mek refl
