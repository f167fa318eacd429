-- ===== src/Server/Tests/Lasting.antt =====
-- A ban through later requests on the sample.
use rekindle.Base.{true, List, [], ◌∷◌, none, some, ◌≡◌, refl, get}
use rekindle.Server.Protocol.{CommunityRequest, error}
use rekindle.Server.Store.{replace_ban}
use rekindle.Server.Store.Memory.{memory, memory-IsLawful, is_banned}
use rekindle.Server.Core.{Server}
use rekindle.Server.Join.{is_hosted}
use rekindle.Server.Dispatch.{dispatch_request, dispatch_resolved}
use rekindle.Server.Guards.{resolve_community_id}
use rekindle.Server.Security.Bans.{still_hosted}
use rekindle.Server.Security.Persistence.{Call, serve, ban_lasts}
use rekindle.Server.Tests.Town.{town, start, env_at}

-- Zoe is banned.
abbrev banning : Server memory
banning = record start { db = replace_ban "c1" "zoe" "Zoe" 900 ∷ [] }

abbrev calls : List Call
calls =
    (record {
      env = env_at 1000;
      sender = "bob";
      request = CommunityRequest.unban "eve";
      incoming = none;
      ipc = some "c1";
    })
    ∷ []

zoe_banned : is_banned banning.db "c1" "zoe" ≡ true
unfolding is_banned
zoe_banned = refl

town_hosted : is_hosted (get "c1" (serve calls banning).hosted) ≡ true
unfolding dispatch_request dispatch_resolved resolve_community_id
town_hosted =
    still_hosted (env_at 1000) "c1" "bob" "zoe" banning town refl (CommunityRequest.unban "eve")

ban_lasts_example :
    dispatch_request
      (env_at 2000)
      "zoe"
      (CommunityRequest.join "zoe" "Zoe" none)
      none
      (some "c1")
      (serve calls banning)
    ≡ (serve calls banning, error 403 "you are banned from this community")
ban_lasts_example =
    ban_lasts memory-IsLawful "c1" "zoe" calls banning (env_at 2000) "Zoe" none none (some "c1")
      zoe_banned (refl, tt) refl town_hosted
