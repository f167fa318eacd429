-- ===== src/Server/Tests/Hosting.antt =====
-- The default roles on the sample.
use rekindle.Base.{◌^◌, false, [], none, some, ◌≡◌, refl, arith}
use rekindle.Bits.{has_bit}
use rekindle.Permissions.{member_permissions}
use rekindle.Server.State.{HostedCommunity}
use rekindle.Server.Guards.{is_permitted}
use rekindle.Server.Join.{with_member}
use rekindle.Server.Hosting.{default_roles, create_default_roles}
use rekindle.Server.Hosting.Rights.{newcomer_rights}
use rekindle.Server.Tests.Town.{town, start, env_at}

-- The sample with the default roles.
abbrev plain : HostedCommunity
plain = record town { roles = default_roles }

abbrev empty : HostedCommunity
empty = record plain { members = [] }

roles_created : (create_default_roles "c1" start).1 ≡ some default_roles
unfolding create_default_roles
roles_created = refl

newcomer_rights_example :
    is_permitted
      (env_at 2000)
      (with_member (env_at 1000) "zoe" "Zoe" none false plain)
      "zoe"
      (2 ^ 2)
    ≡ has_bit 2 member_permissions
newcomer_rights_example =
    newcomer_rights (env_at 1000) (env_at 2000) 2 plain "zoe" "Zoe" none (omega arith) refl refl
      refl
