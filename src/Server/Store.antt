-- ===== src/Server/Store.antt =====
-- The server's SQLite database as an interface. The statements are the code's own (they stand in
-- crates/rekindle-server/src/rpc.rs, mek.rs and community_host.rs); what SQLite does with one is the interface's.
pub mod Laws
pub mod Memory
use rekindle.Base.{ℕ, String, Bool, List, Option, none, some}
use rekindle.Base.Int.{ℤ}
use rekindle.Permissions.{RoleDefinition}
use rekindle.Server.Protocol.{BannedMemberDto, ChannelMessageDto}

-- Every statement names its community first.
pub data Statement : Type 0 where
  insert_member : String → String → String → ℤ → Statement
  insert_member_role : String → String → ℕ → Statement
  set_creator : String → String → Statement
  update_route : String → String → List ℕ → Statement
  delete_member : String → String → Statement
  insert_message : String → String → String → List ℕ → ℕ → ℕ → Statement
  insert_channel : String → String → String → String → ℤ → Statement
  delete_channel : String → String → Statement
  rename_channel : String → String → String → Statement
  update_name : String → String → Statement
  update_description : String → String → Statement
  replace_ban : String → String → String → ℕ → Statement
  delete_ban : String → String → Statement
  insert_role : String → RoleDefinition → Statement
  insert_default_role : String → RoleDefinition → Statement
  update_role : String → ℕ → RoleDefinition → Statement
  delete_role : String → ℕ → Statement
  delete_role_assignments : String → ℕ → Statement
  delete_member_role : String → String → ℕ → Statement
  replace_overwrite : String → String → String → String → ℕ → ℕ → Statement
  delete_overwrite : String → String → String → String → Statement
  replace_timeout : String → String → ℕ → Option String → Statement
  delete_timeout : String → String → Statement
  insert_mek : String → ℕ → List ℕ → ℕ → Statement
  replace_mek : String → ℕ → List ℕ → ℕ → Statement
  insert_hosted : String → String → String → String → ℕ → Statement
  delete_hosted : String → Statement

-- `execute` gives `none` where the statement fails. `banned` is the query of one row in
-- `banned_members`; `query_messages` takes the community, the channel, the time that the rows are
-- older than and the limit, and lists the newest first; `query_bans` lists the newest first.
pub record Database : Type 1 where
  pub Db : Type 0
  pub execute : Statement → Db → Option Db
  pub banned : Db → String → String → Bool
  pub query_messages : Db → String → String → Option ℕ → ℕ → Option (List ChannelMessageDto)
  pub query_bans : Db → String → Option (List BannedMemberDto)

-- A statement whose failure is logged, or ignored.
unfoldable pub attempt : (D : Database) → Statement → D.Db → D.Db
attempt D st db = elim (D.execute st db) [ none ↦ db | some db' ↦ db' ]
