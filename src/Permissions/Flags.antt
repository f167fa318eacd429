-- ===== src/Permissions/Flags.antt =====
-- The permission bits and the default masks of the five built-in roles
-- (crates/rekindle-protocol/src/dht/community.rs, module `permissions`).
use Prim.Native.Nat.{bit_or}
use rekindle.Base.{ℕ, ◌^◌, List, [], ◌∷◌}

-- General
abbrev pub create_instant_invite : ℕ
create_instant_invite = 2 ^ 0

abbrev pub kick_members : ℕ
kick_members = 2 ^ 1

abbrev pub ban_members : ℕ
ban_members = 2 ^ 2

abbrev pub administrator : ℕ
administrator = 2 ^ 3

abbrev pub manage_channels : ℕ
manage_channels = 2 ^ 4

abbrev pub manage_community : ℕ
manage_community = 2 ^ 5

-- Text
abbrev pub add_reactions : ℕ
add_reactions = 2 ^ 6

abbrev pub view_audit_log : ℕ
view_audit_log = 2 ^ 7

abbrev pub priority_speaker : ℕ
priority_speaker = 2 ^ 8

abbrev pub stream : ℕ
stream = 2 ^ 9

abbrev pub view_channel : ℕ
view_channel = 2 ^ 10

abbrev pub send_messages : ℕ
send_messages = 2 ^ 11

abbrev pub manage_messages : ℕ
manage_messages = 2 ^ 13

abbrev pub embed_links : ℕ
embed_links = 2 ^ 14

abbrev pub attach_files : ℕ
attach_files = 2 ^ 15

abbrev pub read_message_history : ℕ
read_message_history = 2 ^ 16

abbrev pub mention_everyone : ℕ
mention_everyone = 2 ^ 17

abbrev pub use_external_emojis : ℕ
use_external_emojis = 2 ^ 18

-- Voice
abbrev pub connect : ℕ
connect = 2 ^ 20

abbrev pub speak : ℕ
speak = 2 ^ 21

abbrev pub mute_members : ℕ
mute_members = 2 ^ 22

abbrev pub deafen_members : ℕ
deafen_members = 2 ^ 23

abbrev pub move_members : ℕ
move_members = 2 ^ 24

abbrev pub use_vad : ℕ
use_vad = 2 ^ 25

-- Membership
abbrev pub change_nickname : ℕ
change_nickname = 2 ^ 26

abbrev pub manage_nicknames : ℕ
manage_nicknames = 2 ^ 27

abbrev pub manage_roles : ℕ
manage_roles = 2 ^ 28

-- Future
abbrev pub manage_threads : ℕ
manage_threads = 2 ^ 34

abbrev pub create_public_threads : ℕ
create_public_threads = 2 ^ 35

abbrev pub create_private_threads : ℕ
create_private_threads = 2 ^ 36

-- Moderation
abbrev pub moderate_members : ℕ
moderate_members = 2 ^ 40

-- `a | b | …`
abbrev pub union : List ℕ → ℕ
union [] = 0
union (m ∷ ms) = bit_or m (union ms)

unfoldable pub everyone_permissions : ℕ
everyone_permissions = union (
    view_channel ∷ read_message_history ∷ connect ∷ send_messages ∷ speak ∷ add_reactions
    ∷ embed_links ∷ attach_files ∷ use_external_emojis ∷ use_vad ∷ change_nickname ∷ [])

unfoldable pub member_permissions : ℕ
unfolding everyone_permissions
member_permissions = bit_or everyone_permissions create_instant_invite

unfoldable pub moderator_permissions : ℕ
unfolding member_permissions
moderator_permissions =
    bit_or member_permissions (
      union
        (kick_members ∷ manage_messages ∷ mute_members ∷ deafen_members ∷ moderate_members ∷ []))

unfoldable pub admin_permissions : ℕ
unfolding moderator_permissions
admin_permissions = bit_or moderator_permissions (
    union (
      manage_channels ∷ manage_roles ∷ ban_members ∷ view_audit_log ∷ manage_nicknames
      ∷ manage_community ∷ []))

unfoldable pub all_permissions : ℕ
all_permissions = union (
    create_instant_invite ∷ kick_members ∷ ban_members ∷ administrator ∷ manage_channels
    ∷ manage_community ∷ add_reactions ∷ view_audit_log ∷ priority_speaker ∷ stream ∷ view_channel
    ∷ send_messages ∷ manage_messages ∷ embed_links ∷ attach_files ∷ read_message_history
    ∷ mention_everyone ∷ use_external_emojis ∷ connect ∷ speak ∷ mute_members ∷ deafen_members
    ∷ move_members ∷ use_vad ∷ change_nickname ∷ manage_nicknames ∷ manage_roles ∷ manage_threads
    ∷ create_public_threads ∷ create_private_threads ∷ moderate_members ∷ [])

unfoldable pub owner_permissions : ℕ
unfolding all_permissions
owner_permissions = all_permissions

-- What a member cannot do while timed out.
abbrev pub timeout_mask : ℕ
timeout_mask = union (send_messages ∷ add_reactions ∷ speak ∷ stream ∷ create_instant_invite ∷ [])
