-- ===== src/Desktop/Keys/Tests.antt =====
-- A message in the sample community, read by a member with an old key.
use rekindle.Base.{ℕ, String, true, List, [], ◌∷◌, none, some, ◌≡◌, refl, arith}
use rekindle.Base.Results.{done}
use rekindle.Signal.Tests.{toy, toy-IsSound, repeat}
use rekindle.Server.State.{HostedCommunity}
use rekindle.Server.Core.{Server}
use rekindle.Server.Guards.{belongs}
use rekindle.Server.Store.Memory.{memory}
use rekindle.Server.Keys.{handle_request_mek}
use rekindle.Server.Tests.Town.{town}
use rekindle.Desktop.Keys.{
  Client, Setting, Membership, sealed, show, handle_broadcast_mek_rotated,
  handle_broadcast_new_message,
}
use rekindle.Desktop.Keys.Reading.{posted, IsClientOf, message_read}

abbrev keyed_town : HostedCommunity
keyed_town = record town { mek = record { key = repeat 32 9; generation = 4 } }

abbrev keyed : Server memory
keyed = record { hosted = ("c1", keyed_town) ∷ []; db = []; sent = [] }

abbrev joined_as : Membership
joined_as = record { channels = "ch1" ∷ []; my_pseudonym_key = none; mek_generation = 3 }

abbrev setting_of : String → Setting
setting_of who = record {
  owner_key = who;
  has_keystore = true;
  stores_key = true;
  mek_key_name = λ cid. cid;
  reply = some (handle_request_mek "c1" who keyed).1;
  as_bytes = λ text. 104 ∷ 105 ∷ [];
  from_utf8 = λ bytes. some "hi";
}

abbrev behind : Client
behind = record {
  communities = ("c1", joined_as) ∷ [];
  mek_cache = ("c1", record { key = repeat 32 1; generation = 3 }) ∷ [];
  outcomes = [];
}

ann-IsClientOf : IsClientOf "c1" keyed_town keyed "ann" (setting_of "ann") behind joined_as
unfolding belongs
ann-IsClientOf = record { member = refl; reply = refl; known = refl }

bob-IsClientOf : IsClientOf "c1" keyed_town keyed "bob" (setting_of "bob") behind joined_as
unfolding belongs
bob-IsClientOf = record { member = refl; reply = refl; known = refl }

abbrev twelve_bytes : List ℕ
twelve_bytes = repeat 12 6

message_read_example :
    (out : List ℕ) × (sealed toy
        (setting_of "ann")
        twelve_bytes
        "ch1"
        "hi"
        (handle_broadcast_mek_rotated (setting_of "ann") "c1" 4 behind)
      ≡ done (out, 4))
    × ((before : Client) × (handle_broadcast_new_message toy
            (setting_of "bob")
            (posted "c1" keyed_town.mek "ch1" "ann" out 50)
            behind
          ≡ show toy
              (setting_of "bob")
              (posted "c1" keyed_town.mek "ch1" "ann" out 50)
              "hi"
              before))
message_read_example =
    message_read toy toy-IsSound "c1" keyed_town keyed refl refl (setting_of "ann")
      (setting_of "bob") "ann" "bob" behind behind joined_as joined_as ann-IsClientOf "ch1" refl
      bob-IsClientOf refl (record { key = repeat 32 1; generation = 3 }) refl
      (λ e. ground (arith, e)) twelve_bytes refl "hi" refl 50
