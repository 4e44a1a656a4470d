-- ===== src/Workspace/Presence/Examples.antt =====
-- Two tabs of one member, and the user.
use whiparc.Prelude.{String, ◌≡◌, refl, none, some, List, [], ◌∷◌}
use whiparc.Workspace.Presence.{
  Member, RoomEvent, init, present, profile, message, opened, room_run, empty_room,
}
use whiparc.Workspace.Presence.Laws.{ids, IsShownOnce, members_unique}

abbrev member : String → Member
member id = record { id = id; name = "Ada"; color = "red"; avatar_url = none }

abbrev members : List Member
members = member "u2" ∷ member "u1" ∷ member "u2" ∷ member "u3" ∷ []

abbrev entered : List RoomEvent
entered =
    opened
    ∷ message (present init "u1" (some members))
    ∷ message (profile "u3" (some "Bea") none)
    ∷ []

shown_test : ids (room_run "u1" entered empty_room).collaborators ≡ "u2" ∷ "u3" ∷ []
unfolding room_run
shown_test = refl

members_unique_example : IsShownOnce "u1" (room_run "u1" entered empty_room)
members_unique_example = members_unique "u1" entered
