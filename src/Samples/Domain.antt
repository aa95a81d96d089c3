-- ===== src/Samples/Domain.antt =====
-- Small tables of users, groups and appointments.
use agenda_distribuida.Prelude.{false, String, none, some, [], ◌∷◌, List}
use agenda_distribuida.Ids.{Digest}
use agenda_distribuida.Users.{User, UserRow, row_of}
use agenda_distribuida.Groups.{GroupTables}

abbrev pub plain : Digest
plain = record { to_lower = λ s. s; trim_space = λ s. s; sha1_hex = λ s. s; rfc3339 = λ t. "t" }

abbrev pub user : String → String → String → User
user id name email = record {
  id = id;
  username = name;
  email = email;
  password_hash = "h";
  display_name = name;
}

abbrev pub users : List UserRow
users = row_of (user "1" "ana" "ana@x") ∷ row_of (user "2" "eva" "") ∷ []

abbrev pub tables : GroupTables
tables = record {
  groups =
      record {
        id = "g";
        name = "staff";
        description = "";
        creator_id = "1";
        creator_username = "ana";
        group_type = "hierarchical";
      }
      ∷ [];
  members =
      record { group_id = "g"; user_id = "1"; rank = 5; added_by = none }
      ∷ record { group_id = "g"; user_id = "2"; rank = 1; added_by = none }
      ∷ [];
  appointments =
      record {
        id = "a";
        title = "plan";
        description = "";
        owner_id = "1";
        group_id = some "g";
        start_ts = 100;
        end_ts = 200;
        privacy = "full";
        status = "pending";
        version = 1;
        origin_node = "";
        deleted = false;
      }
      ∷ [];
  participants =
      record {
        id = "p";
        appointment_id = "a";
        user_id = "2";
        status = "pending";
        is_optional = false;
      }
      ∷ [];
}
