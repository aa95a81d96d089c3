-- ===== src/Ids.antt =====
-- The deterministic ids of utils.go. What they use of strings, time, crypto/sha1 and encoding/hex is a
-- parameter.
use agenda_distribuida.Prelude.{ℕ, String, ◌^^◌}

-- `sha1_hex` is the hex text of the first 16 bytes of the hash, `rfc3339` the text of a time in UTC.
pub record Digest : Type 0 where
  pub to_lower : String → String
  pub trim_space : String → String
  pub sha1_hex : String → String
  pub rfc3339 : ℕ → String

unfoldable pub stable_id : Digest → String → String → String
stable_id d kind key = d.sha1_hex (kind ^^ (":" ^^ d.to_lower (d.trim_space key)))

unfoldable pub user_id_from_username : Digest → String → String
user_id_from_username d name = stable_id d "user" name

unfoldable pub group_id_from_signature : Digest → String → String → String → String
group_id_from_signature d group_type creator name =
    stable_id d "group" (group_type ^^ (":" ^^ (creator ^^ (":" ^^ name))))

unfoldable pub appointment_id_from_signature : Digest → String → String → ℕ → ℕ → String → String
appointment_id_from_signature d owner group_signature start_ts end_ts title =
    stable_id d "appointment" (
      owner
      ^^ (":"
          ^^ (group_signature
              ^^ (":" ^^ (d.rfc3339 start_ts ^^ (":" ^^ (d.rfc3339 end_ts ^^ (":" ^^ title))))))))
