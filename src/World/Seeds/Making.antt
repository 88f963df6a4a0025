-- ===== src/World/Seeds/Making.antt =====
-- ssh-hunt/crates/world/src/lib.rs: `MissionDefinition::new` and `with_validation`.
use ssh_hunt.Base.{ℕ, Bool, List, [], Text}
use ssh_hunt.World.State.{MissionDefinition}

abbrev pub new_mission :
    Text → Text → Bool → Bool → Bool → ℕ → Text → Text → Text → Text → MissionDefinition
new_mission code title required starter hidden sort_order summary story_beat hint
      suggested_command =
    record {
      code = code;
      title = title;
      required = required;
      starter = starter;
      hidden = hidden;
      sort_order = sort_order;
      summary = summary;
      story_beat = story_beat;
      hint = hint;
      suggested_command = suggested_command;
      validation_keywords = [];
    }

abbrev pub with_validation : List Text → MissionDefinition → MissionDefinition
with_validation keywords m = record m { validation_keywords = keywords }
