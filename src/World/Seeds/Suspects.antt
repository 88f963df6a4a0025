-- ===== src/World/Seeds/Suspects.antt =====
-- ssh-hunt/crates/world/src/lib.rs: `seed_npc_combat`, with the chances as the bits of an `f32`.
use ssh_hunt.Base.{true, List, [], ◌∷◌, text}
use ssh_hunt.Base.Int.{pos}
use ssh_hunt.World.Records.{NpcCombatState}

unfoldable pub early_fighters : List NpcCombatState
early_fighters =
    record {
      current_name = text "Dusk";
      callsign = text "DSK";
      role = text "Suspect";
      generation = 1;
      times_defeated = 0;
      base_hp = pos 40;
      damage_range = (pos 8, pos 14);
      defend_chance = 1036831949;
      script_chance = 1036831949;
      shell_challenge = text "Count the lines in /var/log/auth.log (use wc -l)";
      shell_answer = text "7";
      shell_bonus_dmg = pos 12;
      replaceable = true;
      name_pool =
          text "Dusk"
          ∷ text "Shade"
          ∷ text "Haze"
          ∷ text "Murk"
          ∷ text "Gloom"
          ∷ text "Twilight"
          ∷ [];
      reward_wallet = pos 30;
      reward_rep = pos 5;
      reward_achievement = text "Cleared the Innocent";
    }
    ∷ record {
      current_name = text "Lumen";
      callsign = text "LUM";
      role = text "Information Broker";
      generation = 1;
      times_defeated = 0;
      base_hp = pos 50;
      damage_range = (pos 10, pos 16);
      defend_chance = 1041865114;
      script_chance = 1041865114;
      shell_challenge = text "Find 'Ghost Rail' in /data/lore/lumen-price-list.txt";
      shell_answer = text "Ghost Rail";
      shell_bonus_dmg = pos 14;
      replaceable = true;
      name_pool =
          text "Lumen"
          ∷ text "Glint"
          ∷ text "Prism"
          ∷ text "Shard"
          ∷ text "Flux"
          ∷ text "Ember"
          ∷ [];
      reward_wallet = pos 30;
      reward_rep = pos 5;
      reward_achievement = text "Bazaar Brawler";
    }
    ∷ record {
      current_name = text "Rivet";
      callsign = text "RIV";
      role = text "Field Mechanic";
      generation = 1;
      times_defeated = 0;
      base_hp = pos 60;
      damage_range = (pos 10, pos 18);
      defend_chance = 1048576000;
      script_chance = 1041865114;
      shell_challenge = text "Find 'sequence' in /data/reports/rivet-field-report.txt";
      shell_answer = text "sequence";
      shell_bonus_dmg = pos 16;
      replaceable = true;
      name_pool =
          text "Rivet"
          ∷ text "Weld"
          ∷ text "Forge"
          ∷ text "Anvil"
          ∷ text "Torque"
          ∷ text "Gauge"
          ∷ [];
      reward_wallet = pos 50;
      reward_rep = pos 8;
      reward_achievement = text "Wrench Turner";
    }
    ∷ record {
      current_name = text "Patch";
      callsign = text "PAT";
      role = text "Courier";
      generation = 1;
      times_defeated = 0;
      base_hp = pos 60;
      damage_range = (pos 12, pos 18);
      defend_chance = 1045220557;
      script_chance = 1045220557;
      shell_challenge = text "Find 'Nix' in /data/drops/patch-package.txt";
      shell_answer = text "Nix";
      shell_bonus_dmg = pos 16;
      replaceable = true;
      name_pool =
          text "Patch"
          ∷ text "Splice"
          ∷ text "Relay"
          ∷ text "Bridge"
          ∷ text "Conduit"
          ∷ text "Link"
          ∷ [];
      reward_wallet = pos 50;
      reward_rep = pos 8;
      reward_achievement = text "Package Intercepted";
    }
    ∷ record {
      current_name = text "Nix";
      callsign = text "NIX";
      role = text "Signals Analyst";
      generation = 1;
      times_defeated = 0;
      base_hp = pos 70;
      damage_range = (pos 12, pos 20);
      defend_chance = 1050253722;
      script_chance = 1048576000;
      shell_challenge = text "Count ANOMALY lines in /data/reports/nix-frequency-scan.log";
      shell_answer = text "ANOMALY";
      shell_bonus_dmg = pos 18;
      replaceable = true;
      name_pool =
          text "Nix"
          ∷ text "Cipher"
          ∷ text "Vector"
          ∷ text "Scalar"
          ∷ text "Matrix"
          ∷ text "Tensor"
          ∷ [];
      reward_wallet = pos 50;
      reward_rep = pos 8;
      reward_achievement = text "Signal Override";
    }
    ∷ record {
      current_name = text "Ferro";
      callsign = text "FER";
      role = text "Security Chief";
      generation = 1;
      times_defeated = 0;
      base_hp = pos 90;
      damage_range = (pos 14, pos 24);
      defend_chance = 1053609165;
      script_chance = 1045220557;
      shell_challenge = text "Find SUPPRESS in /data/classified/ferro-lockdown-order.txt";
      shell_answer = text "SUPPRESS";
      shell_bonus_dmg = pos 22;
      replaceable = true;
      name_pool =
          text "Ferro"
          ∷ text "Cobalt"
          ∷ text "Titanium"
          ∷ text "Chromium"
          ∷ text "Vanadium"
          ∷ text "Tungsten"
          ∷ [];
      reward_wallet = pos 80;
      reward_rep = pos 12;
      reward_achievement = text "Firewall Breaker";
    }
    ∷ record {
      current_name = text "Crucible";
      callsign = text "CRU";
      role = text "Rogue AI";
      generation = 1;
      times_defeated = 0;
      base_hp = pos 100;
      damage_range = (pos 16, pos 26);
      defend_chance = 1051931443;
      script_chance = 1051931443;
      shell_challenge = text "Find MAP in /logs/crucible-netmap-fragments.txt";
      shell_answer = text "MAP";
      shell_bonus_dmg = pos 24;
      replaceable = true;
      name_pool =
          text "Crucible"
          ∷ text "Furnace"
          ∷ text "Catalyst"
          ∷ text "Reactor"
          ∷ text "Nexus"
          ∷ text "Cortex"
          ∷ [];
      reward_wallet = pos 80;
      reward_rep = pos 12;
      reward_achievement = text "Ghost in the Machine";
    }
    ∷ []
