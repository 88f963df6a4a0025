-- ===== src/World/Seeds/Rivals.antt =====
-- ssh-hunt/crates/world/src/lib.rs: `seed_npc_combat`, with the chances as the bits of an `f32`.
use ssh_hunt.Base.{true, false, List, [], ◌∷◌, text}
use ssh_hunt.Base.Int.{pos}
use ssh_hunt.World.Records.{NpcCombatState}

unfoldable pub middle_fighters : List NpcCombatState
middle_fighters =
    record {
      current_name = text "Kestrel";
      callsign = text "KES";
      role = text "Station Chief";
      generation = 1;
      times_defeated = 0;
      base_hp = pos 100;
      damage_range = (pos 14, pos 24);
      defend_chance = 1055286886;
      script_chance = 1045220557;
      shell_challenge = text "Find INTEL in /data/classified/kestrel-briefing.txt";
      shell_answer = text "INTEL";
      shell_bonus_dmg = pos 24;
      replaceable = true;
      name_pool =
          text "Kestrel"
          ∷ text "Falcon"
          ∷ text "Osprey"
          ∷ text "Harrier"
          ∷ text "Merlin"
          ∷ text "Peregrine"
          ∷ [];
      reward_wallet = pos 80;
      reward_rep = pos 12;
      reward_achievement = text "Station Override";
    }
    ∷ record {
      current_name = text "Argon";
      callsign = text "ARG";
      role = text "Executive Director";
      generation = 1;
      times_defeated = 0;
      base_hp = pos 120;
      damage_range = (pos 18, pos 28);
      defend_chance = 1053609165;
      script_chance = 1048576000;
      shell_challenge = text "Find DIRECTIVE in /data/classified/argon-exec-orders.txt";
      shell_answer = text "DIRECTIVE";
      shell_bonus_dmg = pos 28;
      replaceable = true;
      name_pool =
          text "Argon"
          ∷ text "Xenon"
          ∷ text "Krypton"
          ∷ text "Neon"
          ∷ text "Helium"
          ∷ text "Radon"
          ∷ [];
      reward_wallet = pos 120;
      reward_rep = pos 18;
      reward_achievement = text "Board Overthrown";
    }
    ∷ record {
      current_name = text "Sable";
      callsign = text "SAB";
      role = text "Intelligence Handler";
      generation = 1;
      times_defeated = 0;
      base_hp = pos 130;
      damage_range = (pos 20, pos 30);
      defend_chance = 1051931443;
      script_chance = 1050253722;
      shell_challenge =
          text "Decode /data/intercepts/sable-to-wren.enc with ROT13 and find 'extraction'";
      shell_answer = text "extraction";
      shell_bonus_dmg = pos 30;
      replaceable = true;
      name_pool =
          text "Sable"
          ∷ text "Onyx"
          ∷ text "Slate"
          ∷ text "Obsidian"
          ∷ text "Basalt"
          ∷ text "Flint"
          ∷ [];
      reward_wallet = pos 120;
      reward_rep = pos 18;
      reward_achievement = text "Shadow Contact";
    }
    ∷ record {
      current_name = text "Wren";
      callsign = text "WREN";
      role = text "The Insider";
      generation = 1;
      times_defeated = 0;
      base_hp = pos 150;
      damage_range = (pos 22, pos 32);
      defend_chance = 1055286886;
      script_chance = 1050253722;
      shell_challenge = text "Decode /data/classified/wren-final.enc and find 'confession'";
      shell_answer = text "confession";
      shell_bonus_dmg = pos 35;
      replaceable = false;
      name_pool = text "Wren" ∷ [];
      reward_wallet = pos 200;
      reward_rep = pos 30;
      reward_achievement = text "Ghost Rail Avenger";
    }
    ∷ record {
      current_name = text "Volt";
      callsign = text "VLT";
      role = text "Power Grid Engineer";
      generation = 1;
      times_defeated = 0;
      base_hp = pos 140;
      damage_range = (pos 20, pos 30);
      defend_chance = 1051931443;
      script_chance = 1048576000;
      shell_challenge =
          text
            "Find the OVERLOAD entry in /crystal/power-grid.log and extract the wattage field with awk (answer contains 'MW')";
      shell_answer = text "MW";
      shell_bonus_dmg = pos 30;
      replaceable = true;
      name_pool =
          text "Volt" ∷ text "Amp" ∷ text "Ohm" ∷ text "Watt" ∷ text "Tesla" ∷ text "Farad" ∷ [];
      reward_wallet = pos 150;
      reward_rep = pos 20;
      reward_achievement = text "Grid Override";
    }
    ∷ record {
      current_name = text "Quicksilver";
      callsign = text "QSV";
      role = text "Network Architect";
      generation = 1;
      times_defeated = 0;
      base_hp = pos 160;
      damage_range = (pos 22, pos 32);
      defend_chance = 1053609165;
      script_chance = 1050253722;
      shell_challenge =
          text "Decode /crystal/comms/quicksilver-route.b64 with base64 -d and find 'BACKBONE'";
      shell_answer = text "BACKBONE";
      shell_bonus_dmg = pos 32;
      replaceable = true;
      name_pool =
          text "Quicksilver"
          ∷ text "Mercury"
          ∷ text "Platinum"
          ∷ text "Gallium"
          ∷ text "Iridium"
          ∷ text "Osmium"
          ∷ [];
      reward_wallet = pos 180;
      reward_rep = pos 25;
      reward_achievement = text "Topology Cracker";
    }
    ∷ record {
      current_name = text "Cipher";
      callsign = text "CPH";
      role = text "Cryptanalyst";
      generation = 1;
      times_defeated = 0;
      base_hp = pos 160;
      damage_range = (pos 24, pos 34);
      defend_chance = 1053609165;
      script_chance = 1051931443;
      shell_challenge =
          text
            "Decode /crystal/classified/cipher-notebook.enc (ROT13) then grep for 'ALGORITHM' — multi-step required";
      shell_answer = text "ALGORITHM";
      shell_bonus_dmg = pos 34;
      replaceable = true;
      name_pool =
          text "Cipher"
          ∷ text "Enigma"
          ∷ text "Vigenere"
          ∷ text "Playfair"
          ∷ text "Atbash"
          ∷ text "Vernam"
          ∷ [];
      reward_wallet = pos 180;
      reward_rep = pos 25;
      reward_achievement = text "Cipher Breaker";
    }
    ∷ []
