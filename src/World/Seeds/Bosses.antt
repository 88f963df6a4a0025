-- ===== src/World/Seeds/Bosses.antt =====
-- ssh-hunt/crates/world/src/lib.rs: `seed_npc_combat`, with the chances as the bits of an `f32`.
use ssh_hunt.Base.{true, false, List, [], ◌∷◌, text}
use ssh_hunt.Base.Int.{pos}
use ssh_hunt.World.Records.{NpcCombatState}

unfoldable pub late_fighters : List NpcCombatState
late_fighters =
    record {
      current_name = text "Spectre";
      callsign = text "SPC";
      role = text "Ghost Operative";
      generation = 1;
      times_defeated = 0;
      base_hp = pos 180;
      damage_range = (pos 26, pos 38);
      defend_chance = 1056964608;
      script_chance = 1050253722;
      shell_challenge =
          text
            "Cross-reference /crystal/ops/spectre-kills.log and /crystal/ops/spectre-spared.log to find the ONLY target that appears in both (answer: 'wren')";
      shell_answer = text "wren";
      shell_bonus_dmg = pos 38;
      replaceable = true;
      name_pool =
          text "Spectre"
          ∷ text "Phantom"
          ∷ text "Wraith"
          ∷ text "Shade"
          ∷ text "Ghost"
          ∷ text "Revenant"
          ∷ [];
      reward_wallet = pos 250;
      reward_rep = pos 30;
      reward_achievement = text "Shadow Walker";
    }
    ∷ record {
      current_name = text "Zenith";
      callsign = text "ZEN";
      role = text "Surveillance AI";
      generation = 1;
      times_defeated = 0;
      base_hp = pos 200;
      damage_range = (pos 28, pos 40);
      defend_chance = 1056964608;
      script_chance = 1051931443;
      shell_challenge =
          text
            "Find the OVERRIDE code in /crystal/zenith/core-dump.hex — decode hex lines with awk, find the line containing 'OVERRIDE'";
      shell_answer = text "OVERRIDE";
      shell_bonus_dmg = pos 40;
      replaceable = false;
      name_pool = text "Zenith" ∷ [];
      reward_wallet = pos 300;
      reward_rep = pos 40;
      reward_achievement = text "Surveillance Breaker";
    }
    ∷ record {
      current_name = text "Obsidian";
      callsign = text "OBS";
      role = text "Reach Commander";
      generation = 1;
      times_defeated = 0;
      base_hp = pos 220;
      damage_range = (pos 32, pos 44);
      defend_chance = 1057803469;
      script_chance = 1050253722;
      shell_challenge =
          text
            "Decode /crystal/intercepts/obsidian-orders.b64 (base64 -d), then find 'DOMINION' in the output";
      shell_answer = text "DOMINION";
      shell_bonus_dmg = pos 42;
      replaceable = false;
      name_pool = text "Obsidian" ∷ [];
      reward_wallet = pos 400;
      reward_rep = pos 50;
      reward_achievement = text "Reach Toppled";
    }
    ∷ record {
      current_name = text "APEX";
      callsign = text "APX";
      role = text "Evolved Rogue AI";
      generation = 1;
      times_defeated = 0;
      base_hp = pos 280;
      damage_range = (pos 38, pos 50);
      defend_chance = 1058642330;
      script_chance = 1053609165;
      shell_challenge =
          text
            "Build a pipeline: decode /crystal/apex/core.b64 | grep KILL-SWITCH | awk to extract the shutdown code containing 'TERMINUS'";
      shell_answer = text "TERMINUS";
      shell_bonus_dmg = pos 50;
      replaceable = false;
      name_pool = text "APEX" ∷ [];
      reward_wallet = pos 500;
      reward_rep = pos 75;
      reward_achievement = text "APEX Terminated";
    }
    ∷ record {
      current_name = text "Echo";
      callsign = text "ECHO";
      role = text "ZENITH Voice Interface";
      generation = 1;
      times_defeated = 0;
      base_hp = pos 110;
      damage_range = (pos 16, pos 26);
      defend_chance = 1050253722;
      script_chance = 1053609165;
      shell_challenge = text "Find the DECOMMISSIONED entry in /crystal/zenith/self-diagnostic.log";
      shell_answer = text "OVERRIDE";
      shell_bonus_dmg = pos 24;
      replaceable = true;
      name_pool =
          text "Echo"
          ∷ text "Reverb"
          ∷ text "Ping"
          ∷ text "Signal"
          ∷ text "Resonance"
          ∷ text "Harmonic"
          ∷ [];
      reward_wallet = pos 120;
      reward_rep = pos 15;
      reward_achievement = text "Voice Silenced";
    }
    ∷ record {
      current_name = text "Thorn";
      callsign = text "THORN";
      role = text "Reach Enforcer";
      generation = 1;
      times_defeated = 0;
      base_hp = pos 190;
      damage_range = (pos 28, pos 40);
      defend_chance = 1056964608;
      script_chance = 1048576000;
      shell_challenge =
          text
            "Find 'ELIMINATED' targets in /crystal/personal/spectre-mission-log.txt and count them";
      shell_answer = text "ELIMINATED";
      shell_bonus_dmg = pos 36;
      replaceable = true;
      name_pool =
          text "Thorn"
          ∷ text "Barb"
          ∷ text "Razor"
          ∷ text "Spike"
          ∷ text "Blade"
          ∷ text "Edge"
          ∷ [];
      reward_wallet = pos 250;
      reward_rep = pos 30;
      reward_achievement = text "Enforcer Broken";
    }
    ∷ record {
      current_name = text "Flux";
      callsign = text "FLUX";
      role = text "Black Market Data Fence";
      generation = 1;
      times_defeated = 0;
      base_hp = pos 130;
      damage_range = (pos 18, pos 28);
      defend_chance = 1051931443;
      script_chance = 1051931443;
      shell_challenge =
          text
            "Find Flux's hidden price list: grep -r FLUX /crystal/ and find the item marked PRICELESS";
      shell_answer = text "PRICELESS";
      shell_bonus_dmg = pos 26;
      replaceable = true;
      name_pool =
          text "Flux"
          ∷ text "Glitch"
          ∷ text "Static"
          ∷ text "Noise"
          ∷ text "Drift"
          ∷ text "Surge"
          ∷ [];
      reward_wallet = pos 180;
      reward_rep = pos 20;
      reward_achievement = text "Market Crashed";
    }
    ∷ []
