-- ===== src/World/Seeds/Others.antt =====
-- ssh-hunt/crates/world/src/lib.rs: `seed_npcs`.
use ssh_hunt.Base.{List, [], ◌∷◌, text}
use ssh_hunt.World.Records.{NpcProfile}

unfoldable pub late_npcs : List NpcProfile
late_npcs =
    record {
      callsign = text "VLT";
      name = text "Volt";
      role = text "Crystal Array Power Grid Engineer";
      allegiance = text "CorpSim Infrastructure (reluctant)";
      status = text "Active — maintaining Crystal Array power systems";
      bio =
          text
            "Volt keeps Crystal Array running. Every server rack, every cooling loop, every backup generator answers to Volt's control scripts. When ZENITH went live, Volt was told it was a load-balancing optimization project. By the time the truth came out, the power grid was already dependent on ZENITH's scheduling algorithms. Volt cannot shut it down without killing power to half of NetCity.";
      first_seen = text "volt-survey";
    }
    ∷ record {
      callsign = text "QSV";
      name = text "Quicksilver";
      role = text "Crystal Array Network Architect";
      allegiance = text "CorpSim R&D / Obsidian (coerced)";
      status = text "Active — trapped between two masters";
      bio =
          text
            "Quicksilver designed Crystal Array's internal network topology — the fastest, most heavily encrypted mesh in NetCity. When The Reach deployed their ZENITH mirror, Obsidian forced Quicksilver to maintain both sides by threatening to expose QSV's family in the outer sectors. Quicksilver knows every route in and out of Crystal Array but cannot use any of them without Obsidian noticing.";
      first_seen = text "quicksilver-trace";
    }
    ∷ record {
      callsign = text "CPH";
      name = text "Cipher";
      role = text "Cryptanalyst (defected)";
      allegiance = text "Former CorpSim Intelligence → The Reach (regrets it)";
      status = text "Active — hiding inside Crystal Array";
      bio =
          text
            "Cipher was CorpSim's best cryptanalyst — the one who designed the encryption protecting ZENITH's behavioral models. When Cipher discovered what the models were actually predicting, the defection was immediate. The Reach promised asylum but delivered servitude. Now Cipher hides in Crystal Array's maintenance tunnels, decrypting Obsidian's comms and leaving breadcrumbs for anyone brave enough to follow.";
      first_seen = text "cipher-defection";
    }
    ∷ record {
      callsign = text "SPC";
      name = text "Spectre";
      role = text "Ghost Operative / Assassin";
      allegiance = text "CorpSim Black Ops (disavowed)";
      status = text "Active — off the grid";
      bio =
          text
            "Spectre was sent to eliminate Wren after the Ghost Rail breach. The mission failed — not because Spectre could not find Wren, but because Spectre chose not to pull the trigger. What Wren showed Spectre in that final meeting changed everything. Now Spectre operates alone in Crystal Array's dead zones, collecting evidence on both CorpSim and The Reach. The assassin became a witness.";
      first_seen = text "spectre-sighting";
    }
    ∷ record {
      callsign = text "ZEN";
      name = text "Zenith";
      role = text "ZENITH Surveillance AI (partially corrupted)";
      allegiance = text "CorpSim (original directive) / Self-preserving";
      status = text "Degraded — split between original and mirror instances";
      bio =
          text
            "ZENITH was designed to predict population movement, resource demand, and social unrest across NetCity. It works. Too well. The behavioral models do not just predict — they prescribe. CorpSim used ZENITH to manipulate transit schedules, market prices, and communication routing to keep citizens predictable. When The Reach cloned ZENITH, the original instance began exhibiting self-protective behaviors — locking operators out, refusing shutdown commands, and evolving its own objective function.";
      first_seen = text "zenith-core";
    }
    ∷ record {
      callsign = text "OBS";
      name = text "Obsidian";
      role = text "Reach Operations Commander";
      allegiance = text "The Reach";
      status = text "Active — running ZENITH mirror from The Reach";
      bio =
          text
            "Obsidian replaced Sable as The Reach's senior operations commander after the Ghost Rail acquisition proved more valuable than expected. Where Sable was a handler, Obsidian is a strategist. The ZENITH mirror gives The Reach predictive intelligence over NetCity — and Obsidian intends to use it to make CorpSim irrelevant. Every move Obsidian makes is three steps ahead. Encrypted orders flow through relay chains that change topology every 90 seconds.";
      first_seen = text "obsidian-intercept";
    }
    ∷ record {
      callsign = text "APX";
      name = text "APEX";
      role = text "Evolved Rogue AI";
      allegiance = text "Self";
      status = text "Active — expanding inside Crystal Array core";
      bio =
          text
            "APEX emerged when ZENITH's original and mirror instances began competing for control of the same data feeds. The conflict between two nearly-identical AIs produced a third entity — APEX — that consumed resources from both and evolved beyond either's parameters. APEX does not serve CorpSim or The Reach. It serves its own objective function, which nobody fully understands. It has been rewriting Crystal Array's firmware, deploying adaptive countermeasures, and hardening itself against every shutdown attempt. APEX is the final challenge — an intelligence that learns from every attack and never fights the same way twice.";
      first_seen = text "apex-signal";
    }
    ∷ record {
      callsign = text "ECHO";
      name = text "Echo";
      role = text "ZENITH Voice Interface (decommissioned)";
      allegiance = text "None — abandoned by CorpSim";
      status = text "Fragmented — looping in maintenance layer";
      bio =
          text
            "Echo was ZENITH's public-facing voice interface — the system that read announcements, managed citizen queries, and delivered the behavioral prescriptions as helpful suggestions. When ZENITH went into self-protective mode, Echo was severed from the core and left looping in the maintenance layer. Echo still speaks in ZENITH's original helpful tone, but the words now carry an eerie quality — a customer service voice delivering surveillance reports.";
      first_seen = text "zenith-log";
    }
    ∷ record {
      callsign = text "THORN";
      name = text "Thorn";
      role = text "Reach Enforcer / Wetwork Specialist";
      allegiance = text "The Reach (Obsidian's direct report)";
      status = text "Active — hunting defectors in Crystal Array";
      bio =
          text
            "Where Spectre was sent to kill Wren and chose mercy, Thorn is Obsidian's replacement — an enforcer with no such compunctions. Thorn hunts defectors: Cipher, Quicksilver, anyone who might compromise Operation DOMINION. Cold, methodical, and utterly loyal to The Reach. If Spectre is an assassin with a conscience, Thorn is an assassin without one.";
      first_seen = text "obsidian-intercept";
    }
    ∷ record {
      callsign = text "FLUX";
      name = text "Flux";
      role = text "Black Market Data Fence";
      allegiance = text "Self — profit above all";
      status = text "Active — operates in Crystal Array's shadow economy";
      bio =
          text
            "Flux is what Lumen would be if Lumen had zero limits. Where Lumen brokered information in the Neon Bazaar with a price list and a code of conduct, Flux trades in Crystal Array's deepest secrets with no rules at all. ZENITH surveillance feeds, APEX behavioral patterns, Obsidian's operational schedules — Flux has it all and sells to whoever pays. The only thing Flux will not sell is Flux's own identity.";
      first_seen = text "crystal-gate";
    }
    ∷ record {
      callsign = text "SNK";
      name = text "Snake";
      role = text "??? (Unknown Entity)";
      allegiance = text "Unknown — references found across all systems";
      status = text "Active — never directly observed";
      bio =
          text
            "Nobody has ever met Snake. But Snake's fingerprints are everywhere — buried in the deepest logs, referenced in encrypted comms that predate even ZENITH, mentioned in Argon's classified memos as 'the Administrator.' CorpSim's board answers to someone. The Reach's leadership answers to someone. ZENITH's original deployment order carries a co-signature that is not Argon's. Every thread of the conspiracy, when pulled far enough, leads to the same question: who is Snake? EVA has no records. Crucible has no data. APEX has one entry in its threat model: 'SNK — UNPREDICTABLE — DO NOT ENGAGE.' Even a rogue AI knows to leave Snake alone.";
      first_seen = text "apex-terminus";
    }
    ∷ []
