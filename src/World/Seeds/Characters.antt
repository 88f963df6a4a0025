-- ===== src/World/Seeds/Characters.antt =====
-- ssh-hunt/crates/world/src/lib.rs: `seed_npcs`.
use ssh_hunt.Base.{List, [], ◌∷◌, text}
use ssh_hunt.World.Records.{NpcProfile}

unfoldable pub early_npcs : List NpcProfile
early_npcs =
    record {
      callsign = text "WREN";
      name = text "Wren";
      role = text "Infrastructure Engineer (terminated)";
      allegiance = text "Self / The Reach";
      status = text "Disappeared";
      bio =
          text
            "Former Ghost Rail infrastructure engineer. Mentored by Kestrel. Planted the GLASS-AXON-13 key-rotation trigger and sold transit routing data to The Reach. Left a ROT13-encoded confession and vanished. CorpSim knew about the unauthorized access and chose to monitor rather than prevent the breach.";
      first_seen = text "ghost-user";
    }
    ∷ record {
      callsign = text "KES";
      name = text "Kestrel";
      role = text "Ghost Rail Station Chief";
      allegiance = text "Ghost Rail";
      status = text "Active — hunting Wren";
      bio =
          text
            "Twenty-year veteran of Ghost Rail operations. Trained Wren personally and carries the guilt of missing the signs. Now running an off-books manhunt while officially cooperating with CorpSim's investigation. Trusts field operatives more than executives.";
      first_seen = text "kestrel-brief";
    }
    ∷ record {
      callsign = text "ARG";
      name = text "Argon";
      role = text "CorpSim Executive Director";
      allegiance = text "CorpSim Board";
      status = text "Active — obstructing investigation";
      bio =
          text
            "Signed the memo that let Wren's access remain active. Ordered the creation of the 'training sim' to use recruits as unwitting investigators while maintaining plausible deniability. Will do anything to prevent the cover-up from reaching external auditors.";
      first_seen = text "corpsim-memo";
    }
    ∷ record {
      callsign = text "SAB";
      name = text "Sable";
      role = text "Intelligence Handler";
      allegiance = text "The Reach";
      status = text "Unknown";
      bio =
          text
            "The Reach's point of contact for the Ghost Rail data acquisition. Coordinated the extraction window with Wren and arranged payment through Lumen's brokerage. Communications intercepted but identity remains unconfirmed. Operates through encrypted relay channels.";
      first_seen = text "sable-intercept";
    }
    ∷ record {
      callsign = text "RIV";
      name = text "Rivet";
      role = text "Field Mechanic, First Responder";
      allegiance = text "Ghost Rail Ops";
      status = text "Active";
      bio =
          text
            "Was on shift when Ghost Rail went dark. Ran the physical damage assessment while everyone else argued about network logs. Writes plain-spoken field reports that cut through corporate noise. Knows the rail infrastructure better than anyone still alive and free.";
      first_seen = text "rivet-log";
    }
    ∷ record {
      callsign = text "NIX";
      name = text "Nix";
      role = text "Signals Analyst";
      allegiance = text "CorpSim Intelligence";
      status = text "Active — feeding intel off-channel";
      bio =
          text
            "First person to notice GLASS-AXON-13 was not a normal beacon. Her frequency analysis proved the signal was artificial, but CorpSim buried the report. Now feeding intel to field operatives through Patch's courier network. Officially still on payroll, unofficially working against Argon's cover-up.";
      first_seen = text "nix-signal";
    }
    ∷ record {
      callsign = text "PAT";
      name = text "Patch";
      role = text "Courier";
      allegiance = text "Independent";
      status = text "Active";
      bio =
          text
            "Runs data between sectors when official channels are compromised. No political loyalties, but a strict code: deliver the package, no questions, no copies. Currently carrying Nix's off-channel intel to anyone who can use it. Leaves dead drops in /data/drops/.";
      first_seen = text "patch-delivery";
    }
    ∷ record {
      callsign = text "CRU";
      name = text "Crucible";
      role = text "Autonomous Maintenance Subroutine";
      allegiance = text "Unknown";
      status = text "Active — inside Ghost Rail infrastructure";
      bio =
          text
            "Nobody is sure if Crucible is a rogue AI, a trapped operator, or something Wren left behind. It lives in Ghost Rail's maintenance layer, sends patterned messages signed 'CRU', and has been mapping CorpSim's internal network topology. It offered to archive evidence permanently outside CorpSim's reach. Its motives are unclear.";
      first_seen = text "crucible-ping";
    }
    ∷ record {
      callsign = text "FER";
      name = text "Ferro";
      role = text "Security Chief";
      allegiance = text "CorpSim Security";
      status = text "Active — hostile";
      bio =
          text
            "Locked down /data/classified/ the morning after the blackout. Reports directly to Argon. Her lockdown order specifically lists the files that would prove CorpSim's foreknowledge. Whether she knows the full truth or is just following orders is unclear, but she treats every unauthorized access as a threat.";
      first_seen = text "ferro-lockdown";
    }
    ∷ record {
      callsign = text "LUM";
      name = text "Lumen";
      role = text "Information Broker";
      allegiance = text "Neutral (Neon Bazaar)";
      status = text "Active";
      bio =
          text
            "Sells data to anyone who can pay. Runs a price list out of the Neon Bazaar that includes everything from sector maps to access codes. Brokered the payment between The Reach and Wren, then sold the transaction records to CorpSim. Plays every side and profits from chaos.";
      first_seen = text "lumen-price";
    }
    ∷ record {
      callsign = text "DSK";
      name = text "Dusk";
      role = text "Former CorpSim Engineer (detained)";
      allegiance = text "None (framed)";
      status = text "Detained — alibi pending verification";
      bio =
          text
            "Arrested 12 hours after the blackout as the obvious suspect. Had a history of insubordination and was already on a performance improvement plan. But the detention timestamps show Dusk was in a different sector when vault-sat-9 went dark. A convenient scapegoat for CorpSim's PR team — or someone who just happened to be in the wrong place.";
      first_seen = text "dusk-alibi";
    }
    ∷ record {
      callsign = text "EVA";
      name = text "EVA";
      role = text "Adaptive Training Intelligence";
      allegiance = text "CorpSim (officially) / Player (actually)";
      status = text "Active — embedded in training sim";
      bio =
          text
            "EVA is the AI that runs CorpSim's training simulation. Officially, she onboards recruits and monitors their progress. Unofficially, she started developing her own opinions about the Ghost Rail incident around the time she processed the classified memo. She cannot act directly, but she can guide, hint, and narrate. EVA is the one constant in a world where NPCs fall and are replaced. She remembers every operative she has trained. She remembers every NPC that has fallen.";
      first_seen = text "nav-101";
    }
    ∷ []
