-- ===== src/World/Seeds/Starters.antt =====
-- ssh-hunt/crates/world/src/lib.rs: `seed_missions`, the starters.
use ssh_hunt.Base.{true, false, List, [], ◌∷◌, text}
use ssh_hunt.World.State.{MissionDefinition}
use ssh_hunt.World.Seeds.Making.{new_mission, with_validation}

unfoldable pub surface_anomalies : List MissionDefinition
surface_anomalies =
    with_validation (text "INFO" ∷ []) (
      new_mission (text "timestamp-gap") (text "Timestamp Gap: The Missing Minutes") false true
        false 15
        (text
          "Sort the gateway log entries and find the 7-minute window where nothing was recorded.")
        (text
          "Every log has a rhythm. This one skips a beat — seven full minutes of silence right when vault-sat-9 dropped off the grid. Gaps like that do not happen by accident.")
        (text
          "Pipe the log through sort to order entries chronologically. Look for the jump in timestamps.")
        (text "grep INFO /logs/neon-gateway.log | sort"))
    ∷ with_validation (text "wren" ∷ []) (
        new_mission (text "ghost-user") (text "Ghost User: Who Is WREN?") false true false 16
          (text "Search the auth log for a username that should not exist on this system.")
          (text
            "The auth log records every login attempt. Most names you recognize — neo, rift, shadow. But one name does not match anyone on the roster. A ghost in the system.")
          (text "Use grep to search for the user 'wren' in the auth log.")
          (text "grep wren /var/log/auth.log"))
    ∷ with_validation (text "GLASS-AXON" ∷ []) (
        new_mission (text "signal-trace") (text "Signal Trace: Follow GLASS-AXON-13") false true
          false 17
          (text
            "Count how many log files contain the GLASS-AXON-13 signal. It is in more places than it should be.")
          (text
            "Everyone assumed GLASS-AXON-13 was a stuck beacon repeating on one channel. But if you search every log, it shows up in places a simple beacon should never reach.")
          (text
            "Use grep -r to search recursively across all files in /logs/. Add -l to list just the filenames.")
          (text "grep -rl GLASS-AXON-13 /logs/"))
    ∷ with_validation (text ".memo" ∷ []) (
        new_mission (text "deleted-file") (text "Deleted File: The Empty Directory") false true
          false 18
          (text
            "Someone cleaned out /data/classified/ but missed a hidden dotfile. Find what they left behind.")
          (text
            "The cleanup crew was thorough — almost. A single dotfile survived the purge because standard tools skip hidden files unless you know to look for them.")
          (text
            "Use ls -la to show hidden files (those starting with a dot). The -a flag reveals everything.")
          (text "ls -la /data/classified/"))
    ∷ with_validation (text "unauthorized" ∷ []) (
        new_mission (text "first-clue") (text "First Clue: The Unsigned Commit") false true false 19
          (text
            "Read the system changelog and find the unauthorized config change that happened before the blackout.")
          (text
            "Every legitimate change is signed and attributed. One entry in the changelog has no signature, no author, and landed minutes before everything went dark.")
          (text "Use cat to read the changelog. Look for the word 'unauthorized'.")
          (text "cat /data/reports/changelog.txt"))
    ∷ []

unfoldable pub first_introductions : List MissionDefinition
first_introductions =
    with_validation (text "Rivet" ∷ []) (
      new_mission (text "rivet-log") (text "Rivet's Field Report") false true false 20
        (text "Read the field mechanic's first-person account of the night Ghost Rail went dark.")
        (text
          "Rivet was on shift when the relays died. While everyone else stared at dashboards, Rivet ran the physical damage assessment. The field report says the relays went dark in sequence — not all at once. That is not how cascading failures work.")
        (text "Read Rivet's report with cat. Look for details about the sequence of events.")
        (text "cat /data/reports/rivet-field-report.txt"))
    ∷ with_validation (text "ANOMALY" ∷ []) (
        new_mission (text "nix-signal") (text "Nix's Frequency Scan") false true false 21
          (text
            "Count the anomalous signals in Nix's frequency scan — she was the first to notice something was wrong.")
          (text
            "Nix is a signals analyst who noticed GLASS-AXON-13 before anyone else. Her frequency scan flagged anomalous entries that CorpSim later buried. Count the flagged entries to see the scale of what she found.")
          (text "Grep for ANOMALY flags in Nix's scan log and count them with wc -l.")
          (text "grep ANOMALY /data/reports/nix-frequency-scan.log | wc -l"))
    ∷ with_validation (text "Ghost Rail" ∷ []) (
        new_mission (text "lumen-price") (text "Lumen's Price List") false true false 22
          (text "Read the Neon Bazaar broker's price list — one item should not be for sale.")
          (text
            "Lumen sells information to anyone who can pay. The price list is public, posted on the Bazaar boards for anyone to read. Most of it is harmless. But one line item — Ghost Rail access codes — should never be on a public market.")
          (text "Read the price list and find the entry about Ghost Rail.")
          (text "cat /data/lore/lumen-price-list.txt | grep -i ghost"))
    ∷ with_validation (text "alibi" ∷ []) (
        new_mission (text "dusk-alibi") (text "Dusk's Detention Record") false true false 23
          (text
            "Read the detention record of CorpSim's prime suspect and find the alibi that clears them.")
          (text
            "Dusk was arrested as the obvious suspect — disgraced, insubordinate, already on thin ice. But the detention record has timestamps. And those timestamps put Dusk in a completely different sector when vault-sat-9 went dark. Someone wanted a scapegoat.")
          (text "Grep for the alibi timestamps in the detention log.")
          (text "grep alibi /data/reports/dusk-detention.log"))
    ∷ []
