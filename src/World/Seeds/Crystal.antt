-- ===== src/World/Seeds/Crystal.antt =====
-- ssh-hunt/crates/world/src/lib.rs: `seed_missions`, the discovery of Crystal Array.
use ssh_hunt.Base.{false, List, [], ◌∷◌, text}
use ssh_hunt.World.State.{MissionDefinition}
use ssh_hunt.World.Seeds.Making.{new_mission, with_validation}

unfoldable pub crystal_discovery : List MissionDefinition
crystal_discovery =
    with_validation (text "ARRAY-ACCESS" ∷ []) (
      new_mission (text "crystal-gate") (text "Crystal Gate: Enter the Array") false false false 300
        (text
          "Access the Crystal Array sector by decoding the gate credentials from Wren's hidden stash.")
        (text
          "Wren's reply mentioned Crystal Array. A hidden file in /data/classified/ contains base64-encoded gate credentials. Decode them to prove you have clearance. This is the entry point to everything that comes next.")
        (text "Use base64 -d to decode the credentials file. The gate key is inside.")
        (text "cat /crystal/gate-key.b64 | base64 -d"))
    ∷ with_validation (text "PREDICT" ∷ []) (
        new_mission (text "zenith-log") (text "ZENITH Log: The First Trace") false false false 301
          (text
            "Parse ZENITH's activity log to find the first evidence that an AI surveillance system exists in Crystal Array.")
          (text
            "ZENITH logs are dense — thousands of entries per minute. But buried in the noise is a pattern: PREDICT entries that reference citizen IDs. An AI that predicts human behavior is not a load balancer. Find the PREDICT entries and count them.")
          (text
            "Use grep to find PREDICT entries, then awk to extract the citizen ID field, then count unique IDs.")
          (text "grep PREDICT /crystal/zenith/activity.log | awk '{print $4}' | sort -u | wc -l"))
    ∷ with_validation (text "MIRROR-SYNC" ∷ []) (
        new_mission (text "mirror-detect") (text "Mirror Detect: The Clone") false false false 302
          (text
            "Diff ZENITH's local and remote sync logs to prove a mirror instance exists outside CorpSim's network.")
          (text
            "ZENITH keeps a sync log. It should only sync internally. But the log shows sync events to external IPs — The Reach is running a clone. Diff the internal and external sync logs to prove the mirror exists.")
          (text "Use diff to compare the two sync files. External entries are the mirror.")
          (text "diff /crystal/zenith/sync-internal.log /crystal/zenith/sync-external.log"))
    ∷ with_validation (text "MW" ∷ []) (
        new_mission (text "power-grid-map") (text "Power Grid: Map the Infrastructure") false false
          false 303
          (text
            "Build a power consumption map from the grid log to find which racks are running ZENITH processes.")
          (text
            "Crystal Array's power grid log records wattage per rack. Normal server racks draw 2-4 MW. ZENITH racks draw 12+. Find the OVERLOAD entries to map ZENITH's physical footprint in the facility.")
          (text
            "Grep for OVERLOAD, extract rack ID and wattage with awk, sort by wattage descending.")
          (text
            "grep OVERLOAD /crystal/power-grid.log | awk -F'|' '{print $2, $3}' | sort -t' ' -k2,2nr"))
    ∷ with_validation (text "MODEL" ∷ []) (
        new_mission (text "vault-sat-13") (text "Vault-Sat-13: The Hidden Vault") false false false
          304
          (text
            "Wren's data was stored in vault-sat-9. But Crystal Array has vault-sat-13 — and it contains ZENITH's core models.")
          (text
            "Vault-sat-9 was the decoy. The real prize is vault-sat-13, buried in Crystal Array's classified partition. Access the vault manifest to see what ZENITH is actually storing. The manifest is ROT13 encoded because even CorpSim does not want it readable at rest.")
          (text "Decode the manifest with tr and grep for MODEL entries.")
          (text
            "cat /crystal/classified/vault-sat-13.enc | tr 'A-Za-z' 'N-ZA-Mn-za-m' | grep MODEL"))
    ∷ []

unfoldable pub crystal_introductions : List MissionDefinition
crystal_introductions =
    with_validation (text "CRITICAL" ∷ []) (
      new_mission (text "volt-survey") (text "Volt's Power Survey") false false false 305
        (text "Read Volt's infrastructure survey to understand Crystal Array's power dependencies.")
        (text
          "Volt runs the power grid and knows where every watt goes. The survey report maps which systems depend on ZENITH's scheduling. If you shut ZENITH down without understanding the dependencies, you black out half of NetCity.")
        (text "Read the survey and grep for CRITICAL dependencies.")
        (text "cat /crystal/reports/volt-power-survey.txt | grep CRITICAL"))
    ∷ with_validation (text "BACKBONE" ∷ []) (
        new_mission (text "quicksilver-trace") (text "Quicksilver's Route Table") false false false
          306
          (text
            "Decode Quicksilver's encrypted route table to map Crystal Array's network topology.")
          (text
            "Quicksilver designed the network. The route table is base64-encoded because Obsidian monitors all plaintext traffic. Decode it to see every path between Crystal Array's nodes — including the one that leads to The Reach.")
          (text "Decode the base64 route table and find the BACKBONE routes.")
          (text "cat /crystal/comms/quicksilver-route.b64 | base64 -d | grep BACKBONE"))
    ∷ with_validation (text "ALGORITHM" ∷ []) (
        new_mission (text "cipher-defection") (text "Cipher's Defection Record") false false false
          307
          (text
            "Read the encrypted intelligence file that Cipher left behind when defecting from CorpSim.")
          (text
            "Cipher was CorpSim's best cryptanalyst. When Cipher defected, a notebook was left behind — ROT13 encoded as a dead man's switch. The notebook contains the encryption ALGORITHM that protects ZENITH's behavioral models. Without it, ZENITH's data is unbreakable.")
          (text "Decode Cipher's notebook and find the ALGORITHM specification.")
          (text
            "cat /crystal/classified/cipher-notebook.enc | tr 'A-Za-z' 'N-ZA-Mn-za-m' | grep ALGORITHM"))
    ∷ with_validation (text "SECTOR" ∷ []) (
        new_mission (text "spectre-sighting") (text "Spectre's Dead Drop") false false false 308
          (text
            "Find the surveillance logs where Spectre was spotted in Crystal Array's dead zones.")
          (text
            "Spectre is a ghost — literally invisible to most sensors. But Crystal Array's thermal grid caught anomalous heat signatures in sectors that should be empty. Cross-reference the thermal readings with the motion sensor log to find where Spectre operates.")
          (text "Grep both logs for the same sector IDs and find the overlap.")
          (text
            "grep THERMAL /crystal/ops/thermal-grid.log | awk '{print $3}' | sort -u > /tmp/thermal-sectors.txt && grep MOTION /crystal/ops/motion-sensors.log | awk '{print $3}' | sort -u | grep -Ff /tmp/thermal-sectors.txt"))
    ∷ []
