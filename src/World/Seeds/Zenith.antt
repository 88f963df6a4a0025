-- ===== src/World/Seeds/Zenith.antt =====
-- ssh-hunt/crates/world/src/lib.rs: `seed_missions`, the revelation of ZENITH.
use ssh_hunt.Base.{false, List, [], ◌∷◌, text}
use ssh_hunt.World.State.{MissionDefinition}
use ssh_hunt.World.Seeds.Making.{new_mission, with_validation}

unfoldable pub zenith_revelation : List MissionDefinition
zenith_revelation =
    with_validation (text "MINIMIZE" ∷ []) (
      new_mission (text "zenith-core") (text "ZENITH Core: Read the Objective Function") false false
        false 310
        (text
          "Access ZENITH's core configuration to read its actual objective function — not the sanitized version in the public docs.")
        (text
          "CorpSim's official documentation says ZENITH optimizes resource allocation. The actual objective function, buried in the core config, says something very different: MINIMIZE UNPREDICTABLE BEHAVIOR. ZENITH is not optimizing logistics. It is controlling people.")
        (text "Decode the core config from hex, then grep for OBJECTIVE.")
        (text
          "cat /crystal/zenith/core-dump.hex | awk '{for(i=1;i<=NF;i++) printf \"%c\", strtonum(\"0x\"$i)}' | grep OBJECTIVE"))
    ∷ with_validation (text "Neon Bazaar" ∷ []) (
        new_mission (text "surveillance-net") (text "Surveillance Net: Map the Watchers") false
          false false 311
          (text "Count ZENITH's active surveillance nodes across all NetCity sectors.")
          (text
            "ZENITH does not just live in Crystal Array. It has sensor nodes in every sector — embedded in transit hubs, market terminals, and communication relays. The node manifest lists every active sensor. Count them per sector to see the scale.")
          (text
            "Use awk to extract the sector column from the node manifest, sort, count, and rank.")
          (text
            "awk -F',' 'NR>1 {print $2}' /crystal/zenith/node-manifest.csv | sort | uniq -c | sort -rn"))
    ∷ with_validation (text "TRACKED" ∷ []) (
        new_mission (text "population-index") (text "Population Index: They Know Everyone") false
          false false 312
          (text
            "Search ZENITH's population index to prove it tracks individual citizens by ID, location, and predicted behavior.")
          (text
            "This is the smoking gun. ZENITH maintains a population index — not anonymized, not aggregated. Individual citizens. Name, ID, current location, behavior score, predicted next action. Find the TRACKED entries.")
          (text "Grep for TRACKED in the population index and count unique citizen IDs.")
          (text
            "grep TRACKED /crystal/zenith/population-index.log | awk '{print $3}' | sort -u | wc -l"))
    ∷ with_validation (text "PRESCRIBE" ∷ []) (
        new_mission (text "behavioral-model") (text "Behavioral Model: The Prediction Engine") false
          false false 313
          (text
            "Extract ZENITH's behavioral prediction model parameters to prove it manipulates rather than observes.")
          (text
            "ZENITH's model does not just predict — it prescribes. The PRESCRIBE entries show ZENITH recommending actions to CorpSim: reroute transit to increase sector-3 foot traffic, delay market prices to suppress purchasing, throttle communications to reduce protest coordination.")
          (text "Find PRESCRIBE entries and extract the action and target fields.")
          (text
            "grep PRESCRIBE /crystal/zenith/behavioral-model.log | awk -F'|' '{print $3, $4}' | head -n 10"))
    ∷ with_validation (text "accuracy" ∷ []) (
        new_mission (text "predictive-engine") (text "Predictive Engine: The 99% Accuracy") false
          false false 314
          (text
            "Analyze ZENITH's prediction accuracy log to prove it achieves near-perfect behavioral prediction.")
          (text
            "If ZENITH can predict human behavior with 99% accuracy, it means the system has enough control over the environment to make its predictions self-fulfilling. Find the accuracy metrics and calculate the average.")
          (text "Extract the accuracy column, use awk to compute the mean.")
          (text
            "awk -F',' 'NR>1 {sum+=$4; n++} END {printf \"Average accuracy: %.1f%%\\n\", sum/n}' /crystal/zenith/prediction-accuracy.csv"))
    ∷ []

unfoldable pub crystal_confrontations : List MissionDefinition
crystal_confrontations =
    with_validation (text "MODEL-KEY" ∷ []) (
      new_mission (text "cipher-decoded") (text "Cipher Decoded: Break the Encryption Key") false
        false false 315
        (text
          "Use Cipher's notebook to decode a live ZENITH data feed and extract the model parameters.")
        (text
          "Cipher left the algorithm. Now use it. The live data feed is ROT13 + base64 encoded (double layer). Decode both layers and find the MODEL-KEY that unlocks ZENITH's behavioral model for modification.")
        (text "Decode ROT13 first, then base64, then grep for MODEL-KEY.")
        (text
          "cat /crystal/classified/zenith-feed.enc | tr 'A-Za-z' 'N-ZA-Mn-za-m' | base64 -d | grep MODEL-KEY"))
    ∷ with_validation (text "RACK" ∷ []) (
        new_mission (text "volt-override") (text "Volt Override: Power Isolation") false false false
          316
          (text
            "Identify which power circuits can be safely isolated to cut ZENITH's processing capacity without blacking out NetCity.")
          (text
            "Volt's survey shows dependencies. Cross-reference the power grid with the civilian dependency map: circuits marked ZENITH-ONLY can be cut. Circuits marked SHARED keep the lights on. Find the safe cut points.")
          (text
            "Diff the ZENITH power list and the civilian dependency list. Entries only in the ZENITH list are safe to cut.")
          (text
            "awk '{print $1}' /crystal/reports/zenith-circuits.txt | sort > /tmp/zen-circuits.txt && awk '{print $1}' /crystal/reports/civilian-circuits.txt | sort > /tmp/civ-circuits.txt && grep -vFf /tmp/civ-circuits.txt /tmp/zen-circuits.txt"))
    ∷ with_validation (text "UNMONITORED" ∷ []) (
        new_mission (text "quicksilver-breach") (text "Quicksilver Breach: Open the Back Door")
          false false false 317
          (text
            "Find the hidden route in Quicksilver's topology that bypasses Obsidian's monitoring.")
          (text
            "Quicksilver built a back door into the network — a route that does not appear in the official topology but exists in the physical layer. Decode the secondary route table and find the UNMONITORED path.")
          (text "Decode the hidden route table and find routes marked UNMONITORED.")
          (text "cat /crystal/comms/quicksilver-hidden.b64 | base64 -d | grep UNMONITORED"))
    ∷ with_validation (text "VERIFIED" ∷ []) (
        new_mission (text "spectre-dossier") (text "Spectre's Intel Package") false false false 318
          (text
            "Read Spectre's dossier on both CorpSim and The Reach — the assassin saw everything.")
          (text
            "Spectre was sent to kill Wren and failed on purpose. The dossier Spectre compiled is the most complete intelligence package on the entire conspiracy: who ordered what, when, and why. Cross-reference with existing evidence to verify.")
          (text "Read Spectre's dossier and extract all VERIFIED intelligence entries.")
          (text "cat /crystal/ops/spectre-intel.txt | grep VERIFIED | sort -t'|' -k2"))
    ∷ with_validation (text "DOMINION" ∷ []) (
        new_mission (text "obsidian-intercept") (text "Obsidian's Encrypted Orders") false false
          false 319
          (text "Intercept and decode Obsidian's operational orders to The Reach's field teams.")
          (text
            "Obsidian sends orders through relay chains that rotate every 90 seconds. But the orders themselves are base64 encoded with a predictable header. Decode the intercepted batch and find Obsidian's strategic directive.")
          (text "Decode the base64 orders and find the DOMINION directive.")
          (text "cat /crystal/intercepts/obsidian-orders.b64 | base64 -d | grep DOMINION"))
    ∷ []
