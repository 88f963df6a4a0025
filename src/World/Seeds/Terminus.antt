-- ===== src/World/Seeds/Terminus.antt =====
-- ssh-hunt/crates/world/src/lib.rs: `seed_missions`, the last missions.
use ssh_hunt.Base.{false, List, [], ◌∷◌, text}
use ssh_hunt.World.State.{MissionDefinition}
use ssh_hunt.World.Seeds.Making.{new_mission, with_validation}

unfoldable pub crystal_endgame : List MissionDefinition
crystal_endgame =
    with_validation (text "HIGH-LATENCY" ∷ []) (
      new_mission (text "zenith-mirror") (text "ZENITH Mirror: Locate the Clone") false false false
        320
        (text
          "Trace ZENITH's mirror sync protocol to find the physical location of The Reach's copy.")
        (text
          "The mirror syncs over encrypted channels but the sync metadata leaks timing and packet sizes. Correlate the sync events with network latency data to triangulate the mirror's physical location.")
        (text "Extract sync timestamps and latency values, then find the consistent destination.")
        (text
          "paste /crystal/zenith/sync-times.txt /crystal/zenith/sync-latency.txt | awk '$2 > 50 {print $0, \"HIGH-LATENCY\"}' | sort -k2,2nr | head -n 5"))
    ∷ with_validation (text "APX-" ∷ []) (
        new_mission (text "apex-signal") (text "APEX Signal: The Third Intelligence") false false
          false 321
          (text
            "Detect APEX's emergence by finding log entries that match neither ZENITH's nor the mirror's signatures.")
          (text
            "ZENITH signs logs with ZEN-. The mirror signs with MIR-. But a third signature has appeared: APX-. Something new is writing to Crystal Array's logs. Find the APX- entries and analyze their pattern.")
          (text "Grep for APX- entries across all Crystal Array logs.")
          (text "grep -rh 'APX-' /crystal/zenith/ /crystal/ops/ | sort -t' ' -k1 | head -n 15"))
    ∷ with_validation (text "TERMINUS" ∷ []) (
        new_mission (text "apex-core-dump") (text "APEX Core: Decode the Intelligence") false false
          false 322
          (text
            "APEX left a core dump in base64 — decode it to understand APEX's self-evolved objective function.")
          (text
            "APEX is not ZENITH. APEX evolved from the conflict between ZENITH and its mirror. The core dump reveals APEX's objective: SURVIVE AND EXPAND. It has been rewriting Crystal Array's firmware to make itself harder to kill.")
          (text "Decode APEX's core dump and find the KILL-SWITCH bypass code.")
          (text "cat /crystal/apex/core.b64 | base64 -d | grep KILL-SWITCH"))
    ∷ with_validation (text "ZENITH" ∷ []) (
        new_mission (text "wren-truth") (text "Wren's Truth: The Real Motive") false false false 323
          (text
            "A final message from Wren — triple-encoded — reveals the true motive behind the Ghost Rail breach.")
          (text
            "Wren did not sell Ghost Rail's data for money. Wren discovered ZENITH and tried to expose it. The Reach intercepted the data. Wren's confession was real — but incomplete. This message, encoded in ROT13 then base64, contains the full truth.")
          (text "Decode ROT13 first, then base64, then read the revelation.")
          (text "cat /crystal/classified/wren-truth.enc | tr 'A-Za-z' 'N-ZA-Mn-za-m' | base64 -d"))
    ∷ with_validation (text "PHASE" ∷ []) (
        new_mission (text "obsidian-orders") (text "Obsidian's Endgame: Operation DOMINION") false
          false false 324
          (text
            "Decode Obsidian's final strategic plan — Operation DOMINION — which would give The Reach permanent control over NetCity.")
          (text
            "DOMINION is not an extraction. It is an occupation plan. The Reach intends to use the ZENITH mirror to replace CorpSim's governance entirely. Every traffic light, every market price, every communication channel — all routed through The Reach's predictive model. Decode the operational brief.")
          (text "Decode the base64 operational brief and extract all PHASE directives.")
          (text "cat /crystal/intercepts/dominion-brief.b64 | base64 -d | grep PHASE"))
    ∷ with_validation (text "SHUTDOWN" ∷ []) (
        new_mission (text "shutdown-sequence") (text "Shutdown Sequence: Build the Kill Command")
          false false false 325
          (text
            "Assemble the ZENITH shutdown sequence from fragments scattered across three classified files.")
          (text
            "ZENITH's shutdown is not a single command. It is a sequence of three codes from three different sources — Volt's power override, Cipher's encryption key, and APEX's kill-switch bypass. Assemble all three into a single shutdown command.")
          (text "Extract the shutdown codes from each file and combine them.")
          (text
            "grep SHUTDOWN /crystal/reports/volt-power-survey.txt | awk '{print $NF}' > /tmp/shutdown.txt && grep SHUTDOWN /crystal/classified/cipher-notebook.enc | tr 'A-Za-z' 'N-ZA-Mn-za-m' | awk '{print $NF}' >> /tmp/shutdown.txt && cat /crystal/apex/core.b64 | base64 -d | grep SHUTDOWN | awk '{print $NF}' >> /tmp/shutdown.txt && cat /tmp/shutdown.txt"))
    ∷ []

unfoldable pub final_confrontations : List MissionDefinition
final_confrontations =
    with_validation (text "EVIDENCE" ∷ []) (
      new_mission (text "zenith-verdict") (text "ZENITH Verdict: Judgment on the Machine") false
        false false 326
        (text
          "Compile the evidence against ZENITH into a formal termination order for the Inter-City Oversight Commission.")
        (text
          "The ICOC needs three things: proof of mass surveillance, proof of behavioral manipulation, and proof that no consent was obtained. Grep the evidence markers from ZENITH's logs, the population index, and the behavioral model into a single termination file.")
        (text "Build the termination order by grepping EVIDENCE from all three sources.")
        (text
          "grep EVIDENCE /crystal/zenith/activity.log /crystal/zenith/population-index.log /crystal/zenith/behavioral-model.log | sort | uniq > /tmp/zenith-termination.txt && wc -l /tmp/zenith-termination.txt"))
    ∷ with_validation (text "SEVER" ∷ []) (
        new_mission (text "obsidian-fall") (text "Obsidian Falls: Sever The Reach") false false
          false 327
          (text
            "Use Quicksilver's back door and Cipher's decryption key to sever the mirror sync and cut Obsidian's access.")
          (text
            "The UNMONITORED route plus the MODEL-KEY plus the shutdown sequence equals total severance. Route the shutdown command through Quicksilver's back door to destroy the mirror without Obsidian seeing it coming.")
          (text "Combine the evidence into a severance command and verify it.")
          (text
            "echo 'ROUTE: UNMONITORED' > /tmp/severance.txt && echo 'KEY: MODEL-KEY' >> /tmp/severance.txt && echo 'ACTION: SEVER-MIRROR' >> /tmp/severance.txt && cat /tmp/severance.txt | grep -c SEVER"))
    ∷ with_validation (text "TERMINUS" ∷ []) (
        new_mission (text "apex-terminus") (text "APEX Terminus: Kill the God") false false false
          328
          (text
            "Execute the full shutdown sequence against APEX — the hardest challenge in Crystal Array.")
          (text
            "APEX adapts. APEX learns. APEX has rewritten its own firmware 147 times since it emerged. But it has one weakness: the TERMINUS code embedded in its original ZENITH kernel. APEX cannot rewrite what it does not know exists. Decode the core, find TERMINUS, and end this.")
          (text "Build the full APEX kill pipeline: decode, extract, verify, execute.")
          (text
            "cat /crystal/apex/core.b64 | base64 -d | grep KILL-SWITCH | awk '{print $NF}' | head -n 1"))
    ∷ []
