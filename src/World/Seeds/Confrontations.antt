-- ===== src/World/Seeds/Confrontations.antt =====
-- ssh-hunt/crates/world/src/lib.rs: `seed_missions`, the confrontations.
use ssh_hunt.Base.{false, List, [], ◌∷◌, text}
use ssh_hunt.World.State.{MissionDefinition}
use ssh_hunt.World.Seeds.Making.{new_mission, with_validation}

unfoldable pub npc_confrontations : List MissionDefinition
npc_confrontations =
    with_validation (text "DIRECTIVE" ∷ []) (
      new_mission (text "argon-orders") (text "Argon's Standing Orders") false false false 123
        (text
          "Find Argon's executive orders across multiple classified files — he authorized the cover-up and the training sim.")
        (text
          "Argon signed three directives: one to suppress the evidence, one to create the training sim, and one to detain Dusk as a scapegoat. The orders are scattered across classified files. Grep them all at once.")
        (text "Search multiple classified files for Argon's directives.")
        (text "grep -h DIRECTIVE /data/classified/argon-exec-orders.txt /data/classified/.memo"))
    ∷ with_validation (text "sector-7" ∷ []) (
        new_mission (text "kestrel-hunt") (text "Kestrel's Manhunt") false false false 124
          (text
            "Parse Kestrel's tracking log to find where Wren was last seen before disappearing.")
          (text
            "Kestrel has been running an off-books manhunt since the blackout. The tracking log records every confirmed sighting, with timestamps and sector coordinates. Sort by timestamp to find the most recent sighting.")
          (text "Use awk and sort to extract and order the sighting entries.")
          (text "awk -F'|' '{print $1, $3}' /data/reports/kestrel-tracking.log | sort"))
    ∷ with_validation (text "classified" ∷ []) (
        new_mission (text "ferro-bypass") (text "Bypass Ferro's Firewall") false false false 125
          (text "Find the permission gaps that Ferro missed when she locked down classified files.")
          (text
            "Ferro sealed /data/classified/ but she was in a hurry. Some files still have world-readable or world-writable permissions. Find the gaps she missed.")
          (text "Use find with permission flags to locate files Ferro failed to lock down.")
          (text "find /data/classified -type f -perm -o=r -ls"))
    ∷ with_validation (text "ARTIFICIAL" ∷ []) (
        new_mission (text "nix-decoded") (text "Nix's Full Analysis") false false false 126
          (text
            "Parse Nix's complete signal analysis CSV to prove GLASS-AXON-13 was artificially generated.")
          (text
            "Nix ran a full frequency analysis before CorpSim buried her report. The CSV shows that GLASS-AXON-13's signal pattern has zero variance in timing — a statistical impossibility for natural beacon drift. Only a programmed trigger produces that pattern.")
          (text "Use awk to extract the variance column and filter for zero-variance entries.")
          (text
            "awk -F, 'NR>1 && $4 == 0 {print $1, $2, \"ARTIFICIAL\"}' /data/reports/nix-full-analysis.csv"))
    ∷ with_validation (text "routing" ∷ []) (
        new_mission (text "lumen-deal") (text "Lumen's Double Deal") false false false 127
          (text
            "Prove that Lumen sold the same data to both CorpSim and The Reach by diffing the transaction logs.")
          (text
            "Lumen plays every side. The broker kept separate transaction logs for each buyer — but the item descriptions match. Diff the two logs to prove the double deal.")
          (text "Sort both transaction logs and diff them to find matching entries.")
          (text "diff /data/lore/lumen-transactions.log /data/lore/lumen-transactions-reach.log"))
    ∷ with_validation (text "MAP" ∷ []) (
        new_mission (text "crucible-map") (text "Crucible's Hidden Network") false false false 128
          (text
            "Find and assemble Crucible's network map fragments scattered across the maintenance layer logs.")
          (text
            "Crucible has been mapping CorpSim's internal network from inside Ghost Rail. The map fragments are hidden in the maintenance chatter log, tagged with coordinates. Find them and assemble the topology.")
          (text "Grep for MAP in the maintenance log and the netmap fragments file.")
          (text "grep MAP /logs/crucible-netmap-fragments.txt | sort"))
    ∷ []

unfoldable pub expert_missions : List MissionDefinition
expert_missions =
    with_validation (text "auth" ∷ []) (
      new_mission (text "incident-report") (text "Incident Report: Reconstruct the Timeline") false
        false false 203
        (text
          "Correlate timestamps across three log files to reconstruct the exact sequence of events during the blackout.")
        (text
          "The incident review board needs a unified timeline. Auth logs, access logs, and event logs each have pieces. Your job is to merge them into one sorted chronological view.")
        (text
          "Extract timestamp + message from each log, merge them, sort by timestamp. Use awk to normalize the format.")
        (text
          "awk '{print $1, $2, \"[auth]\", $0}' /var/log/auth.log > /tmp/merged.log && awk '{print $1, $2, \"[access]\", $0}' /logs/access.log >> /tmp/merged.log && sort /tmp/merged.log | head -n 20"))
    ∷ with_validation (text "ANOMALY" ∷ []) (
        new_mission (text "anomaly-detect") (text "Anomaly Detection: Statistical Outliers") false
          false false 204
          (text
            "Use shell arithmetic and frequency analysis to find statistically unusual entries in the network feed.")
          (text
            "Most nodes check in every 60 seconds. The anomaly is the node that checks in 10x more often — or the one that stopped entirely. Build a frequency table and find the outliers.")
          (text
            "Build a frequency table with sort | uniq -c | sort -rn, then use awk to flag counts above a threshold.")
          (text
            "cat /data/signal-feed.txt | sort | uniq -c | sort -rn | awk '$1 > 5 || $1 < 2 {print \"ANOMALY:\", $0}'"))
    ∷ with_validation (text "ESCAPE" ∷ []) (
        new_mission (text "escape-room") (text "Escape Room: Chained Puzzle") false false false 205
          (text
            "Solve a multi-step puzzle where each command's output contains the clue for the next step. Chain five commands to reach the final answer.")
          (text
            "Ghost Rail left a dead drop in the filesystem. Each file points to the next. Start at /missions/escape-start.txt and follow the trail to the final code.")
          (text
            "Read each file, extract the path hint, follow it. The answer is a 6-character code in the last file.")
          (text "cat /missions/escape-start.txt | grep 'NEXT:' | awk '{print $2}' | xargs cat"))
    ∷ []
