-- ===== src/World/Seeds/Conspiracy.antt =====
-- ssh-hunt/crates/world/src/lib.rs: `seed_missions`, the conspiracy.
use ssh_hunt.Base.{false, List, [], ◌∷◌, text}
use ssh_hunt.World.State.{MissionDefinition}
use ssh_hunt.World.Seeds.Making.{new_mission, with_validation}

unfoldable pub conspiracy_arc : List MissionDefinition
conspiracy_arc =
    with_validation (text "wren" ∷ []) (
      new_mission (text "wren-profile") (text "Wren Profile: Build the Dossier") false false false
        115 (text "Assemble Wren's activity across multiple log files into a unified profile.")
        (text
          "Wren's footprints are scattered across three different logs. No single file tells the whole story, but grep them together and the pattern is unmistakable: one person, systematic access, perfect timing.")
        (text "Use grep with multiple file arguments to search all three logs at once.")
        (text "grep wren /var/log/auth.log /logs/access.log /logs/crypto-events.log"))
    ∷ with_validation (text "external" ∷ []) (
        new_mission (text "exfil-trace") (text "Exfil Trace: Data Left the Building") false false
          false 116
          (text "Find evidence of large data transfers to external IPs during the blackout window.")
          (text
            "Ghost Rail's netflow log records every data transfer. During the blackout, massive payloads moved to external addresses that do not belong to any CorpSim node. The data left the building.")
          (text
            "Grep for TRANSFER entries marked 'external', then cut out the timestamp and byte count.")
          (text "grep TRANSFER /logs/netflow.log | grep external | cut -d' ' -f1,4,5"))
    ∷ with_validation (text "Reach" ∷ []) (
        new_mission (text "reach-intercept") (text "Reach Intercept: The Buyer") false false false
          117
          (text
            "Read intercepted communications that name The Reach as the buyer of Ghost Rail routing data.")
          (text
            "An allied signal team intercepted encrypted traffic between Wren's relay and an external party. The decrypted fragments mention a city-state called The Reach — and a price for Ghost Rail's transit routing tables.")
          (text "Grep for 'Reach' in the comms dump, then use sed to replace [REDACTED] markers.")
          (text
            "grep -i reach /data/intercepts/comms-dump.txt | sed 's/\\[REDACTED\\]/[EXPOSED]/g'"))
    ∷ with_validation (text "fingerprint" ∷ []) (
        new_mission (text "config-diff") (text "Config Diff: Before and After") false false false
          118
          (text
            "Compare vault-sat-9's configuration before and after the blackout to prove the key was swapped.")
          (text
            "CorpSim kept a snapshot of vault-sat-9's config from the last clean audit. Compare it to the current config and you will see the smoking gun: the SSH host key fingerprint changed. Someone rotated the credentials.")
          (text "Use diff to compare the two config files. Look for the fingerprint line.")
          (text "diff /data/configs/vault-before.conf /data/configs/vault-after.conf"))
    ∷ with_validation (text ".wren" ∷ []) (
        new_mission (text "dead-drop") (text "Dead Drop: Wren's Stash") false false false 119
          (text "Search the entire filesystem for hidden files that Wren planted as breadcrumbs.")
          (text
            "Wren was not careless — they were deliberate. Hidden dotfiles scattered across the filesystem form a trail. Each one contains a fragment of the truth. Find them all.")
          (text
            "Use find with -name '.wren*' to locate hidden files starting with .wren across the whole tree.")
          (text "find / -name '.wren*' -type f"))
    ∷ with_validation (text "knew" ∷ []) (
        new_mission (text "corpsim-memo") (text "CorpSim Memo: The Cover Story") false false false
          120
          (text
            "Read the classified CorpSim memo that proves they knew about Wren before the blackout.")
          (text
            "The memo was supposed to be destroyed. It shows that CorpSim's executive board knew about Wren's unauthorized access two weeks before the blackout and chose to monitor instead of revoke. They wanted to see where the data went. They let it happen.")
          (text "Read the hidden memo and grep for the key admission.")
          (text "cat /data/classified/.memo | grep -i knew"))
    ∷ with_validation (text "vault-sat-9" ∷ []) (
        new_mission (text "network-map") (text "Network Map: Reconstruct the Topology") false false
          false 121
          (text
            "Build a readable network map showing how Wren connected internal systems to an external relay.")
          (text
            "The netflow summary is a raw list of connections. Format it into a readable topology and the architecture of the breach becomes clear: internal node to vault-sat-9 to The Reach's relay.")
          (text "Use awk with a printf format to align the connection map into readable columns.")
          (text
            "awk -F'\\t' '{printf \"%-20s -> %-20s [%s]\\n\", $1, $2, $3}' /data/netflow-summary.tsv"))
    ∷ with_validation (text "wipe" ∷ []) (
        new_mission (text "kill-switch") (text "Kill Switch: The Failsafe") false false false 122
          (text "Find Wren's cron job kill switch that would wipe all evidence if triggered.")
          (text
            "Wren built a failsafe: a cron job set to fire at a specific time that would overwrite every log, config, and memo. If it had triggered, there would be nothing left to find. Extract the command before someone reactivates it.")
          (text
            "Search the full crontab for entries by wren and extract the command portion with awk.")
          (text "grep wren /data/crontab-full.txt | awk '{print $6, $7, $8}'"))
    ∷ []
