-- ===== src/World/Seeds/Insider.antt =====
-- ssh-hunt/crates/world/src/lib.rs: `seed_missions`, the intermediate missions.
use ssh_hunt.Base.{false, List, [], ◌∷◌, text}
use ssh_hunt.World.State.{MissionDefinition}
use ssh_hunt.World.Seeds.Making.{new_mission, with_validation}

unfoldable pub bridge_missions : List MissionDefinition
bridge_missions =
    with_validation (text "token" ∷ text "gateway" ∷ []) (
      new_mission (text "head-tail") (text "Slice and Dice: Head and Tail Mastery") false false
        false 50
        (text
          "Use head and tail to extract specific line ranges from long files without reading the whole thing.")
        (text
          "The blackout flooded every log with noise. You do not have time to read thousands of lines. Learn to grab the first few, the last few, or skip the header — fast, targeted slicing.")
        (text
          "head -n 5 shows the first 5 lines. tail -n +2 skips the header. Pipe them together to window into any range.")
        (text "head -n 10 /logs/neon-gateway.log && tail -n 5 /logs/neon-gateway.log"))
    ∷ with_validation (text "ghost-rail" ∷ []) (
        new_mission (text "sort-count") (text "Frequency Map: Sort, Uniq, and Count") false false
          false 51
          (text
            "Build a frequency table by sorting lines, collapsing duplicates, and counting occurrences.")
          (text
            "The recon team dumped a raw signal feed but nobody counted how often each node checked in. A frequency map reveals which nodes are chattering and which went silent during the blackout.")
          (text
            "sort puts identical lines together. uniq -c counts consecutive duplicates. sort -rn ranks by count, highest first.")
          (text "cat /data/signal-feed.txt | sort | uniq -c | sort -rn"))
    ∷ with_validation (text "token" ∷ []) (
        new_mission (text "wc-report") (text "Word Count: Measure the Signal") false false false 52
          (text
            "Use wc to count lines, words, and bytes so you know the size of what you are dealing with before you start filtering.")
          (text
            "Ghost Rail feeds vary wildly in size. Before committing to a pipeline, a seasoned operator measures the input first to know if it is a trickle or a flood.")
          (text
            "wc -l counts lines. wc -w counts words. wc -c counts bytes. Pipe into wc to measure filtered output.")
          (text "wc -l /logs/neon-gateway.log && grep token /logs/neon-gateway.log | wc -l"))
    ∷ new_mission (text "tee-split") (text "Tee Junction: Split the Stream") false false false 53
        (text
          "Use tee to send output to a file AND the screen at the same time so you keep a record while watching live.")
        (text
          "Field operators cannot afford to choose between watching a feed and saving it. The tee command does both — like a plumber's T-junction for data.")
        (text
          "tee writes stdin to a file AND stdout. Combine it mid-pipeline: cmd | tee /tmp/log.txt | wc -l")
        (text "grep WARN /logs/neon-gateway.log | tee /tmp/warnings.txt | wc -l")
    ∷ new_mission (text "xargs-run") (text "Batch Ops: Xargs Runner") false false false 54
        (text
          "Use xargs to turn a list of items into arguments for another command so you can process them in bulk.")
        (text
          "Ghost Rail dispatch has a queue of filenames that need inspection. Typing each one by hand is not an option when the list changes every cycle.")
        (text
          "Pipe a list into xargs to run a command once per item. Add -I{} for placement control.")
        (text "find /data -name '*.csv' | xargs wc -l")
    ∷ []

unfoldable pub insider_thread : List MissionDefinition
insider_thread =
    with_validation (text "10.77" ∷ []) (
      new_mission (text "access-pattern") (text "Access Pattern: Internal Breach") false false false
        55
        (text
          "Run frequency analysis on vault-sat-9 access logs to find the IP that connected far more than any other.")
        (text
          "Normal admin access hits vault-sat-9 once or twice a shift. One internal IP connected forty-seven times in a single night. That is not maintenance — that is exfiltration.")
        (text
          "Grep for vault-sat-9, extract the source IP with awk, then count with sort | uniq -c | sort -rn.")
        (text
          "grep vault-sat-9 /var/log/access-detail.log | awk '{print $NF}' | sort | uniq -c | sort -rn"))
    ∷ with_validation (text "WREN" ∷ []) (
        new_mission (text "purged-comms") (text "Purged Comms: Recovery Operation") false false
          false 56
          (text
            "Read recovered fragments of internal messages that were supposed to be permanently deleted.")
          (text
            "Someone ran a purge on the internal comms archive the morning after the blackout. The backup system caught fragments before they were wiped. The timestamps overlap perfectly.")
          (text "Use cat to read the recovered fragment. The messages reference a codename.")
          (text "cat /data/comms/recovered-fragment.txt"))
    ∷ with_validation (text "rotate" ∷ []) (
        new_mission (text "key-rotation") (text "Key Rotation: The Trigger Mechanism") false false
          false 57
          (text
            "Search the crypto event log and discover that GLASS-AXON-13 is not a beacon — it is a key-rotation trigger.")
          (text
            "The signal everyone assumed was a stuck beacon was actually a command. Every time GLASS-AXON-13 appeared, a credential rotation fired on vault-sat-9. Automated. Deliberate.")
          (text
            "Grep for GLASS-AXON in the crypto log, then use awk to extract the event type field.")
          (text "grep GLASS-AXON /logs/crypto-events.log | awk '{print $1, $4, $5}'"))
    ∷ with_validation (text "wren" ∷ []) (
        new_mission (text "roster-check") (text "Roster Check: Who Has Access?") false false false
          58
          (text
            "Cross-reference the personnel roster to find a badge that is active on a terminated employee.")
          (text
            "CorpSim's personnel file lists every employee and their badge status. One name appears as terminated, but their badge never got revoked. That is how they got in.")
          (text
            "Use cut to extract the name and badge-status columns, then grep for active entries.")
          (text "cut -d, -f1,3 /data/personnel.csv | grep active"))
    ∷ with_validation (text "22:01" ∷ []) (
        new_mission (text "timing-attack") (text "Timing Attack: Correlation Analysis") false false
          false 59
          (text
            "Paste together two timestamp files and prove that GLASS-AXON-13 signals and vault-sat-9 drops are perfectly synchronized.")
          (text
            "Coincidence dies when the timestamps match to the second. Line up the beacon appearances with the vault connection drops. The synchronization is not natural.")
          (text "Use paste to merge the two time files side by side, then awk to flag matches.")
          (text "paste /tmp/axon-times.txt /tmp/vault-drops.txt"))
    ∷ []
