-- ===== src/World/Seeds/Advanced.antt =====
-- ssh-hunt/crates/world/src/lib.rs: `seed_missions`, the missions after NetCity.
use ssh_hunt.Base.{false, List, [], ◌∷◌, text}
use ssh_hunt.World.State.{MissionDefinition}
use ssh_hunt.World.Seeds.Making.{new_mission, with_validation}

unfoldable pub advanced_missions : List MissionDefinition
advanced_missions =
    new_mission (text "awk-patrol") (text "Field Agent: Awk Patrol") false false false 100
      (text "Extract specific columns from the node registry when plain grep is no longer enough.")
      (text
        "NetCity dispatch is routing crews blind. The registry is intact, but only if you can carve out the fields that matter.")
      (text "awk -F, lets you split CSV rows by commas. NR>1 skips the header row.")
      (text "awk -F, 'NR>1 {print $1, $3}' /data/node-registry.csv")
    ∷ new_mission (text "chain-ops") (text "Logic Gate: Conditional Chains") false false false 101
        (text "Use && and || so follow-up commands react to success or failure.")
        (text
          "Ghost Rail triage is messy. Operators do not have time to babysit every command, so your shell logic has to choose the next step.")
        (text
          "cmd1 && cmd2 runs cmd2 only if cmd1 succeeds. cmd1 || cmd2 runs cmd2 only if cmd1 fails.")
        (text "grep OPEN /var/spool/tasks.txt && echo pending || echo clear")
    ∷ new_mission (text "sediment") (text "Stream Edit: Sed Sediment") false false false 102
        (text "Make targeted edits to streamed text without opening an editor.")
        (text
          "Access logs keep shifting under your feet. You need to patch the stream, not hand-edit every line.")
        (text
          "Start with a single substitution. Add g only when you truly want every match on a line replaced.")
        (text "sed 's/DENY/BLOCK/' /logs/access.log")
    ∷ new_mission (text "cut-lab") (text "Field Splitter: Cut Lab") false false false 103
        (text "Slice tabular data down to the one or two fields you actually need.")
        (text
          "A Ghost Rail quartermaster buried the useful inventory signal under too many columns and too much shop talk.")
        (text
          "The inventory file is tab-delimited. Use cut -f with single fields or ranges to peel off columns.")
        (text "cut -f1,3 /data/inventory.tsv")
    ∷ with_validation (text "REJECT" ∷ []) (
        new_mission (text "pattern-sweep") (text "Pattern Sweep: Grep Mastery") false false false
          104 (text "Filter auth logs by the exact event class you need and ignore the rest.")
          (text
            "Someone kept poking the perimeter while the blackout unfolded. You are reconstructing their pattern from the auth feed.")
          (text
            "Start simple with grep REJECT. Add -c when you want a count instead of the full lines.")
          (text "grep REJECT /var/log/auth.log"))
    ∷ new_mission (text "file-ops") (text "Dir Ops: Recursive File Control") false false false 105
        (text "Practice copying, moving, and cleaning up files inside the simulated workspace.")
        (text
          "A courier dropped two partial workspace bundles. You need to merge them cleanly before a live handoff.")
        (text
          "Inspect with ls first. Then use cp, mv, and rm carefully so you understand exactly what changed.")
        (text "cp /data/workspace/config.txt /home/player/config.backup")
    ∷ with_validation (text "ERROR" ∷ []) (
        new_mission (text "regex-hunt") (text "Regex Hunt: Pattern Matching Mastery") false false
          false 106
          (text "Use extended regex patterns to catch multiple event classes in one pass.")
          (text
            "The event feed is full of mixed severities. One sweep has to catch the serious failures before the room goes dark again.")
          (text "grep -E lets you match alternatives like ERROR|FATAL in a single command.")
          (text "grep -E 'ERROR|FATAL' /var/log/events.log"))
    ∷ new_mission (text "pipeline-pro") (text "Pipeline Pro: Advanced Data Flow") false false false
        107 (text "Chain several text tools together to transform CSV data into a clear answer.")
        (text
          "NetCity crews are ranked in real time. The board is noisy, and only a clean pipeline reveals who still has enough score to help.")
        (text
          "Break long pipelines into stages if you get lost. Run each command alone, then reconnect them with | once it makes sense.")
        (text "cat /data/pipeline.csv | tail -n +2 | sort -t, -k3,3nr | head -n 3")
    ∷ new_mission (text "var-play") (text "Var Play: Shell Variables and Export") false false false
        108
        (text
          "Store values in shell variables so you can reuse them without retyping long paths or node names.")
        (text
          "The cleanup crews are juggling shifting targets. Variables let you keep your focus on the plan instead of on repetitive typing.")
        (text "NAME=value sets a variable in the current shell. echo $NAME reads it back.")
        (text "TARGET=vault-sat-9 && echo $TARGET")
    ∷ new_mission (text "json-crack") (text "JSON Crack: Parse Structured Data") false false false
        109 (text "Read structured status data and pull out the fields tied to the outage.")
        (text
          "Someone exported a raw node-status object right before the secure relay died. It is ugly, but the answer is in there.")
        (text
          "Even without jq, grep and cut can still extract useful key-value lines from a JSON-like file.")
        (text "grep '\"status\"\\|\"alert\"' /data/node-status.json")
    ∷ new_mission (text "seq-master") (text "Seq Master: Number the Grid") false false false 110
        (text "Generate ordered task labels so a scrambled response queue becomes readable.")
        (text
          "The Ghost Rail handoff board lost its numbering during the blackout. Someone still has to restore execution order.")
        (text
          "Use nl when a file already has one item per line. Use seq when you need to generate the numbers yourself.")
        (text "nl -ba /home/player/tasks.txt")
    ∷ new_mission (text "column-view") (text "Column View: Align the Table") false false false 111
        (text "Turn raw tab-delimited output into an aligned table that is easier to reason about.")
        (text
          "The route map is technically readable, but only if your eyes enjoy pain. Reformat it before you brief the crew.")
        (text "column -t keeps the same data but makes tabular output easier to scan.")
        (text "column -t /data/netmap.tsv")
    ∷ []
