-- ===== src/World/Seeds/Systems.antt =====
-- ssh-hunt/crates/world/src/lib.rs: `seed_missions`, chains of commands.
use ssh_hunt.Base.{false, List, [], ◌∷◌, text}
use ssh_hunt.World.State.{MissionDefinition}
use ssh_hunt.World.Seeds.Making.{new_mission, with_validation}

unfoldable pub expert_chains : List MissionDefinition
expert_chains =
    with_validation (text "sector-7" ∷ []) (
      new_mission (text "deep-pipeline") (text "Deep Pipeline: Multi-Stage Data Extraction") false
        false false 200
        (text
          "Build a 4+ stage pipeline that extracts, filters, transforms, and counts data in a single pass.")
        (text
          "Ghost Rail's black box recorder dumped a massive feed. You need to distill the signal: find all CRITICAL entries from sector-7, extract just the timestamps, sort them, and count unique occurrences.")
        (text
          "Chain cat | grep | cut | sort | uniq -c | sort -rn to go from raw data to a ranked frequency table.")
        (text
          "cat /logs/blackbox.log | grep CRITICAL | grep sector-7 | cut -d' ' -f1 | sort | uniq -c | sort -rn"))
    ∷ with_validation (text "10.0." ∷ []) (
        new_mission (text "log-forensics") (text "Forensic Sweep: Cross-Reference Attack Patterns")
          false false false 201
          (text
            "Correlate two different log files to find suspicious IPs that appear in both auth failures and access denials.")
          (text
            "The blackout wasn't random. Someone probed the auth layer AND the access gates in sequence. Cross-reference the logs to find the overlap.")
          (text
            "Extract IPs from each log with grep+awk, sort both lists, then use uniq or comm to find the intersection. Or just grep the output of one into the other.")
          (text
            "grep REJECT /var/log/auth.log | awk '{print $NF}' | sort -u > /tmp/auth-ips.txt && grep DENY /logs/access.log | awk '{print $NF}' | sort -u > /tmp/access-ips.txt && grep -Ff /tmp/auth-ips.txt /tmp/access-ips.txt"))
    ∷ with_validation (text "units" ∷ []) (
        new_mission (text "data-transform") (text "Data Transform: CSV to Report") false false false
          202
          (text "Transform raw CSV data into a formatted summary report using only shell tools.")
          (text
            "The quartermasters need a clean report from the raw inventory dump. No spreadsheet — just your terminal and the tools you have learned.")
          (text
            "Combine tail (skip header), awk (reformat fields), sort, and head to build a top-N summary. Redirect the result to a file.")
          (text
            "tail -n +2 /data/supply-manifest.csv | awk -F, '{printf \"%-20s %s units  %s\\n\", $2, $3, $4}' | sort -t' ' -k2,2nr | head -n 5 > /tmp/supply-report.txt"))
    ∷ []

unfoldable pub system_skills : List MissionDefinition
system_skills =
    with_validation (text "relay" ∷ []) (
      new_mission (text "process-hunt") (text "Process Hunt: Find What's Running") false false false
        112
        (text "Use ps and grep to find specific processes running in the simulated node cluster.")
        (text
          "Something is eating resources on the Ghost Rail relay nodes. Before you can kill it, you need to find it in the process table.")
        (text
          "ps aux lists all processes. Pipe through grep to filter. awk can extract the PID column.")
        (text "ps aux | grep relay | grep -v grep | awk '{print $2, $11}'"))
    ∷ with_validation (text "sweep" ∷ []) (
        new_mission (text "cron-decode") (text "Cron Decode: Read the Schedule") false false false
          113
          (text
            "Parse crontab entries to understand when scheduled jobs run and find the one that fires during the blackout window.")
          (text
            "Ghost Rail ran automated sweeps on a cron schedule. One of them was supposed to catch the breach, but it was misconfigured. Find which entry covers the 0300-0400 UTC window.")
          (text
            "Crontab format is: minute hour day-of-month month day-of-week command. The 3rd field is the hour.")
          (text "cat /data/crontab.txt | awk '$2 == 3 || $2 == \"3\" {print}'"))
    ∷ with_validation (text "data" ∷ []) (
        new_mission (text "permission-audit") (text "Permission Audit: Check the Gates") false false
          false 114
          (text
            "Inspect file permissions to find world-writable files that could be tampered with by any user on the node.")
          (text
            "The breach post-mortem says someone modified a config file that should have been locked down. You need to audit the permissions and find the weak point.")
          (text
            "ls -la shows permissions. Look for 'w' in the last triplet (other). find -perm can search by mode.")
          (text "find /data -type f -perm -o=w -ls"))
    ∷ []
