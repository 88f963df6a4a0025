-- ===== src/World/Seeds/Tutorial.antt =====
-- ssh-hunt/crates/world/src/lib.rs: `seed_missions`, the tutorial and the gateway missions.
use ssh_hunt.Base.{true, false, List, [], ◌∷◌, text}
use ssh_hunt.World.State.{MissionDefinition}
use ssh_hunt.World.Seeds.Making.{new_mission, with_validation}
use ssh_hunt.World.NetCity.{keys_vault}

unfoldable pub tutorial_track : List MissionDefinition
tutorial_track =
    new_mission (text "nav-101") (text "First Steps: Navigate the Grid") false false false 1
      (text "Use pwd and ls to orient yourself in the filesystem before touching anything.")
      (text
        "Every operator's first reflex is to check where they are and what's around them. The sim dropped you in blind — find your bearings.")
      (text
        "pwd shows your current directory. ls lists its contents. Try ls / to see the top level.")
      (text "pwd && ls /")
    ∷ with_validation (text "welcome" ∷ []) (
        new_mission (text "read-101") (text "Data Tap: Read Your First File") false false false 2
          (text "Use cat to read a file and learn what CorpSim left for new recruits.")
          (text
            "There is a welcome packet in /missions that every new operative is supposed to read. Most skip it. The ones who read it tend to survive longer.")
          (text
            "cat prints the entire contents of a file to your screen. Try it on /missions/welcome.txt.")
          (text "cat /missions/welcome.txt"))
    ∷ with_validation (text "Ghost" ∷ []) (
        new_mission (text "echo-101") (text "Voice Check: Echo and Print") false false false 3
          (text
            "Use echo to send text to the screen — your first command that produces output from nothing.")
          (text
            "Before you can pipe data, you need to know how to create it. Echo is the simplest way to put text into the stream.")
          (text "echo followed by text prints that text. Wrap it in quotes if it has spaces.")
          (text "echo 'Ghost Rail is down'"))
    ∷ with_validation (text "WARN" ∷ []) (
        new_mission (text "grep-101") (text "Signal Filter: Your First Grep") false false false 4
          (text "Use grep to find a specific word in a file without reading every line.")
          (text
            "The gateway log has hundreds of entries but you only care about warnings. Grep is how you ask the system to do the reading for you.")
          (text
            "grep PATTERN FILE shows only lines containing PATTERN. Try grep WARN on the gateway log.")
          (text "grep WARN /logs/neon-gateway.log"))
    ∷ with_validation (text "token" ∷ []) (
        new_mission (text "pipe-101") (text "Flow Control: Your First Pipe") false false false 5
          (text "Connect two commands with a pipe so the output of one flows into the next.")
          (text
            "A single command is useful. Two commands connected by a pipe are a tool. This is the foundation of everything that comes after.")
          (text
            "The | symbol sends the output of the left command into the input of the right command.")
          (text "cat /logs/neon-gateway.log | grep token"))
    ∷ []

unfoldable pub gateway_missions : List MissionDefinition
gateway_missions =
    new_mission keys_vault (text "KEYS VAULT: Secure Your Access") true false false 0
      (text
        "Register your SSH key so CorpSim can tell you apart from the scavengers replaying old credentials.")
      (text
        "CorpSim says the city outage started with stolen access keys. Before they trust you with live lanes, you prove you can secure your own.")
      (text
        "This mission is mostly outside the sim. Generate a key on your local machine, then paste the public key line into keyvault.")
      (text "keyvault register")
    ∷ with_validation (text "token" ∷ []) (
        new_mission (text "pipes-101") (text "Pipe Dream: Signals Through Neon") false true false 10
          (text "Count repeated token broadcasts by piping one command into the next.")
          (text
            "A beacon named GLASS-AXON-13 keeps echoing through the gateway. Your job is to measure the noise before the trail goes cold.")
          (text
            "Read the file, filter the token lines, then count them. The | symbol sends output into the next command.")
          (text "cat /logs/neon-gateway.log | grep token | wc -l"))
    ∷ with_validation (text "token" ∷ []) (
        new_mission (text "log-hunt") (text "Corp Leak: Parse the Logs") false true false 11
          (text "Pull the important token line out of a noisy log without editing the source file.")
          (text
            "An internal leak says Ghost Rail engineers tagged their last clean heartbeat before vault-sat-9 went dark.")
          (text
            "Start with grep token /logs/neon-gateway.log. If you need a record, redirect the output into /tmp.")
          (text "grep token /logs/neon-gateway.log"))
    ∷ new_mission (text "dedupe-city") (text "Signal Noise: Sort and Uniq") false true false 12
        (text "Learn how to sort repeated lines and collapse duplicates into a readable report.")
        (text
          "Market chatter is full of repeated sightings. You need a clean list before the street rumor becomes useless.")
        (text
          "uniq only removes adjacent duplicates, so sort first when the repeated lines are scattered.")
        (text "cat /logs/neon-gateway.log | grep token | sort | uniq")
    ∷ new_mission (text "redirect-lab") (text "Data Splice: Redirect Lab") false true false 13
        (text
          "Save command output into files so you can inspect it again without rerunning the pipeline.")
        (text
          "CorpSim auditors archive everything. You are learning the same trick: catch evidence once, then review it offline.")
        (text "> overwrites a file. >> appends to the end. Use /tmp when you want a scratch file.")
        (text "grep WARN /logs/neon-gateway.log > /tmp/warnings.txt")
    ∷ new_mission (text "finder") (text "Ghost Index: Find and Chain") false true false 14
        (text
          "Search the virtual filesystem safely and combine find with simple follow-up commands.")
        (text
          "The first Ghost Rail response team vanished into a directory tree of stale reports and half-finished patches.")
        (text "Use find to discover files first. Once you know the path, read it with cat or less.")
        (text "find /data -name '*.txt'")
    ∷ []
