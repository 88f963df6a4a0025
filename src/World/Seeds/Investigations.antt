-- ===== src/World/Seeds/Investigations.antt =====
-- ssh-hunt/crates/world/src/lib.rs: `seed_missions`, the investigations.
use ssh_hunt.Base.{false, List, [], ◌∷◌, text}
use ssh_hunt.World.State.{MissionDefinition}
use ssh_hunt.World.Seeds.Making.{new_mission, with_validation}

unfoldable pub npc_investigations : List MissionDefinition
npc_investigations =
    with_validation (text "INTEL" ∷ []) (
      new_mission (text "kestrel-brief") (text "Kestrel's Briefing") false false false 60
        (text
          "Read the classified briefing left by Ghost Rail's station chief for operatives who made it this far.")
        (text
          "Kestrel trained Wren. Now Kestrel is hunting Wren. This briefing is personal — it contains what Kestrel knows about the breach and what the official reports leave out. Use awk to extract the key intel lines.")
        (text "Read the briefing and use awk to pull out lines marked INTEL.")
        (text "cat /data/classified/kestrel-briefing.txt | awk '/INTEL/ {print}'"))
    ∷ with_validation (text "SUPPRESS" ∷ []) (
        new_mission (text "ferro-lockdown") (text "Ferro's Lockdown Order") false false false 61
          (text
            "Read the security lockdown order and find which files Ferro specifically tried to suppress.")
          (text
            "Ferro sealed /data/classified/ the morning after the blackout. The lockdown order lists specific filenames — and those filenames are exactly the ones that prove CorpSim's foreknowledge. She was not protecting secrets for safety. She was burying evidence.")
          (text "Grep for SUPPRESS in the lockdown order to find the targeted files.")
          (text "grep SUPPRESS /data/classified/ferro-lockdown-order.txt"))
    ∷ with_validation (text "Nix" ∷ []) (
        new_mission (text "patch-delivery") (text "Patch's Dead Drop") false false false 62
          (text
            "Find the data package that Patch hid somewhere in /data/drops and read Nix's off-channel intel.")
          (text
            "Patch carries what official channels cannot. Nix used Patch to get her buried signal analysis to someone who could act on it. The package is in /data/drops/ but you need to find the exact file.")
          (text "Use find to locate files in /data/drops/ and then read the one from Patch.")
          (text "find /data/drops -name 'patch*' -type f | xargs cat"))
    ∷ with_validation (text "extraction" ∷ []) (
        new_mission (text "sable-intercept") (text "Sable's Encrypted Channel") false false false 63
          (text
            "Decode a ROT13-encrypted message from Sable to Wren about the extraction timeline.")
          (text
            "The Reach's handler, codenamed Sable, used a simple cipher to communicate with Wren. The intercepted message lays out the extraction window, the payment terms, and the cleanup protocol. Decode it with tr.")
          (text "Use tr to apply ROT13 decryption, then grep for timeline keywords.")
          (text "cat /data/intercepts/sable-to-wren.enc | tr 'A-Za-z' 'N-ZA-Mn-za-m'"))
    ∷ with_validation (text "CRU" ∷ []) (
        new_mission (text "crucible-ping") (text "Crucible's First Contact") false false false 64
          (text
            "Find patterned messages in the maintenance layer log sent by an entity that signs itself CRU.")
          (text
            "Something is alive inside Ghost Rail's maintenance layer. It sends structured messages at regular intervals, signed CRU. Nobody knows if it is a rogue AI, a trapped operator, or something Wren left behind. Find the messages and extract the content.")
          (text
            "Grep for CRU in the maintenance chatter log and use awk to extract the message field.")
          (text "grep CRU /logs/maintenance-chatter.log | awk '{$1=$2=$3=\"\"; print}'"))
    ∷ []
