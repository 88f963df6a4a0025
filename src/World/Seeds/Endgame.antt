-- ===== src/World/Seeds/Endgame.antt =====
-- ssh-hunt/crates/world/src/lib.rs: `seed_missions`, the end of the first story.
use ssh_hunt.Base.{false, List, [], ◌∷◌, text}
use ssh_hunt.World.State.{MissionDefinition}
use ssh_hunt.World.Seeds.Making.{new_mission, with_validation}

unfoldable pub endgame_arc : List MissionDefinition
endgame_arc =
    with_validation (text "confession" ∷ []) (
      new_mission (text "decrypt-wren") (text "Decrypt Wren: Break the Cipher") false false false
        206 (text "Decode Wren's ROT13-encrypted final message to read the confession.")
        (text
          "Wren left one last file before disappearing. It is encrypted with a simple rotation cipher — not because it was meant to stay secret forever, but because it was meant to be found by someone who earned the right to read it. That someone is you.")
        (text "ROT13 swaps each letter 13 positions. tr 'A-Za-z' 'N-ZA-Mn-za-m' decodes it.")
        (text "cat /data/classified/wren-final.enc | tr 'A-Za-z' 'N-ZA-Mn-za-m'"))
    ∷ with_validation (text "EVIDENCE" ∷ []) (
        new_mission (text "prove-corpsim") (text "Prove CorpSim: Chain of Evidence") false false
          false 207
          (text
            "Build a chain of evidence across three files linking CorpSim's foreknowledge to Wren's access to The Reach.")
          (text
            "The memo proves CorpSim knew. The comms prove The Reach paid. The crypto log proves how. Grep the EVIDENCE markers from all three and you have a chain no auditor can dismiss.")
          (text
            "Use grep -h with multiple files to extract EVIDENCE-tagged lines, then sort and dedup.")
          (text
            "grep -h EVIDENCE /data/classified/.memo /data/intercepts/comms-dump.txt /logs/crypto-events.log | sort | uniq"))
    ∷ with_validation (text "INCIDENT" ∷ []) (
        new_mission (text "final-report") (text "Final Report: The Whistleblower File") false false
          false 208
          (text
            "Compile the definitive incident report from all evidence sources into a single file.")
          (text
            "This is the last mission. Everything you have found — the insider, the trigger, the buyer, the cover-up — goes into one file. When this report reaches the right hands, Ghost Rail's blackout stops being a mystery and becomes a reckoning.")
          (text
            "Use echo, grep, and cat with redirection to assemble the report into /tmp/final-report.txt.")
          (text
            "echo '=== INCIDENT REPORT ===' > /tmp/final-report.txt && grep wren /var/log/auth.log >> /tmp/final-report.txt && echo '---' >> /tmp/final-report.txt && grep TRANSFER /logs/netflow.log | head -3 >> /tmp/final-report.txt"))
    ∷ []

unfoldable pub npc_endgame : List MissionDefinition
npc_endgame =
    with_validation (text "EVIDENCE" ∷ []) (
      new_mission (text "kestrel-verdict") (text "Kestrel's Verdict") false false false 209
        (text
          "Compile the prosecution file that Kestrel needs: perpetrator, motive, cover-up, and obstruction.")
        (text
          "Kestrel has been waiting for this. The case file needs four elements: Wren's confession, Argon's executive orders, Sable's payment chain, and Ferro's suppression list. Grep the key evidence from each source into one prosecution file.")
        (text
          "Build the prosecution file by grepping EVIDENCE from multiple sources into /tmp/prosecution.txt.")
        (text
          "grep -h EVIDENCE /data/classified/.memo /data/intercepts/comms-dump.txt /logs/crypto-events.log /data/classified/argon-exec-orders.txt > /tmp/prosecution.txt && cat /tmp/prosecution.txt"))
    ∷ with_validation (text "ARCHIVE" ∷ []) (
        new_mission (text "crucible-offer") (text "Crucible's Offer") false false false 210
          (text
            "Compile evidence into the format Crucible requires for permanent off-site archival.")
          (text
            "Crucible offered to archive all evidence outside CorpSim's administrative reach. But the archive format is specific: each entry must be tagged, timestamped, and written to /tmp/archive.txt. If Argon invokes Protocol 7, this is the backup.")
          (text "Build the archive by echoing tagged evidence lines into /tmp/archive.txt.")
          (text
            "echo '[ARCHIVE] confession' > /tmp/archive.txt && echo '[ARCHIVE] cover-up' >> /tmp/archive.txt && echo '[ARCHIVE] payment' >> /tmp/archive.txt && cat /tmp/archive.txt"))
    ∷ with_validation (text "distraction" ∷ []) (
        new_mission (text "wren-reply") (text "Wren's Reply") false false false 211
          (text "A new encrypted message from Wren appeared after the final report. Decode it.")
          (text
            "You thought it was over. Then a new file appeared in /data/classified/ — encrypted, signed W. Wren is not done talking. The decoded message reveals that Ghost Rail's blackout was a distraction. The real extraction happened somewhere else entirely. The sequel begins.")
          (text "Decode the ROT13 message and grep for the key revelation.")
          (text "cat /data/classified/wren-reply.enc | tr 'A-Za-z' 'N-ZA-Mn-za-m'"))
    ∷ []
