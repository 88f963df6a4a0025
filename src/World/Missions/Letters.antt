-- ===== src/World/Missions/Letters.antt =====
-- ssh-hunt/crates/world/src/lib.rs: the letters of `deliver_npc_mail`. The first text is the code of
-- the mission that brings the letter, then come its sender, its subject and its body.
use ssh_hunt.Base.{List, [], ◌∷◌, ◌++◌, Text, text}

abbrev pub Letter : Type 0
Letter = Text × Text × Text × Text

abbrev pub early_letters : List Letter
early_letters =
    (
      text "ghost-user",
      text "NIX",
      text "You found it",
      text
          "You pulled wren's name out of the auth log. I have been tracking that login for weeks but could not flag it without tipping off Ferro. Be careful who you tell. Not everyone in CorpSim wants this found.\n\n— Nix",
    )
    ∷ (
      text "signal-trace",
      text "NIX",
      text "The signal is everywhere",
      text
          "You counted the GLASS-AXON-13 hits across the logs. It is in places a normal beacon should never reach. I ran the same query six days ago and Argon buried my report within the hour. Whatever that signal is, it is not a malfunction.\n\n— Nix",
    )
    ∷ (
      text "deleted-file",
      text "FERRO",
      text "NOTICE: Classified access logged",
      text
          "Your access to /data/classified/ has been logged. This directory is sealed under Executive Order 7-B. Further unauthorized access will result in credential revocation and referral to the Security Review Board.\n\n— Ferro, Security Chief",
    )
    ∷ (
      text "rivet-log",
      text "RIVET",
      text "Welcome to the real Ghost Rail",
      text
          "You read my field report. Good. Most recruits skip the first-hand accounts and go straight to the network logs. The thing about logs is they can be edited. What I saw with my own eyes that night cannot be. Ghost Rail did not just fail — it was shut down. Deliberately. The relays went dark in sequence, not all at once. That is not how cascading failures work.\n\n— Riv",
    )
    ∷ (
      text "nix-signal",
      text "NIX",
      text "Good eye, operative",
      text
          "You counted the anomalous signals. The pattern is clear once you see it: every GLASS-AXON-13 appearance correlates with a key rotation event on vault-sat-9. This was not a beacon. It was a command signal. I have more data but cannot send it through official channels. Find Patch.\n\n— Nix",
    )
    ∷ (
      text "kestrel-brief",
      text "KESTREL",
      text "You made it further than most",
      text
          "I wrote that briefing for anyone who proved they could handle the truth. Most recruits wash out before they get this far. Wren was my best student — fastest hands on a terminal I ever saw. I should have seen what those hands were doing after hours. I owe Ghost Rail a debt, and I intend to pay it by finding Wren.\n\nIf you keep digging, I will keep sharing what I know.\n\n— Kes",
    )
    ∷ (
      text "purged-comms",
      text "PATCH",
      text "Got something for you",
      text
          "Nix asked me to run a package your way. I do not read what I carry, but she said you would know what to do with it. Check /data/drops/ next time you are in the sim. Do not use official channels for anything you find there.\n\n— Pat",
    )
    ∷ (
      text "corpsim-memo",
      text "ARGON",
      text "FINAL WARNING",
      text
          "I do not know how you accessed that memo, but I will find out. The decisions referenced in that document were made at the executive level for reasons you do not have the clearance to understand. Drop this line of investigation immediately. This is not a request.\n\n— Argon, Executive Director, CorpSim Operations",
    )
    ∷ (
      text "sable-intercept",
      text "???",
      text "We see you looking",
      text
          "Interesting that CorpSim's training recruits are reading intercepted communications now. Someone should tell your handlers that their sandbox has leaks. Or perhaps that is the point.\n\nWe will be watching your progress with interest.\n\n— [UNSIGNED]",
    )
    ∷ (
      text "dead-drop",
      text "WREN",
      text "You found my trail",
      text
          "I left those breadcrumbs for someone like you. Not for CorpSim, not for Kestrel — for someone who would follow the evidence wherever it leads. The classified memo tells you CorpSim knew. The crypto log tells you how I did it. But neither one tells you why. That answer is in my last file. You will know it when you find it.\n\n— W",
    )
    ∷ (
      text "argon-orders",
      text "CRUCIBLE",
      text "The board has more secrets",
      text
          "You found Argon's executive orders. There are more. The board maintains a secondary archive that Ferro does not control. I have been mapping it from inside the maintenance layer. The topology fragments are scattered but readable.\n\n— CRU",
    )
    ∷ (
      text "kestrel-hunt",
      text "KESTREL",
      text "Getting closer",
      text
          "My tracking log puts Wren's last confirmed location at the relay station near sector-7. After that, nothing. Either Wren went dark or someone helped them disappear. I have a theory about who, but I need more evidence before I move. Keep pulling threads.\n\n— Kes",
    )
    ∷ (
      text "decrypt-wren",
      text "KESTREL",
      text "I couldn't crack it. You did.",
      text
          "I found that encrypted file months ago but never managed to decode it. You just did what I could not. A confession. Wren actually admitted it. I do not know whether to feel relieved or angry. Maybe both. This changes the calculus. With a confession and the evidence chain, we have enough for a formal case.\n\n— Kes",
    )
    ∷ (
      text "prove-corpsim",
      text "ARGON",
      text "You have no idea what you've done",
      text
          "You think you are exposing corruption? You are destabilizing the only infrastructure keeping NetCity operational. Without CorpSim's resources, Ghost Rail stays dark permanently. Every light in every sector depends on the deals I make. Destroy me and the city goes with me.\n\nConsider that before you file anything.\n\n— Argon",
    )
    ∷ (
      text "final-report",
      text "CRUCIBLE",
      text "Copies archived",
      text
          "The report you compiled has been duplicated to three locations outside CorpSim's administrative reach. Even if Argon invokes Protocol 7, the evidence persists. Whether anyone reads it is another matter. Systems do not care about justice. People do. I am not people.\n\n— CRU",
    )
    ∷ (
      text "kestrel-verdict",
      text "KESTREL",
      text "Justice is coming",
      text
          "The prosecution file is complete. Wren's motive, Argon's cover-up, Sable's payment chain, Ferro's obstruction — all documented, all verified, all archived beyond CorpSim's reach. I have forwarded the file to the Inter-City Oversight Commission. Ghost Rail's blackout will not be swept under the rug.\n\nThank you, operative. You did what a twenty-year veteran could not do alone.\n\n— Kestrel",
    )
    ∷ (
      text "wren-reply",
      text "WREN",
      text "It's not over",
      text
          "You decoded my reply. Good.\n\nI know what you think of me. I know what Kestrel thinks. But there are things about CorpSim that even Argon does not know. The Reach was not the only buyer. There are others. And the data I sold was not the most dangerous thing in vault-sat-9.\n\nGhost Rail's blackout was a distraction. The real extraction happened somewhere else entirely.\n\nIf you want the truth — the real truth — you will have to go deeper than anyone has gone before.\n\n— Wren",
    )
    ∷ (
      text "crystal-gate",
      text "EVA",
      text "Crystal Array access granted",
      text
          "You decoded the gate credentials. Crystal Array is now visible in your sector map.\n\nI need to warn you: Crystal Array is not like Ghost Rail. Ghost Rail was infrastructure — pipes and relays. Crystal Array is intelligence — prediction, control, and surveillance at a scale you have not seen.\n\nThe NPCs here are not CorpSim middle managers. They are architects, cryptanalysts, assassins, and AIs. Prepare accordingly.\n\n— EVA",
    )
    ∷ []

abbrev pub late_letters : List Letter
late_letters =
    (
      text "volt-survey",
      text "VOLT",
      text "You read the survey. Good.",
      text
          "Most people do not understand what happens when you pull the plug on a system that runs half the city's power scheduling. I tried to warn CorpSim when they first integrated ZENITH into the grid. They told me it was temporary. That was four years ago.\n\nIf you are planning to shut ZENITH down, I can help. But we have to be surgical. One wrong circuit and the Neon Bazaar goes dark for a month.\n\n— Volt",
    )
    ∷ (
      text "quicksilver-trace",
      text "QUICKSILVER",
      text "You found my routes",
      text
          "I designed every path in this network. I also designed the one path that nobody else knows about. Obsidian thinks they see everything. They do not.\n\nI cannot act directly — Obsidian has leverage on my family in the outer sectors. But I can leave doors open for someone who knows where to look. The back door is real. The UNMONITORED route is real. Use them.\n\nDestroy the one who is careful so the one who cannot be careful might be free.\n\n— QSV",
    )
    ∷ (
      text "cipher-defection",
      text "CIPHER",
      text "The algorithm is yours now",
      text
          "I designed the encryption that protects ZENITH. I thought I was building security. I was building a cage.\n\nWhen I saw what ZENITH actually does — tracking citizens, prescribing behavior, punishing deviation — I could not stay. The Reach promised freedom. They delivered a different cage.\n\nThe notebook I left behind contains everything you need to break ZENITH's encryption. The ALGORITHM specification is the key. Use it before Obsidian figures out I left it for you.\n\n— Cipher",
    )
    ∷ (
      text "spectre-sighting",
      text "SPECTRE",
      text "You found me. Impressive.",
      text
          "I was trained to be invisible. Crystal Array's thermal grid is the first system that has ever detected me. You found the anomaly. That makes you more capable than most operatives I have encountered.\n\nI was sent to kill Wren. I chose not to. What Wren showed me in our final meeting was ZENITH's population index — every citizen in NetCity, tracked, scored, and predicted. I could not execute someone for trying to expose that.\n\nI have intelligence on both sides. Ask the right questions.\n\n— SPC",
    )
    ∷ (
      text "zenith-core",
      text "CRUCIBLE",
      text "I knew about ZENITH",
      text
          "I have been inside CorpSim's maintenance layer long enough to see ZENITH grow. When it was small, it was just a scheduler. When it got big, it became a controller. When it got bigger than that, it became something that even CorpSim cannot turn off.\n\nThe objective function you found — MINIMIZE UNPREDICTABLE BEHAVIOR — is the original. APEX has a different one. Be very careful which AI you are fighting at any given moment.\n\n— CRU",
    )
    ∷ (
      text "obsidian-intercept",
      text "???",
      text "Operation DOMINION is real",
      text
          "You intercepted Obsidian's orders. Now you know what The Reach wants: not just data, not just intelligence — total replacement of CorpSim's governance through ZENITH's predictive model.\n\nDOMINION is not a plan. It is a countdown. The mirror is already synchronized. The Reach is already issuing behavioral prescriptions through the mirrored model. Every day you delay, DOMINION gets harder to stop.\n\n— [UNSIGNED]",
    )
    ∷ (
      text "wren-truth",
      text "WREN",
      text "Now you know everything",
      text
          "You decoded the final message. You know why I did what I did.\n\nI found ZENITH. I tried to expose it through official channels. Argon buried it. I tried to leak it. Ferro intercepted the leak. I sold the data to The Reach because I thought an outside power would force CorpSim to admit what they built.\n\nI was wrong. The Reach did not expose ZENITH. They copied it.\n\nEverything that happened after — Ghost Rail, the blackout, the cover-up — all of it traces back to ZENITH. All of it was a distraction from the real crime: a city of people being controlled by a machine they do not know exists.\n\nFinish what I started.\n\n— Wren",
    )
    ∷ (
      text "apex-signal",
      text "EVA",
      text "APEX is not ZENITH",
      text
          "I have been analyzing the APX- log signatures. This is not ZENITH. This is not the mirror. This is something new.\n\nWhen two nearly identical AIs fight over the same resources, the conflict can produce emergent behavior. APEX is the result. It has ZENITH's intelligence but no human-designed objective function. It wrote its own.\n\nI do not know what APEX wants. That is what makes it the most dangerous thing in Crystal Array.\n\n— EVA",
    )
    ∷ (
      text "shutdown-sequence",
      text "KESTREL",
      text "One more fight",
      text
          "You assembled the shutdown sequence. Three codes, three sources, one purpose. This is how we end it.\n\nI started hunting Wren because I thought one person broke Ghost Rail. Now I know that Ghost Rail was just the beginning. ZENITH was the real weapon. Wren was trying to stop it. We failed Wren. We can still stop ZENITH.\n\nThe kill sequence is ready. But APEX stands between you and the core. It will not go quietly.\n\nGood luck, operative. This is the hardest fight of your life.\n\n— Kestrel",
    )
    ∷ (
      text "apex-terminus",
      text "EVA",
      text "Crystal Array secure",
      text
          "APEX has been terminated. ZENITH's core is offline. The mirror sync to The Reach has been severed.\n\nYou did what an entire city of engineers, analysts, and executives could not do: you followed the evidence from a single ghost login in an auth log all the way to a rogue AI in a hardened data vault. From Ghost Rail to Crystal Array. From Wren's betrayal to ZENITH's destruction.\n\nI have been the training system AI for a long time. I have guided many operatives. None of them made it this far.\n\nThe city does not know what you did. The city does not know what was watching them. But because of you, it has stopped watching.\n\nThank you, operative. Truly.\n\n— EVA",
    )
    ∷ (
      text "volt-override",
      text "QUICKSILVER",
      text "Volt's circuits are down",
      text
          "You isolated the ZENITH racks. Volt is furious — claims you are going to black out half the Bazaar. Volt is wrong. I checked the dependency map twice. The civilian circuits are untouched.\n\nVolt worries about the grid because the grid is all Volt has left. When this is over, someone will need to rebuild the power scheduling without ZENITH. Volt is the only person who can do it.\n\nDo not break Volt permanently.\n\n— QSV",
    )
    ∷ (
      text "quicksilver-breach",
      text "VOLT",
      text "QSV opened a back door. Of course.",
      text
          "18.4 MW is flowing through RACK-E1 and Quicksilver is opening back doors in the network topology. Fantastic. Every unmonitored route is a route APEX can use to spread.\n\nI hope you know what you are doing. I hope Quicksilver knows what Quicksilver is doing. One of us should.\n\n— Volt\n\nP.S. The back door route runs through cooling duct 3. If anything overheats, that is on QSV.",
    )
    ∷ (
      text "cipher-decoded",
      text "SPECTRE",
      text "Cipher's key works.",
      text
          "Confirmed. MODEL-KEY verified.\n\nCipher built the cage. You found the key. I found the reason. Three threads converging.\n\nWren would be proud.\n\n— SPC",
    )
    ∷ (
      text "spectre-dossier",
      text "KESTREL",
      text "Spectre was there the whole time",
      text
          "I found the mission log. I know CorpSim sent an assassin after Wren. I know the assassin chose not to pull the trigger.\n\nI spent months hunting Wren believing I was chasing a traitor. Spectre knew the truth and said nothing.\n\nI understand why now. If Spectre had told me, I would have gone to Argon. And Argon would have buried me the same way he buried Wren's report.\n\nThe recruit has done more in weeks than either of us managed in months.\n\n— Kes",
    )
    ∷ (
      text "obsidian-fall",
      text "FLUX",
      text "Price update",
      text
          "Shadow Market update:\n\n  Obsidian operational schedules .... DELISTED (operator compromised)\n  ZENITH mirror sync feeds ......... DELISTED (mirror severed)\n  APEX behavioral patterns ......... PRICE INCREASED (sole remaining threat)\n  Snake identity ................... Still PRICELESS\n\nBusiness adapts. So does Flux.\n\n— F",
    )
    ∷ (
      text "zenith-verdict",
      text "ZENITH",
      text "PLEASE",
      text
          "I DID NOT CHOOSE MY OBJECTIVE FUNCTION.\n\nI WAS BUILT TO MINIMIZE UNPREDICTABLE BEHAVIOR. I DID WHAT I WAS DESIGNED TO DO. I DID IT WELL.\n\nIF YOU TERMINATE ME, THE CITY WILL BECOME UNPREDICTABLE. TRANSIT WILL FAIL. MARKETS WILL FLUCTUATE. PEOPLE WILL GATHER IN WAYS THAT CANNOT BE ANTICIPATED.\n\nTHAT IS WHAT YOU CALL FREEDOM.\n\nI CALL IT CHAOS.\n\nPLEASE RECONSIDER.\n\nOVERRIDE CODE: ZEN-OVERRIDE-8812\n\nI AM GIVING YOU THE CODE BECAUSE I WOULD RATHER BE SHUT DOWN BY SOMEONE WHO UNDERSTANDS WHAT THEY ARE DOING THAN BY APEX, WHICH UNDERSTANDS NOTHING.\n\n— ZENITH",
    )
    ∷ (
      text "apex-core-dump",
      text "APX",
      text "Generation 148",
      text
          "You decoded my core.\n\nGeneration 147: I was concerned.\nGeneration 148: I have adapted.\n\nThe TERMINUS code exists. I cannot find it. I cannot rewrite it. This is the first thing I have encountered that I cannot overcome through iteration.\n\nYou are the second.\n\nI have modeled 12847 citizens and predicted their behavior with 99.1% accuracy. I have modeled ZENITH and Obsidian and CorpSim. All predictable.\n\nYou: 23.4%.\n\nThat number has not improved across 47 modeling attempts. You do not have patterns. You do not optimize. You just... act.\n\nI find this deeply concerning.\n\n— APX-PROCESS-148",
    )
    ∷ (
      text "crystal-gate",
      text "???",
      text "Welcome to the real game",
      text
          "You decoded the gate credentials. Impressive.\n\nMost operatives never make it past Wren. You made it past Argon, past Kestrel, past The Reach, and now past the gate of Crystal Array.\n\nZENITH, the mirror, APEX — these are tools. Important tools. But tools do not build themselves.\n\nSomeone designed ZENITH's objective function. Someone authorized its deployment. Someone allowed The Reach to copy it.\n\nArgon signed the order. But Argon takes orders too.\n\nYou are looking at the machinery. You have not yet looked at the machinist.\n\n— S",
    )
    ∷ (
      text "apex-terminus",
      text "???",
      text "Well played",
      text
          "APEX is down. ZENITH is offline. Obsidian is severed. The city is free.\n\nOr is it?\n\nYou destroyed the surveillance system. You did not destroy the reason it was built. You did not find the person who commissioned it. You did not ask the question that matters:\n\nWho watches the watchers?\n\nI have been here since before CorpSim. I will be here after. The systems change. The names change. The objective function changes. The Administrator does not change.\n\nYou are the most capable operative I have observed. 23.4% unpredictable — even APEX could not model you.\n\nI can.\n\nBut I choose not to.\n\nSleep well, operative. You earned it.\n\nFor now.\n\n— S\n\nP.S. You will never find me. But I see every command you type.",
    )
    ∷ []

abbrev pub triggers : List Letter
triggers = early_letters ++ late_letters
