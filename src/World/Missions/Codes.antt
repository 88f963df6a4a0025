-- ===== src/World/Missions/Codes.antt =====
-- ssh-hunt/crates/world/src/lib.rs: the codes of the missions, by tier.
use ssh_hunt.Base.{List, [], ◌∷◌, Text, text}

abbrev pub tutorial_codes : List Text
tutorial_codes =
    text "nav-101" ∷ text "read-101" ∷ text "echo-101" ∷ text "grep-101" ∷ text "pipe-101" ∷ []

abbrev pub intermediate_codes : List Text
intermediate_codes =
    text "head-tail"
    ∷ text "sort-count"
    ∷ text "wc-report"
    ∷ text "tee-split"
    ∷ text "xargs-run"
    ∷ text "access-pattern"
    ∷ text "purged-comms"
    ∷ text "key-rotation"
    ∷ text "roster-check"
    ∷ text "timing-attack"
    ∷ text "kestrel-brief"
    ∷ text "ferro-lockdown"
    ∷ text "patch-delivery"
    ∷ text "sable-intercept"
    ∷ text "crucible-ping"
    ∷ []

abbrev pub advanced_codes : List Text
advanced_codes =
    text "awk-patrol"
    ∷ text "chain-ops"
    ∷ text "sediment"
    ∷ text "cut-lab"
    ∷ text "pattern-sweep"
    ∷ text "file-ops"
    ∷ text "regex-hunt"
    ∷ text "pipeline-pro"
    ∷ text "var-play"
    ∷ text "json-crack"
    ∷ text "seq-master"
    ∷ text "column-view"
    ∷ text "process-hunt"
    ∷ text "cron-decode"
    ∷ text "permission-audit"
    ∷ text "wren-profile"
    ∷ text "exfil-trace"
    ∷ text "reach-intercept"
    ∷ text "config-diff"
    ∷ text "dead-drop"
    ∷ text "corpsim-memo"
    ∷ text "network-map"
    ∷ text "kill-switch"
    ∷ text "argon-orders"
    ∷ text "kestrel-hunt"
    ∷ text "ferro-bypass"
    ∷ text "nix-decoded"
    ∷ text "lumen-deal"
    ∷ text "crucible-map"
    ∷ []

abbrev pub expert_codes : List Text
expert_codes =
    text "deep-pipeline"
    ∷ text "log-forensics"
    ∷ text "data-transform"
    ∷ text "incident-report"
    ∷ text "anomaly-detect"
    ∷ text "escape-room"
    ∷ text "decrypt-wren"
    ∷ text "prove-corpsim"
    ∷ text "final-report"
    ∷ text "kestrel-verdict"
    ∷ text "crucible-offer"
    ∷ text "wren-reply"
    ∷ []

abbrev pub legendary_codes : List Text
legendary_codes =
    text "crystal-gate"
    ∷ text "zenith-log"
    ∷ text "mirror-detect"
    ∷ text "power-grid-map"
    ∷ text "vault-sat-13"
    ∷ text "volt-survey"
    ∷ text "quicksilver-trace"
    ∷ text "cipher-defection"
    ∷ text "spectre-sighting"
    ∷ text "zenith-core"
    ∷ text "surveillance-net"
    ∷ text "population-index"
    ∷ text "behavioral-model"
    ∷ text "predictive-engine"
    ∷ text "cipher-decoded"
    ∷ text "volt-override"
    ∷ text "quicksilver-breach"
    ∷ text "spectre-dossier"
    ∷ text "obsidian-intercept"
    ∷ text "zenith-mirror"
    ∷ text "apex-signal"
    ∷ text "apex-core-dump"
    ∷ text "wren-truth"
    ∷ text "obsidian-orders"
    ∷ text "shutdown-sequence"
    ∷ text "zenith-verdict"
    ∷ text "obsidian-fall"
    ∷ text "apex-terminus"
    ∷ []
