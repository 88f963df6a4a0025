-- ===== src/World/Seeds/Start.antt =====
-- What holds of the world at its start.
use ssh_hunt.Base.{
  ℕ, ◌≡◌, refl, inl, inr, Bool, true, not, ◌&&◌, ◌||◌, Option, none, some, List, [], ◌∷◌, ◌++◌,
  Text, text_eq, text_eq_iff, text_key, All, all, Bool-cases, map, foldl, Dict, Key, lookup, insert,
  has_key, arith, ltb,
}
use ssh_hunt.Base.Int.{pos, leb_ℤ}
use ssh_hunt.Base.Sets.{member}
use ssh_hunt.World.Records.{NpcProfile, NpcCombatState, SecretMissionConfig, HiddenOpsConfig}
use ssh_hunt.World.State.{MissionDefinition}
use ssh_hunt.World.Board.{values}
use ssh_hunt.World.NpcDuel.Scaling.{IsSane}
use ssh_hunt.World.Missions.Access.{is_hidden_mission_code}
use ssh_hunt.World.Missions.Codes.{
  tutorial_codes, intermediate_codes, advanced_codes, expert_codes, legendary_codes,
}
use ssh_hunt.World.NetCity.{keys_vault, starter_codes}
use ssh_hunt.World.Missions.Letters.{Letter, triggers}
use ssh_hunt.World.Seeds.Tutorial.{tutorial_track, gateway_missions}
use ssh_hunt.World.Seeds.Starters.{surface_anomalies, first_introductions}
use ssh_hunt.World.Seeds.Insider.{bridge_missions, insider_thread}
use ssh_hunt.World.Seeds.Investigations.{npc_investigations}
use ssh_hunt.World.Seeds.Advanced.{advanced_missions}
use ssh_hunt.World.Seeds.Systems.{expert_chains, system_skills}
use ssh_hunt.World.Seeds.Conspiracy.{conspiracy_arc}
use ssh_hunt.World.Seeds.Confrontations.{npc_confrontations, expert_missions}
use ssh_hunt.World.Seeds.Endgame.{endgame_arc, npc_endgame}
use ssh_hunt.World.Seeds.Crystal.{crystal_discovery, crystal_introductions}
use ssh_hunt.World.Seeds.Zenith.{zenith_revelation, crystal_confrontations}
use ssh_hunt.World.Seeds.Terminus.{crystal_endgame, final_confrontations}
use ssh_hunt.World.Seeds.Characters.{early_npcs}
use ssh_hunt.World.Seeds.Others.{late_npcs}
use ssh_hunt.World.Seeds.Suspects.{early_fighters}
use ssh_hunt.World.Seeds.Rivals.{middle_fighters}
use ssh_hunt.World.Seeds.Bosses.{late_fighters}
use ssh_hunt.World.Seeds.{
  seed_npcs, new_world, seed_missions, seed_npc_combat, insert_mission, insert_npc, with_secret,
  secret_mission_of,
}

module _ {K V : Type 0} ⦃key : Key K⦄ where
  All-insert :
      (P : V → Type 0) (k : K) (v : V) (m : Dict K V)
      → P v
      → All P (values m)
      → All P (values (insert k v m))
  unfolding insert
  All-insert P k v [] h rest = (h, tt)
  All-insert P k v ((j, w) ∷ m) h rest = elim (Bool-cases (key.key_eq j k)) [
    | inl e ↦ rw e (h, rest.1)
    | inr e ↦ rw e (rest.0, All-insert P k v m h rest.1)
  ]

has_key-insert :
    (c k : Text) (v : MissionDefinition) (ms : Dict Text MissionDefinition)
    → has_key c (insert k v ms) ≡ (text_eq k c || has_key c ms)
unfolding insert lookup
has_key-insert c k v [] = ground (arith, text_eq_iff k c)
has_key-insert c k v ((j, m) ∷ ms) =
    ground (arith, text_eq_iff k c, text_eq_iff j k, text_eq_iff j c, has_key-insert c k v ms)

-- The codes of the inserted missions are known.
has_key-foldl :
    (c : Text) (l : List MissionDefinition) (ms : Dict Text MissionDefinition)
    → has_key c (foldl insert_mission ms l)
      ≡ (member c (map (λ (m : MissionDefinition). m.code) l) || has_key c ms)
unfolding member
has_key-foldl c [] ms = refl
has_key-foldl c (m ∷ l) ms =
    ground (arith, has_key-foldl c l (insert_mission ms m), has_key-insert c m.code m ms)

All-foldl_mission :
    (P : MissionDefinition → Type 0) (l : List MissionDefinition) (ms : Dict Text MissionDefinition)
    → All P l
    → All P (values ms)
    → All P (values (foldl insert_mission ms l))
All-foldl_mission P [] ms h rest = rest
All-foldl_mission P (m ∷ l) ms h rest =
    All-foldl_mission P l (insert_mission ms m) h.1 (All-insert P m.code m ms h.0 rest)

All-foldl_npc :
    (P : NpcCombatState → Type 0) (l : List NpcCombatState) (ns : Dict Text NpcCombatState)
    → All P l
    → All P (values ns)
    → All P (values (foldl insert_npc ns l))
All-foldl_npc P [] ns h rest = rest
All-foldl_npc P (n ∷ l) ns h rest =
    All-foldl_npc P l (insert_npc ns n) h.1 (All-insert P n.callsign n ns h.0 rest)

is_sane : NpcCombatState → Bool
is_sane npc =
    leb_ℤ (pos 1) npc.base_hp
    && leb_ℤ npc.base_hp (pos 300)
    && leb_ℤ (pos 0) npc.damage_range.0
    && leb_ℤ npc.damage_range.0 npc.damage_range.1
    && leb_ℤ npc.damage_range.1 (pos 50)
    && leb_ℤ (pos 0) npc.shell_bonus_dmg
    && leb_ℤ npc.shell_bonus_dmg (pos 1000)
    && ltb npc.times_defeated 268435456

is_sane_lem : (npc : NpcCombatState) → is_sane npc ≡ true → IsSane npc
unfolding is_sane
is_sane_lem npc e = record {
  hp = (ground arith, ground arith);
  least = ground arith;
  range = ground arith;
  most = ground arith;
  bonus = (ground arith, ground arith);
  count = ground arith;
}

-- A test that passes on all items.
all_pass :
    {A : Type 0} (t : A → Bool) (P : A → Type 0)
    → ((x : A) → t x ≡ true → P x)
    → (l : List A) → all t l ≡ true
    → All P l
all_pass t P f [] e = tt
all_pass t P f (x ∷ l) e = (f x (ground arith), all_pass t P f l (ground arith))

npcs_sane : all is_sane seed_npc_combat ≡ true
unfolding is_sane seed_npc_combat early_fighters middle_fighters late_fighters
npcs_sane = refl

abbrev seeded_codes : List Text
seeded_codes = map (λ (m : MissionDefinition). m.code) seed_missions

none_hidden : all (λ (m : MissionDefinition). not m.hidden) seed_missions ≡ true
unfolding seed_missions tutorial_track gateway_missions surface_anomalies first_introductions
    bridge_missions insider_thread npc_investigations advanced_missions expert_chains system_skills
    conspiracy_arc npc_confrontations expert_missions endgame_arc npc_endgame crystal_discovery
    crystal_introductions zenith_revelation crystal_confrontations crystal_endgame
    final_confrontations
none_hidden = refl

-- The codes that the other tables name: the tiers, the letters and the characters.
abbrev pub named_codes : List Text
named_codes =
    keys_vault ∷ tutorial_codes
    ++ starter_codes
    ++ intermediate_codes
    ++ advanced_codes
    ++ expert_codes
    ++ legendary_codes
    ++ map (λ (l : Letter). l.0) triggers
    ++ map (λ (n : NpcProfile). n.first_seen) seed_npcs

codes_known : all (λ c. member c seeded_codes) named_codes ≡ true
unfolding member text_eq early_npcs late_npcs seed_missions tutorial_track gateway_missions
    surface_anomalies first_introductions bridge_missions insider_thread npc_investigations
    advanced_missions expert_chains system_skills conspiracy_arc npc_confrontations expert_missions
    endgame_arc npc_endgame crystal_discovery crystal_introductions zenith_revelation
    crystal_confrontations crystal_endgame final_confrontations
codes_known = refl

-- A hidden mission is that of the configuration.
abbrev pub OnlySecret : HiddenOpsConfig → MissionDefinition → Type 0
OnlySecret ops m = m.hidden ≡ true → is_hidden_mission_code ops m.code ≡ true

abbrev pub IsKnown : Dict Text MissionDefinition → Text → Type 0
IsKnown ms c = has_key c ms ≡ true

secret_only :
    (ops : HiddenOpsConfig) (secret : Option SecretMissionConfig) (ms : Dict Text MissionDefinition)
    → ops.secret_mission ≡ secret
    → All (OnlySecret ops) (values ms)
    → All (OnlySecret ops) (values (with_secret secret ms))
unfolding is_hidden_mission_code
secret_only ops none ms e h = h
secret_only ops (some s) ms e h =
    All-insert (OnlySecret ops) s.code (secret_mission_of s) ms
      (λ _. ground (arith, text_eq_iff s.code s.code)) h

seeds_have :
    (secret : Option SecretMissionConfig) (c : Text)
    → member c seeded_codes ≡ true
    → IsKnown (with_secret secret (foldl insert_mission [] seed_missions)) c
seeds_have none c e = ground (arith, has_key-foldl c seed_missions [])
seeds_have (some s) c e =
    let ms = foldl insert_mission [] seed_missions in
    ground
      (arith, has_key-insert c s.code (secret_mission_of s) ms, has_key-foldl c seed_missions [])

-- At the start every code that a tier, a letter or a character names is that of a mission, only the
-- mission of the configuration may be hidden, and every character that fights is within the bounds.
pub start_lem :
    (ops : HiddenOpsConfig) (fresh : ℕ → ℕ) (now : ℕ)
    → let w = new_world ops fresh now in
      All (IsKnown w.missions) named_codes
      × All (OnlySecret ops) (values w.missions)
      × All IsSane (values w.npc_combat)
unfolding new_world
start_lem ops fresh now = (
  all_pass (λ c. member c seeded_codes) (IsKnown (new_world ops fresh now).missions)
      (seeds_have ops.secret_mission) named_codes codes_known,
  secret_only ops ops.secret_mission (foldl insert_mission [] seed_missions) refl (
      All-foldl_mission (OnlySecret ops) seed_missions []
        (all_pass (λ (m : MissionDefinition). not m.hidden) (OnlySecret ops)
          (λ m e h. absurd (ground arith)) seed_missions none_hidden)
        tt),
  All-foldl_npc IsSane seed_npc_combat []
      (all_pass is_sane IsSane is_sane_lem seed_npc_combat npcs_sane) tt,
)
