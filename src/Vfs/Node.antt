-- ===== src/Vfs/Node.antt =====
-- ssh-hunt/crates/vfs/src/lib.rs: the entries of the file system and the errors of its methods.
-- `DateTime<Utc>` is a number; the clock's reading is an argument of every method that stamps.
use ssh_hunt.Base.{ℕ, ◌≡◌, ◌⊎◌, inl, inr, refl, Bool, Option, Text, if◌then◌else◌}

pub data NodeKind : Type 0 where
  dir file : NodeKind

-- `node.kind == NodeKind::Dir`, `node.kind == NodeKind::File`
abbrev pub is_dir : NodeKind → Bool
is_dir dir = Bool.true
is_dir file = Bool.false

abbrev pub is_file : NodeKind → Bool
is_file dir = Bool.false
is_file file = Bool.true

pub record VfsPerms : Type 0 where
  pub mode : ℕ

pub record VfsMeta : Type 0 where
  pub owner : Text
  pub group : Text
  pub perms : VfsPerms
  pub created_at : ℕ
  pub updated_at : ℕ

pub record VfsNode : Type 0 where
  pub path : Text
  pub kind : NodeKind
  pub meta : VfsMeta
  pub content : Option Text

pub data VfsError : Type 0 where
  not_found already_exists not_directory not_file permission_denied : Text → VfsError
  remove_root invalid_path : VfsError

-- `VfsMeta::now`
abbrev pub meta_now : ℕ → Text → Bool → VfsMeta
meta_now now owner is_dir = record {
  owner = owner;
  group = owner;
  perms = record { mode = if is_dir then 0o755 else 0o644 };
  created_at = now;
  updated_at = now;
}

pub kind_cases : (k : NodeKind) → (k ≡ dir) ⊎ (k ≡ file)
kind_cases dir = inl refl
kind_cases file = inr refl
