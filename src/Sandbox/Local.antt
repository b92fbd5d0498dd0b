-- ===== src/Sandbox/Local.antt =====
-- The sandbox of directories and the broker of opaque tokens (crates/sandbox/src/lib.rs,
-- `LocalSandbox` and `LocalBroker`). What the file system answers is a parameter.
use Prim.Native.Char.{Char, code}
use kiln_cli.Prelude.{
  ap, eqb, if◌then◌else◌, Bool-cases, ℕ, String, ◌<>◌, ◌≡◌, refl, inl, inr, Bool, false, ◌||◌, none,
  true, arith,
}
use kiln_cli.Prelude.Result.{Result, ok, ◌>>◌}
use kiln_cli.Prelude.Text.{split_once}

-- The characters of a unit's name that a directory keeps, every other one made `_`.
unfoldable pub directory_safe : (ℕ → Bool) → String → String
directory_safe alphanumeric String.[] = ""
directory_safe alphanumeric (String.◌∷◌ c s) =
    let rest = directory_safe alphanumeric s in
    if alphanumeric (code c) || eqb (code c) b'-' then String.◌∷◌ c rest else String.◌∷◌ "_" rest

abbrev pub default_root : String
default_root = ".kiln/sandboxes"

module _ (alphanumeric : ℕ → Bool) (root : String) where
  unfoldable pub workspace_of : String → String
  unfolding directory_safe
  workspace_of unit_ref = root <> "/" <> directory_safe alphanumeric unit_ref

  unfoldable pub local_provision :
      (String → Result String (Unit {0})) → String → Result String String
  unfolding workspace_of
  local_provision create_dir_all unit_ref =
      create_dir_all (workspace_of unit_ref) >> ok (workspace_of unit_ref)

unfoldable pub local_teardown :
    (String → Bool) → (String → Result String (Unit {0})) → String → Result String (Unit {0})
local_teardown exists remove_dir_all workspace =
    if exists workspace then remove_dir_all workspace else ok tt

unfoldable pub local_exchange : String → String
local_exchange grant_ref = "lease:" <> grant_ref

kept-ne-slash :
    (alphanumeric : ℕ → Bool) (c : Char)
    → alphanumeric b'/' ≡ false
    → (alphanumeric (code c) || eqb (code c) b'-') ≡ true
    → eqb (code c) b'/' ≡ false
kept-ne-slash alphanumeric c h kept = elim (Bool-cases (eqb (code c) b'/')) [
  | inl slash ↦ let e : code c ≡ b'/' = ground arith in ground (arith, ap alphanumeric e)
  | inr other ↦ other
]

-- Whatever the unit is called, its workspace is one directory below the root: the name of the
-- directory holds no separator, if the test for alphanumeric characters takes none.
pub directory_safe-plain :
    (alphanumeric : ℕ → Bool) (s : String)
    → alphanumeric b'/' ≡ false
    → split_once b'/' (directory_safe alphanumeric s) ≡ none
unfolding directory_safe split_once
directory_safe-plain alphanumeric String.[] h = refl
directory_safe-plain alphanumeric (String.◌∷◌ c s) h =
    let rest = directory_safe-plain alphanumeric s h in
    elim (Bool-cases (alphanumeric (code c) || eqb (code c) b'-')) [
      | inl kept ↦
          rw (kept, directory_safe)
            (rw (rest, split_once) (rw (kept-ne-slash alphanumeric c h kept, split_once) refl))
      | inr other ↦ rw (other, directory_safe) (rw (rest, split_once) refl)
    ]
