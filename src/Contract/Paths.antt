-- ===== src/Contract/Paths.antt =====
-- internal/contract/path_policy.go: ValidateCwdContainment. The functions of package filepath and
-- strings.EqualFold depend on the system that the program is built for, and the file system is what
-- it finds: both are the fields of Platform.
pub mod Containment
use ai_supervisor.Base.{
  ℕ, Bool, true, false, ◌&&◌, ◌||◌, not, Option, none, some, List, [], ◌∷◌, ◌++◌, Result, ok, err,
  ◌>>=◌, ◌>>◌, guard, or_fail, if◌then◌else◌,
}
use ai_supervisor.Base.Text.{Text, codes, ◌=ᵗ◌, is_empty, is_blank, trim_space}
use ai_supervisor.Contract.Values.{ValidationError, path_error}
use ai_supervisor.Contract.Scope.{
  slash, backslash, has_prefix, is_drive_qualified, to_slashes, split_slash,
}

-- os.Lstat: the entry is there, or is certain not to be, or cannot be inspected.
pub data Entry : Type 0 where
  present : Entry
  absent : Entry
  unreadable : Entry

-- `stat` is whether there is a directory, or none; a call that returns an error is none.
pub record Platform : Type 0 where
  pub abs : Text → Option Text
  pub clean : Text → Text
  pub from_slash : Text → Text
  pub to_slash : Text → Text
  pub volume_name : Text → Text
  pub join : Text → Text → Text
  pub rel : Text → Text → Option Text
  pub separator : ℕ
  pub equal_fold : Text → Text → Bool
  pub stat : Text → Option Bool
  pub lstat : Text → Entry
  pub eval_symlinks : Text → Option Text

abbrev pub root_error : ValidationError
root_error = path_error (codes "worktree_root")

abbrev pub cwd_error : ValidationError
cwd_error = path_error (codes "cwd")

-- strings.TrimPrefix
abbrev drop_prefix : Text → Text → Text
drop_prefix s [] = s
drop_prefix [] (c ∷ p) = []
drop_prefix (b ∷ s) (c ∷ p) = drop_prefix s p

abbrev trim_prefix : Text → Text → Text
trim_prefix s p = if has_prefix s p then drop_prefix s p else s

abbrev pub device : Text
device = backslash ∷ backslash ∷ b'?' ∷ backslash ∷ []

-- strings.Contains(s, "/../")
unfoldable pub contains_parent : Text → Bool
contains_parent [] = false
contains_parent (b ∷ s) = has_prefix (b ∷ s) (codes "/../") || contains_parent s

abbrev pub is_last : List Text → Bool
is_last [] = true
is_last (c ∷ l) = false

-- A component that the walk passes over.
abbrev pub is_skipped : Text → Bool
is_skipped comp = comp =ᵗ [] || comp =ᵗ codes "."

-- os.Lstat on a component: what follows if it exists, and the end of the walk if it does not.
abbrev pub inspect : Entry → Result ValidationError (Unit {0}) → Result ValidationError (Unit {0})
inspect present entered = entered
inspect absent entered = ok tt
inspect unreadable entered = err cwd_error

-- `cwdPolicy`, which is worktree_root by default.
abbrev pub policy_or_default : Text → Text
policy_or_default policy = if is_empty policy then codes "worktree_root" else policy

module _ (fs : Platform) where
  unfoldable pub is_relative_inside : Option Text → Bool
  is_relative_inside none = false
  is_relative_inside (some rel) =
      fs.clean rel =ᵗ codes "."
      || not (
          fs.clean rel =ᵗ codes ".."
          || has_prefix (fs.clean rel) (codes ".." ++ fs.separator ∷ [])
          || has_prefix (fs.clean rel) (codes "../"))

  -- isWithinRoot
  unfoldable pub is_within_root : Text → Text → Bool
  unfolding is_relative_inside has_prefix
  is_within_root target root =
      let target_clean = trim_prefix (fs.clean target) device in
      let root_clean = trim_prefix (fs.clean root) device in
      fs.equal_fold target_clean root_clean || is_relative_inside (fs.rel root_clean target_clean)

  -- The trusted root, resolved: steps 1 of ValidateCwdContainment.
  unfoldable pub canonical_root : Text → Result ValidationError Text
  canonical_root worktree_root = do
    guard (not (is_blank worktree_root)) root_error
    abs_root ← or_fail (fs.abs worktree_root) root_error
    let clean_root = fs.clean abs_root
    is_dir ← or_fail (fs.stat clean_root) root_error
    guard is_dir root_error
    real_root ← or_fail (fs.eval_symlinks clean_root) root_error
    let canonical_real_root = fs.clean real_root
    real_is_dir ← or_fail (fs.stat canonical_real_root) root_error
    guard real_is_dir root_error
    ok canonical_real_root

  unfoldable pub check_lexical : Text → Result ValidationError Text
  check_lexical cwd = do
    guard (cwd =ᵗ trim_space cwd) cwd_error
    guard (not (has_prefix cwd (slash ∷ []) || has_prefix cwd (backslash ∷ []))) cwd_error
    guard (not (is_drive_qualified cwd)) cwd_error
    guard (is_empty (fs.volume_name cwd)) cwd_error
    guard (not (has_prefix cwd (backslash ∷ backslash ∷ []) || has_prefix cwd (slash ∷ slash ∷ [])))
        cwd_error
    guard (not (has_prefix cwd device || has_prefix cwd (backslash ∷ b'?' ∷ b'?' ∷ backslash ∷ [])))
        cwd_error
    let canonical_slash = fs.to_slash (fs.clean (fs.from_slash (to_slashes cwd)))
    guard
        (not (
          canonical_slash =ᵗ codes ".."
          || has_prefix canonical_slash (codes "../")
          || contains_parent canonical_slash))
        cwd_error
    ok canonical_slash

  -- An existing component, resolved: inside the root, and a directory unless it is the last.
  unfoldable pub enter : Text → Text → Bool → Result ValidationError Text
  enter root next_path is_last = do
    real_next ← or_fail (fs.eval_symlinks next_path) cwd_error
    guard (is_within_root real_next root) cwd_error
    if is_last then ok real_next else (do
      is_dir ← or_fail (fs.stat real_next) cwd_error
      guard is_dir cwd_error
      ok real_next)

  -- The walk over the components, from the path reached so far. Behind the first component that does
  -- not exist, no other is inspected.
  unfoldable pub walk : Text → Text → List Text → Result ValidationError (Unit {0})
  unfolding enter
  walk root current [] = ok tt
  walk root current (comp ∷ components) =
      let next_path = fs.join current (fs.from_slash comp) in
      let skip = walk root current components in
      let entered =
        enter root next_path (is_last components) >>= λ real_next. walk root real_next components in
      if is_skipped comp then skip else inspect (fs.lstat next_path) entered

  unfoldable pub check_contained : Text → Text → Result ValidationError (Unit {0})
  unfolding walk is_within_root
  check_contained root canonical_slash =
      if canonical_slash =ᵗ codes "." || canonical_slash =ᵗ [] then ok tt else (do
        guard (is_within_root (fs.join root (fs.from_slash canonical_slash)) root) cwd_error
        walk root root (split_slash canonical_slash))

  unfoldable pub validate_cwd_containment : Text → Text → Text → Result ValidationError (Unit {0})
  unfolding canonical_root check_lexical check_contained
  validate_cwd_containment cwd worktree_root cwd_policy = do
    root ← canonical_root worktree_root
    let policy = policy_or_default cwd_policy
    guard (policy =ᵗ codes "worktree_root" || policy =ᵗ codes "worktree_contained")
        (path_error (codes "cwd_policy"))
    canonical_slash ← check_lexical cwd
    if policy =ᵗ codes "worktree_root"
        then guard (canonical_slash =ᵗ codes "." || canonical_slash =ᵗ []) cwd_error
        else check_contained root canonical_slash
