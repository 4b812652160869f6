-- ===== src/Retry/Legacy.antt =====
-- The counter that an older hook left at `.meta-harness/stop_attempts/<session>` inside the tree
-- (retry_state.py). Everything here can be written by the governed agent.
use borromean_rings.Base.{ℕ, String, Bool, true, false, Option, none, some}
use borromean_rings.StateHome.{Except, ok, unavailable, symlink_in_tree, take_chars, ◌>>=◌}
use borromean_rings.Retry.Count.{parse_count}

-- What `open_nofollow` finds at a directory's name.
pub data Node : Type 0 where
  absent symlink usable : Node

-- What the counter's name is inside the directory.
pub data Entry : Type 0 where
  missing link directory unreadable : Entry
  content : String → Entry

-- `sealed` holds where nothing in the directory can be removed, `siblings` where it holds other
-- files.
pub record Legacy : Type 0 where
  pub project_opens : Bool
  pub harness : Node
  pub attempts : Node
  pub entry : Entry
  pub sealed : Bool
  pub siblings : Bool

-- `open_nofollow` of one directory: `false` is `None`.
abbrev open_dir : String → Node → Except Bool
open_dir name absent = ok false
open_dir name symlink = unavailable (symlink_in_tree name)
open_dir name usable = ok true

abbrev open_next : Bool → Except Bool → Except Bool
open_next false next = ok false
open_next true next = next

-- Whether both directories are open.
unfoldable pub open_legacy_dirs : Legacy → Except Bool
open_legacy_dirs l = open_next l.project_opens (do
  first ← open_dir ".meta-harness" l.harness
  open_next first (open_dir "stop_attempts" l.attempts))

-- `_open_legacy_dirs(project, fds) if name else None`
unfoldable pub dirs_for : Option String → Legacy → Except Bool
unfolding open_legacy_dirs
dirs_for none l = ok false
dirs_for (some name) l = open_legacy_dirs l

abbrev pub legacy_read_bytes : ℕ
legacy_read_bytes = 64

-- `parse_count(…) or 0`
abbrev or_zero : Option ℕ → Except ℕ
or_zero none = ok 0
or_zero (some n) = ok n

-- The first 64 characters, which are the 64 bytes that the source reads where the text is ASCII.
abbrev read_entry : String → Entry → Except ℕ
read_entry name missing = ok 0
read_entry name link = unavailable (symlink_in_tree name)
read_entry name directory = ok 0
read_entry name unreadable = ok 0
read_entry name (content s) = do value ← parse_count (take_chars legacy_read_bytes s); or_zero value

unfoldable pub read_legacy : Bool → Option String → Legacy → Except ℕ
read_legacy true (some name) l = read_entry name l.entry
read_legacy dirs name l = ok 0

-- `os.unlink` with its errors suppressed.
abbrev unlinked : Bool → Entry → Entry
unlinked false link = missing
unlinked false unreadable = missing
unlinked false (content s) = missing
unlinked sealed entry = entry

-- `os.rmdir` with its errors suppressed: it succeeds on an empty directory.
abbrev after_rmdir : Bool → Bool → Entry → Node → Node
after_rmdir false false missing node = absent
after_rmdir sealed siblings entry node = node

abbrev retired : Legacy → Legacy
retired l =
    let entry = unlinked l.sealed l.entry in
    record l { entry = entry; attempts = after_rmdir l.sealed l.siblings entry l.attempts }

unfoldable pub retire_legacy : Bool → Option String → Legacy → Legacy
retire_legacy true (some name) l = retired l
retire_legacy dirs name l = l
