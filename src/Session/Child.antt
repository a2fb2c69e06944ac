-- ===== src/Session/Child.antt =====
-- The processes that internal/client/supervise.go starts, and which of them `child.stop` signals. The
-- kernel's process table is a list; `descends` says of a process that it is the child or was forked
-- from one that descends from it, and `joins` that it, or a process that it was forked from, has moved
-- to the group of another process.
pub mod Reached
use familiar_fleet.Base.{
  ℕ, Bool, true, false, not, ◌&&◌, ◌||◌, ◌≡◌, Option, none, some, List, [], ◌∷◌, ◌++◌, Text, codes,
  nat_eq, ◌==◌, all, if◌then◌else◌,
}

-- syscall.SysProcAttr: Setpgid, Setsid, or neither
pub data Attributes : Type 0 where
  setpgid setsid inherited : Attributes

-- The command of a child, whether it is signalled through its process group, and its process id.
pub record Child : Type 0 where
  pub path : Text
  pub args : List Text
  pub env : Option (List Text)
  pub attributes : Attributes
  pub process_group : Bool
  pub pid : ℕ

unfoldable pub start_child_with_attrs :
    Text → List Text → Option (List Text) → Attributes → (process_group : Bool) → (pid : ℕ) → Child
start_child_with_attrs path args env attributes process_group pid = record {
  path = path;
  args = args;
  env = env;
  attributes = attributes;
  process_group = process_group;
  pid = pid;
}

unfoldable pub start_child : Text → List Text → (pid : ℕ) → Child
start_child path args pid = start_child_with_attrs path args none setpgid true pid

unfoldable pub start_foreground_child : Text → List Text → (pid : ℕ) → Child
start_foreground_child path args pid = start_child_with_attrs path args none inherited false pid

unfoldable pub start_detached_child : Text → List Text → List Text → (pid : ℕ) → Child
start_detached_child path args env pid = start_child_with_attrs path args (some env) setsid true pid

abbrev pub herdr_session : Text
herdr_session = codes "familiar-fleet"

abbrev pub herdr_server_args : List Text
herdr_server_args = codes "--session" ∷ herdr_session ∷ codes "server" ∷ []

abbrev pub herdr_tui_args : List Text
herdr_tui_args = codes "--session" ∷ herdr_session ∷ []

-- The three ways in which the program starts a process that it may stop.
pub data Start : Child → Type 0 where
  grouped : (path : Text) (args : List Text) (pid : ℕ) → Start (start_child path args pid)
  foreground :
      (path : Text) (args : List Text) (pid : ℕ) → Start (start_foreground_child path args pid)
  detached :
      (path : Text) (args env : List Text) (pid : ℕ)
      → Start (start_detached_child path args env pid)

pub record Process : Type 0 where
  pub pid : ℕ
  pub group : ℕ
  pub descends : Bool
  pub joins : Bool

-- The process of a new child: it leads a group of its own, or is in the program's.
abbrev pub group_of : Attributes → (parent pid : ℕ) → ℕ
group_of setpgid parent pid = pid
group_of setsid parent pid = pid
group_of inherited parent pid = parent

abbrev pub child_process : Child → (group : ℕ) → Process
child_process c group = record {
  pid = c.pid;
  group = group_of c.attributes group c.pid;
  descends = true;
  joins = false;
}

-- What a signal of child.stop reaches: the group that the child leads, or the child alone.
unfoldable pub is_signalled : Child → Process → Bool
is_signalled c p = if c.process_group then p.group == c.pid else p.pid == c.pid

-- No process and no group has this number.
abbrev pub is_free : ℕ → List Process → Bool
is_free n ps = all (λ p. not (p.pid == n) && not (p.group == n)) ps

-- The kernel from the start of the child on: a process forks, leaves for a group of its own, or exits.
-- The number of the child is not given again before the child is waited for.
module _ (c : Child) where
  pub data Table : List Process → Type 0 where
    started :
        (others : List Process) (group : ℕ)
        → is_free c.pid others ≡ true
        → all (λ p. not p.descends) others ≡ true
        → (group == c.pid) ≡ false
        → Table (child_process c group ∷ others)
    forked :
        (before after : List Process) (p : Process) (n : ℕ)
        → Table (before ++ p ∷ after)
        → is_free n (before ++ p ∷ after) ≡ true
        → (n == c.pid) ≡ false
        → Table (record p { pid = n } ∷ before ++ p ∷ after)
    regrouped :
        (before after : List Process) (p : Process)
        → Table (before ++ p ∷ after)
        → Table (before ++ record p { group = p.pid } ∷ after)
    regrouped_with :
        (before after : List Process) (p : Process) (group : ℕ)
        → Table (before ++ p ∷ after)
        → Table (before ++ record p { group = group; joins = true } ∷ after)
    exited :
        (before after : List Process) (p : Process)
        → Table (before ++ p ∷ after)
        → Table (before ++ after)
