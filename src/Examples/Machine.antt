-- ===== src/Examples/Machine.antt =====
-- A machine with two runtimes and a store, for the examples.
use familiar_fleet.Base.{
  ◌≡◌, ◌≢◌, eq_iff, arith, true, false, Option, none, some, [], ◌∷◌, ◌++◌, Text, codes, text_eq,
  ◌==◌, if◌then◌else◌, refl,
}
use familiar_fleet.FilePath.{clean, join}
use familiar_fleet.Host.{
  lookup, World, Entry, directory, symlink, FilePath, Info, directory_file, regular_file,
}
use familiar_fleet.Store.{Store, current, previous, gc_roots}
use familiar_fleet.Store.Paths.{root_of}
use familiar_fleet.Store.Reads.{IsRuntime}
use familiar_fleet.Applier.{Tools, RuntimeApplier}

abbrev pub old_runtime : Text
old_runtime = codes "/nix/store/a-old"

abbrev pub new_runtime : Text
new_runtime = codes "/nix/store/b-new"

abbrev pub older_runtime : Text
older_runtime = codes "/nix/store/c-older"

abbrev pub stray : Text
stray = codes "/nix/store/d-stray"

abbrev pub folder : Info
folder = record { kind = directory_file; perm = 0o755; size = 0 }

abbrev pub program : Info
program = record { kind = regular_file; perm = 0o755; size = 10 }

abbrev old_tool : Text
old_tool = codes "/nix/store/a-old/bin/pi"

abbrev new_tool : Text
new_tool = codes "/nix/store/b-new/bin/pi"

abbrev pub files : Text → Option Info
files t =
    if t == old_runtime
    then some folder
    else if t == old_tool
    then some program
    else if t == new_runtime
    then some folder
    else if t == new_tool
    then some program
    else none

abbrev pub store : Store
store = record { dir = codes "runtime" ∷ [] }

abbrev pub link_of : FilePath → Text → FilePath × Entry
link_of path target = (path, symlink target)

abbrev pub dir_of : FilePath → FilePath × Entry
dir_of path = (path, directory)

abbrev pub world : World
world = record {
  outside = files;
  entries =
      dir_of store.dir
      ∷ link_of (current store) old_runtime
      ∷ link_of (previous store) old_runtime
      ∷ dir_of (gc_roots store)
      ∷ link_of (root_of store (codes "a-old")) old_runtime
      ∷ link_of (root_of store (codes "d-stray")) stray
      ∷ [];
  temps = [];
  schedule = [];
}

abbrev pub tools : Tools
tools = record {
  find = λ name. some (codes "/bin/" ++ name);
  build = λ nix installable outside. (some new_runtime, outside);
  runs = λ tool. true;
  realise = λ nix_store target. (true, some (symlink target));
}

abbrev pub applier : RuntimeApplier
applier = record { store = store; nix = codes "nix"; nix_store = codes "nix-store" }

pub new_runtime-IsRuntime : IsRuntime files new_runtime
unfolding join
new_runtime-IsRuntime = record {
  root = folder;
  tool = program;
  absolute = refl;
  safe = refl;
  root_found = refl;
  root_is = refl;
  tool_found = refl;
  tool_is = refl;
}

pub links_differ : (a b : Text) → (a == b) ≡ false → some (symlink a) ≢ some (symlink b)
links_differ a b h = ground (arith, eq_iff a b)

pub current_is : lookup (current store) world.entries ≡ some (symlink old_runtime)
unfolding lookup
current_is = refl

pub previous_is : lookup (previous store) world.entries ≡ some (symlink old_runtime)
unfolding lookup
previous_is = refl

pub dir_is : lookup store.dir world.entries ≡ some directory
unfolding lookup
dir_is = refl

pub gc_roots_is : lookup (gc_roots store) world.entries ≡ some directory
unfolding lookup
gc_roots_is = refl

pub old_root_is : lookup (root_of store (codes "a-old")) world.entries ≡ some (symlink old_runtime)
unfolding lookup
old_root_is = refl

pub stray_root_is : lookup (root_of store (codes "d-stray")) world.entries ≡ some (symlink stray)
unfolding lookup
stray_root_is = refl

pub clean_new : clean new_runtime ≡ new_runtime
unfolding clean
clean_new = refl
