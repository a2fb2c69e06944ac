-- ===== src/Host/Action.antt =====
-- Actions over a world, and the system calls.
use familiar_fleet.Base.{
  ◌&&◌, ◌==◌, if◌then◌else◌, ℕ, false, true, Bool, Option, none, some, List, [], ◌∷◌, Text,
  texts_eq, text_eq,
}
use familiar_fleet.Host.Errors.{Error, Reason, message, not_exist, io, Result, done, failed}
use familiar_fleet.Host.Files.{
  names_under, FilePath, Entry, directory, symlink, regular, raw, Content, Entries, lookup, put,
  remove, Info, Verdict, grant, refuse, kill, World,
}

-- `crash`: the process is gone, and runs none of its deferred calls.
pub data Outcome {ℓ} (A : Type ℓ) : Type ℓ where
  ok : A → Outcome A
  err : Error → Outcome A
  crash : Outcome A

abbrev pub Io {ℓ} : Type ℓ → Type ℓ
Io A = World → Outcome A × World

module _ {ℓ} {A : Type ℓ} where
  abbrev pub pure : A → Io A
  pure a w = (ok a, w)

  abbrev pub raise : Error → Io A
  raise e w = (err e, w)

  -- An action's error as a value.
  abbrev pub settle : Outcome A → Outcome (Result A)
  settle (ok a) = ok (done a)
  settle (err e) = ok (failed e)
  settle crash = crash

  unfoldable pub attempt : Io A → Io (Result A)
  attempt m w = let (o, w') = m w in (settle o, w')

  -- One system call: the world answers by its schedule.
  abbrev pub answer : (World → Outcome A × World) → World → List Verdict → Outcome A × World
  answer act w [] = act w
  answer act w (grant ∷ s) = act (record w { schedule = s })
  answer act w (refuse ∷ s) = (err io, record w { schedule = s })
  answer act w (kill ∷ s) = (crash, record w { schedule = s })

  unfoldable pub perform : (World → Outcome A × World) → Io A
  perform act w = answer act w w.schedule

  abbrev pub lift_result : Result A → Io A
  lift_result (done a) = pure a
  lift_result (failed e) = raise e

  abbrev pub blame : (Error → Error) → Outcome A → Outcome A
  blame f (ok a) = ok a
  blame f (err e) = err (f e)
  blame f crash = crash

  -- The same action with another error.
  unfoldable pub map_err : (Error → Error) → Io A → Io A
  map_err f m w = let (o, w') = m w in (blame f o, w')

-- `if !test { return fmt.Errorf(…) }`
abbrev pub guard : Bool → Reason → Io (Unit {0})
guard true r = pure tt
guard false r = raise (message r)

module _ {ℓ κ} {A : Type ℓ} {B : Type κ} where
  abbrev pub continue : Outcome A → (A → Io B) → Io B
  continue (ok a) f w = f a w
  continue (err e) f w = (err e, w)
  continue crash f w = (crash, w)

  infixl 5 ◌>>=◌
  unfoldable pub ◌>>=◌ : Io A → (A → Io B) → Io B
  ◌>>=◌ m f w = let (o, w') = m w in continue o f w'

module _ {ℓ} {B : Type ℓ} where
  infixl 5 ◌>>◌
  abbrev pub ◌>>◌ : Io (Unit {0}) → Io B → Io B
  m >> k = m >>= λ _. k

module _ {ℓ} {A : Type ℓ} where
  -- A deferred call: its own error is dropped.
  abbrev pub after_defer : Outcome A → Outcome (Unit {0}) → Outcome A
  after_defer o crash = crash
  after_defer o _ = o

  abbrev pub defer_after : Outcome A → Io (Unit {0}) → Io A
  defer_after crash d w = (crash, w)
  defer_after o d w = let (u, w') = d w in (after_defer o u, w')

  unfoldable pub finally : Io (Unit {0}) → Io A → Io A
  finally d m w = let (o, w') = m w in defer_after o d w'

abbrev or_missing {ℓ} : {A : Type ℓ} → Option A → Outcome A
or_missing none = err not_exist
or_missing (some a) = ok a

-- os.Lstat of a path of the state directory
unfoldable pub lstat : FilePath → Io Entry
lstat p = perform (λ w. (or_missing (lookup p w.entries), w))

abbrev link_text : Option Entry → Outcome Text
link_text none = err not_exist
link_text (some (symlink t)) = ok t
link_text (some _) = err io

-- os.Readlink
unfoldable pub readlink : FilePath → Io Text
readlink p = perform (λ w. (link_text (lookup p w.entries), w))

abbrev file_content : Option Entry → Outcome Content
file_content none = err not_exist
file_content (some (regular _ c)) = ok c
file_content (some _) = err io

-- os.ReadFile of a path of the state directory
unfoldable pub read_file : FilePath → Io Content
read_file p = perform (λ w. (file_content (lookup p w.entries), w))

-- os.Stat of a path elsewhere
unfoldable pub stat : Text → Io Info
stat t = perform (λ w. (or_missing (w.outside t), w))

abbrev make_dir : Option Entry → FilePath → Entries → Outcome (Unit {0}) × Entries
make_dir none p es = (ok tt, put p directory es)
make_dir (some directory) p es = (ok tt, es)
make_dir (some _) p es = (err io, es)

-- os.MkdirAll of a directory whose parents exist
unfoldable pub mkdir_all : FilePath → Io (Unit {0})
mkdir_all p =
    perform (λ w.
      let (o, es) = make_dir (lookup p w.entries) p w.entries in (o, record w { entries = es }))

abbrev opened : Option Entry → FilePath → ℕ → Entries → Outcome (Unit {0}) × Entries
opened none p mode es = (ok tt, put p (regular mode (raw [])) es)
opened (some (regular m c)) p mode es = (ok tt, es)
opened (some _) p mode es = (err io, es)

-- os.OpenFile for appending, which makes the file where it is missing
unfoldable pub open_append : FilePath → ℕ → Io (Unit {0})
open_append p mode = perform (λ w.
    let (o, es) = opened (lookup p w.entries) p mode w.entries in (o, record w { entries = es }))

-- os.MkdirTemp and os.CreateTemp
unfoldable pub make_temp : Io (Unit {0})
make_temp = perform (λ w. (ok tt, record w { temps = none ∷ w.temps }))

abbrev set_newest : Option Entry → List (Option Entry) → List (Option Entry)
set_newest x [] = []
set_newest x (_ ∷ ts) = x ∷ ts

abbrev newest : List (Option Entry) → Option Entry
newest [] = none
newest (t ∷ ts) = t

-- What stands in the newest temporary: os.Symlink into it, or one call on the open file.
unfoldable pub fill_temp : Entry → Io (Unit {0})
fill_temp x = perform (λ w. (ok tt, record w { temps = set_newest (some x) w.temps }))

abbrev rename_over : Option Entry → FilePath → World → Outcome (Unit {0}) × World
rename_over none p w = (err not_exist, w)
rename_over (some x) p w = elim (lookup p w.entries) [
  | some directory ↦ (err io, w)
  | _ ↦ (ok tt, record w { entries = put p x w.entries; temps = set_newest none w.temps })
]

-- os.Rename of the newest temporary: the entry at the path is replaced in one step. A file or a
-- symlink cannot replace a directory.
unfoldable pub rename_temp : FilePath → Io (Unit {0})
rename_temp p = perform (λ w. rename_over (newest w.temps) p w)

abbrev drop_newest : List (Option Entry) → List (Option Entry)
drop_newest [] = []
drop_newest (_ ∷ ts) = ts

-- os.RemoveAll or os.Remove of the newest temporary
unfoldable pub remove_temp : Io (Unit {0})
remove_temp = perform (λ w. (ok tt, record w { temps = drop_newest w.temps }))

-- os.Remove
unfoldable pub remove_file : FilePath → Io (Unit {0})
remove_file p = perform (λ w. (ok tt, record w { entries = remove p w.entries }))

abbrev names_in : Option Entry → FilePath → Entries → Outcome (List Text)
names_in none p es = err not_exist
names_in (some directory) p es = ok (names_under p es)
names_in (some _) p es = err io

-- os.ReadDir: the names, in the order of the table
unfoldable pub read_dir : FilePath → Io (List Text)
read_dir p = perform (λ w. (names_in (lookup p w.entries) p w.entries, w))

-- A system call with no effect on the files, such as fsync(2) or close(2).
unfoldable pub no_op : Io (Unit {0})
no_op = perform (λ w. (ok tt, w))

abbrev pub exit_status : Bool → Outcome (Unit {0})
exit_status true = ok tt
exit_status false = err io

abbrev leave : Option Entry → FilePath → Entries → Entries
leave none p es = es
leave (some x) p es = put p x es

abbrev or_failed {ℓ} : {A : Type ℓ} → Option A → Outcome A
or_failed none = err io
or_failed (some a) = ok a

-- A command that runs to its end and may leave one entry in the state directory.
unfoldable pub run_leaving : Bool × Option Entry → FilePath → Io (Unit {0})
run_leaving (fine, left) p =
    perform (λ w. (exit_status fine, record w { entries = leave left p w.entries }))

-- A command with output that may change what is outside the state directory.
unfoldable pub run_output {ℓ} :
    {A : Type ℓ} → ((Text → Option Info) → Option A × (Text → Option Info)) → Io A
run_output f =
    perform
      (λ w. let (out, outside) = f w.outside in (or_failed out, record w { outside = outside }))

abbrev with_mode : Option Entry → ℕ → FilePath → Entries → Outcome (Unit {0}) × Entries
with_mode (some (regular _ c)) mode p es = (ok tt, put p (regular mode c) es)
with_mode none mode p es = (err not_exist, es)
with_mode (some _) mode p es = (ok tt, es)

-- os.Chmod; the modes of directories are not kept
unfoldable pub chmod : FilePath → ℕ → Io (Unit {0})
chmod p mode = perform (λ w.
    let (o, es) = with_mode (lookup p w.entries) mode p w.entries in (o, record w { entries = es }))

abbrev put_all : List (FilePath × Entry) → Entries → Entries
put_all [] es = es
put_all ((p, x) ∷ left) es = put p x (put_all left es)

-- A command that runs to its end and may leave some entries.
unfoldable pub run_leaving_all : Bool × List (FilePath × Entry) → Io (Unit {0})
run_leaving_all (fine, left) =
    perform (λ w. (exit_status fine, record w { entries = put_all left w.entries }))

-- Whether a path is another, or lies under it.
abbrev pub is_under : FilePath → FilePath → Bool
is_under [] q = true
is_under (n ∷ p) [] = false
is_under (n ∷ p) (m ∷ q) = n == m && is_under p q

unfoldable pub remove_under : FilePath → Entries → Entries
remove_under p [] = []
remove_under p ((q, x) ∷ es) =
    let rest = remove_under p es in if is_under p q then rest else (q, x) ∷ rest

-- os.RemoveAll of a path of the state directory
unfoldable pub remove_all : FilePath → Io (Unit {0})
remove_all p = perform (λ w. (ok tt, record w { entries = remove_under p w.entries }))
