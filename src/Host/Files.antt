-- ===== src/Host/Files.antt =====
-- The state directory as an association list, and what `stat` finds elsewhere.
use familiar_fleet.Base.{
  true, contains, Bool-cases, inl, inr, ◌++◌, ℕ, Option, none, some, ◌≡◌, refl, List, [], ◌∷◌, Text,
  texts_eq, eq_iff, ◌==◌, arith, if◌then◌else◌, nat_eq, text_eq,
}

-- A clean absolute path of the state directory: its components. The program makes these paths
-- by `filepath.Join` from a directory that `filepath.Abs` has cleaned.
abbrev pub FilePath : Type 0
FilePath = List Text

-- AppliedRecord of store.go
pub record AppliedRecord : Type 0 where
  pub installable : Text
  pub target : Text

-- What a file holds: bytes, or JSON from which `json.Unmarshal` reads a record.
pub data Content : Type 0 where
  raw : Text → Content
  applied : AppliedRecord → Content

pub data Entry : Type 0 where
  directory : Entry
  symlink : Text → Entry
  regular : (mode : ℕ) → Content → Entry

abbrev pub Entries : Type 0
Entries = List (FilePath × Entry)

unfoldable pub lookup : FilePath → Entries → Option Entry
lookup p [] = none
lookup p ((q, x) ∷ es) = if q == p then some x else lookup p es

unfoldable pub remove : FilePath → Entries → Entries
remove p [] = []
remove p ((q, x) ∷ es) = let rest = remove p es in if q == p then rest else (q, x) ∷ rest

pub lookup-remove :
    (p q : FilePath) (es : Entries)
    → lookup q (remove p es) ≡ (if p == q then none else lookup q es)
unfolding lookup remove
lookup-remove p q [] = ground arith
lookup-remove p q ((r, x) ∷ es) =
    ground (arith, lookup-remove p q es, eq_iff r p, eq_iff r q, eq_iff p q)

unfoldable pub put : FilePath → Entry → Entries → Entries
unfolding remove
put p x es = (p, x) ∷ remove p es

pub lookup-put :
    (p q : FilePath) (x : Entry) (es : Entries)
    → lookup q (put p x es) ≡ (if p == q then some x else lookup q es)
unfolding put lookup
lookup-put p q x es = ground (arith, lookup-remove p q es)

-- The names directly under a directory, one for each entry.
abbrev name_under : FilePath → FilePath → Option Text
name_under [] [] = none
name_under [] (n ∷ []) = some n
name_under [] (n ∷ _ ∷ _) = none
name_under (d ∷ ds) [] = none
name_under (d ∷ ds) (n ∷ ns) = let rest = name_under ds ns in if d == n then rest else none

abbrev add_name : Option Text → List Text → List Text
add_name none ns = ns
add_name (some n) ns = n ∷ ns

unfoldable pub names_under : FilePath → Entries → List Text
names_under d [] = []
names_under d ((q, x) ∷ es) = add_name (name_under d q) (names_under d es)

name_under-append : (d : FilePath) (n : Text) → name_under d (d ++ n ∷ []) ≡ some n
name_under-append [] n = refl
name_under-append (c ∷ d) n = ground (arith, eq_iff c c, name_under-append d n)

-- An entry directly under a directory is among its names.
pub names_under_complete :
    (d : FilePath) (n : Text) (x : Entry) (es : Entries)
    → lookup (d ++ n ∷ []) es ≡ some x
    → contains (names_under d es) n ≡ true
unfolding lookup names_under
names_under_complete d n x [] h = cc
names_under_complete d n x ((q, y) ∷ es) h = elim (Bool-cases (q == (d ++ n ∷ []))) [
  | inl e ↦ rw ((eq_iff q (d ++ n ∷ [])).0 e, name_under-append d n) (ground (arith, eq_iff n n))
  | inr e ↦ later (name_under d q) (names_under_complete d n x es (rw e at h))
]
  where
    later :
        (o : Option Text)
        → contains (names_under d es) n ≡ true
        → contains (add_name o (names_under d es)) n ≡ true
    later none k = k
    later (some m) k = ground arith

-- os.FileInfo, as far as the program reads it
pub data Kind : Type 0 where
  regular_file : Kind
  directory_file : Kind
  other_file : Kind

pub record Info : Type 0 where
  pub kind : Kind
  pub perm : ℕ
  pub size : ℕ

-- What the kernel answers to a system call: it does it, it refuses, or the process dies first.
pub data Verdict : Type 0 where
  grant refuse kill : Verdict

-- `temps` holds the temporary files and directories, the newest first, each with what was last put
-- in it: `os.MkdirTemp` and `os.CreateTemp` give them names that no other file has.
-- `schedule` holds the answers to the system calls to come; past its end each call is granted.
pub record World : Type 0 where
  pub outside : Text → Option Info
  pub entries : Entries
  pub temps : List (Option Entry)
  pub schedule : List Verdict

-- The world with another schedule.
abbrev pub resume : World → List Verdict → World
resume w s = record w { schedule = s }
