-- ===== src/State/Files/RoundTrip.antt =====
-- Saving and loading the state.
use familiar_fleet.Base.{
  ◌≡◌, ◌⊎◌, Bool, true, none, some, [], ◌∷◌, ◌++◌, Text, length, ◌≤◌, ℕ, text_eq, texts_eq, eq_iff,
  arith,
}
use familiar_fleet.Host.{
  World, Outcome, ok, err, crash, regular, raw, put, lookup-put, FilePath, resume, lstat, read_file,
  make_temp, fill_temp, rename_temp, remove_temp, no_op, attempt, finally, perform, ◌>>=◌,
}
use familiar_fleet.Endpoint.{Urls, validate_endpoint}
use familiar_fleet.State.{validate_enrollment}
use familiar_fleet.State.Grammar.{match_user}
use familiar_fleet.State.Files.{
  Saved, Codec, value, atomic_write, load_state, save_state, current_version,
}
use familiar_fleet.Store.Provenance.{owner_only}

-- The entries before and after the write of a file, by the outcome.
abbrev pub Written : FilePath → Text → ℕ → Outcome (Unit {0}) → (before after : World) → Type 0
Written path text mode (ok _) w w' = w'.entries ≡ put path (regular mode (raw text)) w.entries
Written path text mode (err _) w w' = w'.entries ≡ w.entries
Written path text mode crash w w' =
    (w'.entries ≡ w.entries) ⊎ (w'.entries ≡ put path (regular mode (raw text)) w.entries)

-- `atomicWrite` for every schedule: success writes the file and nothing else, an error writes nothing,
-- and a crash leaves one or the other.
pub atomic_write_atomic :
    (path : FilePath) (text : Text) (mode : ℕ) (w : World)
    → Written path text mode (atomic_write path text mode w).0 w (atomic_write path text mode w).1
unfolding atomic_write make_temp fill_temp no_op rename_temp remove_temp attempt finally perform
    ◌>>=◌
atomic_write_atomic path text mode w = ground arith

module _ (codec : Codec Saved) (urls : Urls) (is_ip : Text → Bool) (path : FilePath)
    (s : Saved) where
  -- A state that `LoadState` accepts, once it is read.
  pub record IsValid : Type 0 where
    pub endpoint : validate_endpoint urls s.endpoint ≡ true
    pub ssh_user : match_user s.ssh_user ≡ true
    pub enrollment : validate_enrollment is_ip s.enrollment ≡ none
    pub decoded :
        codec.decode (codec.encode (current_version codec urls is_ip s) ++ 10 ∷ [])
        ≡ value (current_version codec urls is_ip s)
    pub small : length (codec.encode (current_version codec urls is_ip s) ++ 10 ∷ []) ≤ 1048576

  -- After a state that is valid was saved, with whatever schedule, loading it gives the state with the
  -- current version, where no system call fails and the codec reads back what it has printed.
  pub load_state-save_state :
      (w : World)
      → IsValid
      → (save_state codec urls is_ip path s w).0 ≡ ok tt
      → (load_state codec urls is_ip path (resume (save_state codec urls is_ip path s w).1 [])).0
        ≡ ok (some (current_version codec urls is_ip s))
  unfolding load_state save_state lstat read_file attempt perform ◌>>=◌
  load_state-save_state w v h =
      let text = codec.encode (current_version codec urls is_ip s) ++ 10 ∷ [] in
      ground (
        arith,
        v.endpoint,
        v.ssh_user,
        v.enrollment,
        v.decoded,
        v.small,
        atomic_write_atomic path text owner_only w,
        lookup-put path path (regular owner_only (raw text)) w.entries,
        eq_iff path path,
      )
