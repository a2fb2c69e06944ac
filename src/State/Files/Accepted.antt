-- ===== src/State/Files/Accepted.antt =====
-- Which states `LoadState` returns.
use familiar_fleet.Base.{Bool, true, ◌≡◌, Option, none, some, Text, arith, int_is}
use familiar_fleet.Host.{World, attempt, ◌>>=◌, lstat, read_file, Entry}
use familiar_fleet.Host.Answers.{Answers, bind-Answers, Answers-by}
use familiar_fleet.Host.{FilePath, Result, done, failed, guard, not_owner_only}
use familiar_fleet.Endpoint.{Urls, validate_endpoint}
use familiar_fleet.State.{validate_enrollment}
use familiar_fleet.State.Grammar.{match_user}
use familiar_fleet.State.Files.{
  Codec, Saved, Decoded, invalid, trailing, value, check_decoded, check_saved, load_state,
  load_from, is_owner_only, bytes_of,
}

module _ (codec : Codec Saved) (urls : Urls) (is_ip : Text → Bool) where
  -- A state that the program goes on with.
  pub record IsAccepted (s : Saved) : Type 0 where
    pub version : int_is s.version 1 ≡ true
    pub endpoint : validate_endpoint urls s.endpoint ≡ true
    pub ssh_user : match_user s.ssh_user ≡ true
    pub enrollment : validate_enrollment is_ip s.enrollment ≡ none

  abbrev pub AcceptedIf : Option Saved → World → Type 0
  AcceptedIf none w = Unit
  AcceptedIf (some s) w = IsAccepted s

  check_saved-IsAccepted :
      (s : Saved) (w : World) → Answers AcceptedIf (check_saved codec urls is_ip s w)
  unfolding ◌>>=◌
  check_saved-IsAccepted s w = ground arith

  check_decoded-IsAccepted :
      (d : Decoded Saved) (w : World) → Answers AcceptedIf (check_decoded codec urls is_ip d w)
  check_decoded-IsAccepted invalid w = tt
  check_decoded-IsAccepted trailing w = tt
  check_decoded-IsAccepted (value s) w = check_saved-IsAccepted s w

  -- A state that `LoadState` returns has the current version, an endpoint and a user name that are
  -- valid, and a valid enrollment, whatever the file holds.
  pub load_state-IsAccepted :
      (path : FilePath) (w : World) → Answers AcceptedIf (load_state codec urls is_ip path w)
  unfolding load_state
  load_state-IsAccepted path w =
      bind-Answers AcceptedIf _ (attempt (lstat path)) w
        (λ r _. by_info r (attempt (lstat path) w).1)
    where
      by_info :
          (r : Result Entry) (v : World) → Answers AcceptedIf (load_from codec urls is_ip path r v)
      by_info (failed e) v = Answers-by AcceptedIf _ (λ o h. ground (arith, h))
      by_info (done info) v =
          bind-Answers AcceptedIf _ (guard (is_owner_only info) not_owner_only) v (λ _ _.
            bind-Answers AcceptedIf _ _ _ (λ _ _.
              bind-Answers AcceptedIf _ (read_file path) _ (λ content _.
                bind-Answers AcceptedIf _ (bytes_of content) _
                  (λ text _. check_decoded-IsAccepted (codec.decode text) _))))
