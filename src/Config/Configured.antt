-- ===== src/Config/Configured.antt =====
-- WriteRuntimeConfig of internal/client/config.go: what it leaves in the file of sshd.
use familiar_fleet.Base.{ℕ, ◌≡◌, Option, none, some, List, [], ◌∷◌, Text, nat_eq, text_eq}
use familiar_fleet.State.{Paths, Enrollment}
use familiar_fleet.Config.{Written, ConfigError, sshd_config_text}
use familiar_fleet.Config.Directives.{directives, ReadsAs}

abbrev pub last_file : List Written → Option Written
last_file [] = none
last_file (f ∷ []) = some f
last_file (f ∷ g ∷ fs) = last_file (g ∷ fs)

-- The last of the files is the configuration, and it is read as the directives.
abbrev pub EndsConfigured : Paths → Text → ℕ → List Written → Type 0
EndsConfigured paths user port files =
    (file : Written) × (last_file files ≡ some file)
    × (file.path ≡ paths.sshd_config)
    × ReadsAs file.content (directives paths user port)

abbrev Configures : Paths → Text → ℕ → List Written × Option ConfigError → Type 0
Configures paths user port (files, some e) = Unit
Configures paths user port (files, none) = EndsConfigured paths user port files

module _ (paths : Paths) (e : Enrollment) (user herdr : Text) (port : ℕ) where
  abbrev written_config : Written
  written_config = record {
    path = paths.sshd_config;
    content = sshd_config_text paths user port;
    mode = 0o600;
  }
